-- ===== src/Options.antt =====
-- `short_options_for` of pset4/utils.cc, and the options of pset4/pt-paxos.cc.
mod Tests
use traxos.Base.{ℕ, Text, Bool, ◌&&◌, ◌||◌, if◌then◌else◌, List, [], ◌∷◌, ◌++◌, ltb, leb}
use traxos.Base.Bytes.{codes, is_digit}

pub data HasArg : Type 0 where
  no_argument required_argument optional_argument : HasArg

-- `struct option`; a value below 0 is not in the tables. The table ends before its null name.
pub record LongOption : Type 0 where
  pub name : Text
  pub has_arg : HasArg
  pub val : ℕ

-- In the locale `C`.
is_alpha : ℕ → Bool
is_alpha c = (leb 65 c && leb c 90) || (leb 97 c && leb c 122)

colons : HasArg → Text
colons no_argument = []
colons required_argument = codes ":"
colons optional_argument = codes "::"

pub short_options_for : List LongOption → Text
unfolding is_alpha colons
short_options_for [] = []
short_options_for (o ∷ os) =
    let rest = short_options_for os in
    if ltb 0 o.val && ltb o.val 128 && (is_alpha o.val || is_digit o.val)
    then o.val ∷ (colons o.has_arg ++ rest)
    else rest

abbrev long_option : Text → HasArg → ℕ → LongOption
long_option name has_arg val = record { name = name; has_arg = has_arg; val = val }

abbrev pub options : List LongOption
options =
    long_option (codes "count") required_argument b'n'
    ∷ long_option (codes "seed") required_argument b'S'
    ∷ long_option (codes "random-seeds") required_argument b'R'
    ∷ long_option (codes "loss") required_argument b'l'
    ∷ long_option (codes "verbose") no_argument b'V'
    ∷ long_option (codes "print-db") no_argument b'p'
    ∷ long_option (codes "quiet") no_argument b'q'
    ∷ []
