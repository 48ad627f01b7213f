-- ===== src/Lockseq/Held.antt =====
-- The rounds of `check` in a locked group, whose keys have the group's name in front.
use traxos.Base.{
  ℕ, suc, ◌+◌, ◌-◌, ◌*◌, ◌/◌, ◌%◌, ◌<◌, ◌≡◌, refl, Text, true, false, some, [], ◌∷◌, ◌++◌, length,
  drop, drop-append, take-append, arith, text_eq_iff, leb,
}
use mathlib.Core.List.{append_assoc}
use traxos.Base.Bytes.{codes, AllDigits}
use traxos.Lockseq.{
  Scan, char_at, starts_with, check_group, is_lock_key, check_lock, check_value_key, find_slash,
  check_entry, digits_loop, parse_digits, find_slash,
}
use traxos.Lockseq.Keys.{make_lock_key, make_value_key, padded, make_group_key}

-- The name of a group with its slash.
abbrev pub group : ℕ → Text
group gid = make_group_key gid ++ codes "/"

-- Three digits are read as the number that is printed on them.
pub digits_loop-padded : (n : ℕ) → n < 1000 → digits_loop 0 (padded n) ≡ n
unfolding digits_loop
digits_loop-padded n small =
    let h : n / 100 < 10 = omega arith in
    let t : n / 10 % 10 < 10 = omega arith in
    let u : n % 10 < 10 = omega arith in
    let sum : (n / 100 * 10 + n / 10 % 10) * 10 + n % 10 ≡ n = omega arith in ground arith

pub length-append-4 :
    (g : Text) (c : ℕ) (ds : Text) → length ds ≡ 3 → length (g ++ c ∷ ds) ≡ length g + 4
length-append-4 [] c ds e = omega arith
length-append-4 (x ∷ g) c ds e = omega (arith, length-append-4 g c ds e)

drop-tail : (g : Text) (c : ℕ) (ds : Text) → drop (length g + 1) (g ++ c ∷ ds) ≡ ds
drop-tail [] c ds = refl
drop-tail (x ∷ g) c ds =
    let e : suc (length g) + 1 ≡ suc (length g + 1) = omega arith in rw (e, drop-tail g c ds) refl

pub starts_with-append : (g tail : Text) → starts_with (g ++ tail) g ≡ true
unfolding starts_with
starts_with-append g tail = rw (take-append g tail) ((text_eq_iff g g).1 refl)

pub value_index :
    (g : Text) (c n : ℕ)
    → n < 1000
    → parse_digits (g ++ c ∷ padded n) (length g + 1) (length g + 4) ≡ n
unfolding parse_digits
value_index g c n small =
    let three : length g + 4 - (length g + 1) ≡ 3 = omega arith in
    let inside : leb (length g + 4) (length g + 1) ≡ false = ground arith in
    rw (inside, drop-tail, three) (ground (arith, digits_loop-padded n small))

pub length-padded : (n : ℕ) → n < 1000 → length (padded n) ≡ 3
length-padded n small = ground arith

pub char_at-append : (g : Text) (c : ℕ) (ds : Text) → char_at (g ++ c ∷ ds) (length g) ≡ c
unfolding char_at
char_at-append g c ds = rw (char_at, drop-append g (c ∷ ds)) refl

pub value_key-group : (gid n : ℕ) → make_value_key gid n ≡ group gid ++ 118 ∷ padded n
value_key-group gid n = rw (append_assoc (make_group_key gid) (codes "/") (118 ∷ padded n)) refl

pub entry_of_value :
    (key value : Text) (st mid st' : Scan)
    → check_group key st ≡ some mid
    → is_lock_key key mid ≡ false
    → check_value_key key value mid ≡ some st'
    → check_entry key value st ≡ some st'
unfolding check_entry
entry_of_value key value st mid st' e f h = ground arith

pub entry_of_lock :
    (key value : Text) (st mid st' : Scan)
    → check_group key st ≡ some mid
    → is_lock_key key mid ≡ true
    → check_lock value mid ≡ some st'
    → check_entry key value st ≡ some st'
unfolding check_entry
entry_of_lock key value st mid st' e f h = ground arith

pub find_slash-digits : (ds r : Text) → AllDigits ds → find_slash (ds ++ 47 ∷ r) ≡ some (length ds)
unfolding find_slash
find_slash-digits [] r h = refl
find_slash-digits (d ∷ ds) r h = ground (arith, h.0, find_slash-digits ds r h.1)

pub lock_key-group : (gid : ℕ) → make_lock_key gid ≡ group gid ++ codes "lock"
lock_key-group gid = rw (append_assoc (make_group_key gid) (codes "/") (codes "lock")) refl
