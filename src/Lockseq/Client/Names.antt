-- ===== src/Lockseq/Client/Names.antt =====
-- The keys and values that the clients make, told apart.
use traxos.Base.{
  ℕ, ◌+◌, ◌≡◌, ◌≢◌, refl, ap, sym, ◌∙◌, Text, Option, [], ◌∷◌, ◌++◌, some, ◌==◌, if◌then◌else◌,
  arith,
}
use mathlib.Core.List.{append_assoc}
use traxos.Base.Bytes.{codes, decimal, AllDigits, decimal-AllDigits, from_chars, from_chars-decimal}
use traxos.Lockseq.Keys.{make_client_key, make_lock_key, make_value_key, padded}

-- What stands behind the first slash.
pub behind : Text → Text
behind [] = []
behind (c ∷ cs) = let rest = behind cs in if c == b'/' then cs else rest

behind-digits : (ds rest : Text) → AllDigits ds → behind (ds ++ 47 ∷ rest) ≡ rest
unfolding behind
behind-digits [] rest h = refl
behind-digits (d ∷ ds) rest h = ground (arith, h.0, behind-digits ds rest h.1)

pub behind-group : (gid : ℕ) (rest : Text) → behind (103 ∷ (decimal gid ++ 47 ∷ rest)) ≡ rest
unfolding behind
behind-group gid rest = behind-digits (decimal gid) rest (decimal-AllDigits gid)

head_of : Text → ℕ
head_of [] = 0
head_of (c ∷ cs) = c

pub value_key-ne-lock_key : (g n h : ℕ) → make_value_key g n ≢ make_lock_key h
unfolding head_of
value_key-ne-lock_key g n h e =
    let tails : 118 ∷ padded n ≡ codes "lock" =
      sym (behind-group g (118 ∷ padded n)) ∙ (ap behind e ∙ behind-group h (codes "lock")) in
    let heads : ◌≡◌ {A = ℕ} 118 108 = ap head_of tails in omega arith

-- A value that the client `i` writes.
pub record IsValueOf (i : ℕ) (x : Text) : Type 0 where
  pub hex : Text
  pub written : x ≡ (make_client_key i ++ codes " ") ++ hex

text_of :
    (i : ℕ) (hex : Text) → (make_client_key i ++ codes " ") ++ hex ≡ 99 ∷ (decimal i ++ 32 ∷ hex)
text_of i hex = ap (λ t. 99 ∷ t) (append_assoc (decimal i) (codes " ") hex)

pub IsValueOf-ne-nil : (i : ℕ) (x : Text) → IsValueOf i x → x ≢ []
IsValueOf-ne-nil i x v e =
    let eq : 99 ∷ (decimal i ++ 32 ∷ v.hex) ≡ [] = sym (text_of i v.hex) ∙ (sym v.written ∙ e) in cc

tail_of : Text → Text
tail_of [] = []
tail_of (c ∷ cs) = cs

-- The client of a value is read from it.
pub IsValueOf-unique : (i j : ℕ) (x : Text) → IsValueOf i x → IsValueOf j x → i ≡ j
unfolding tail_of
IsValueOf-unique i j x v v' =
    let whole : 99 ∷ (decimal i ++ 32 ∷ v.hex) ≡ 99 ∷ (decimal j ++ 32 ∷ v'.hex) =
      sym (text_of i v.hex) ∙ (sym v.written ∙ (v'.written ∙ text_of j v'.hex)) in
    let texts : decimal i ++ 32 ∷ v.hex ≡ decimal j ++ 32 ∷ v'.hex = ap tail_of whole in
    let read_i = from_chars-decimal (i + j) i (32 ∷ v.hex) (omega arith) refl in
    let read_j = from_chars-decimal (i + j) j (32 ∷ v'.hex) (omega arith) refl in
    let same : ◌≡◌ {A = Option (ℕ × Text)} (some (i, 32 ∷ v.hex)) (some (j, 32 ∷ v'.hex)) =
      sym read_i ∙ (ap (from_chars (i + j)) texts ∙ read_j) in
    cc
