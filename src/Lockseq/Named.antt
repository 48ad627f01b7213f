-- ===== src/Lockseq/Named.antt =====
-- The names in the keys of `check` in pset4/lockseq_model.cc, and how it reads them.
use traxos.Base.{
  ℕ, zero, suc, ◌+◌, ◌-◌, ◌*◌, ◌%◌, ◌^◌, ◌≢◌, ◌∙◌, leb, ◌<◌, ◌≡◌, refl, ap, Text, false, some, [],
  ◌∷◌, ◌++◌, length, take, drop, arith, take_of_length-le, Option-cases, Bool-cases, inl, inr,
}
use mathlib.Core.Path.{subst}
use traxos.Base.Bytes.{is_digit, AllDigits}
use traxos.Lockseq.{is_empty, char_at, find_slash, parse_digits, digits_loop}

pub take-drop : (n : ℕ) (xs : Text) → xs ≡ take n xs ++ drop n xs
take-drop zero xs = refl
take-drop (suc n) [] = refl
take-drop (suc n) (x ∷ xs) = ap (◌∷◌ x) (take-drop n xs)

-- The name of a group: `g`, at least one digit, and a slash.
pub record IsGroup (group : Text) : Type 0 where
  pub digits : Text
  pub whole : group ≡ b'g' ∷ (digits ++ (b'/' ∷ []))
  pub all : AllDigits digits
  pub some_digit : 0 < length digits

-- `v` and three digits.
pub record IsValue (tail : Text) : Type 0 where
  pub digits : Text
  pub whole : tail ≡ b'v' ∷ digits
  pub all : AllDigits digits
  pub three : length digits ≡ 3

pub find_slash-lt : (key : Text) (n : ℕ) → find_slash key ≡ some n → n < length key
unfolding find_slash
find_slash-lt (c ∷ cs) n h = elim (Option-cases (find_slash cs)) [
  | inl e ↦ ground arith
  | inr (m, e) ↦ ground (arith, find_slash-lt cs m e)
]
find_slash-lt [] n h = absurd (ground arith)

pub length-take : (n : ℕ) (xs : Text) → n < suc (length xs) → length (take n xs) ≡ n
length-take zero xs h = refl
length-take (suc n) [] h = absurd (omega arith)
length-take (suc n) (x ∷ xs) h = omega (arith, length-take n xs (omega arith))

digits_loop-AllDigits : (v : ℕ) (cs : Text) → digits_loop v cs ≢ 2 ^ 32 - 1 → AllDigits cs
unfolding digits_loop
digits_loop-AllDigits v [] h = tt
digits_loop-AllDigits v (c ∷ cs) h = elim (Bool-cases (is_digit c)) [
  | inl digit ↦
      (digit, digits_loop-AllDigits ((v * 10 + (c - 48)) % 2 ^ 32) cs (λ e. h (ground arith)))
  | inr other ↦ absurd (h (ground arith))
]

-- What `parse_digits` reads without an error.
parse_digits-AllDigits :
    (s : Text) (from to : ℕ)
    → parse_digits s from to ≢ 2 ^ 32 - 1
    → (from < to) × AllDigits (take (to - from) (drop from s))
unfolding parse_digits
parse_digits-AllDigits s from to h = elim (Bool-cases (leb to from)) [
  | inl none_left ↦ absurd (h (ground arith))
  | inr some_left ↦ (
    ground arith,
    digits_loop-AllDigits 0 (take (to - from) (drop from s)) (λ e. h (ground arith)),
  )
]

slash-take :
    (key : Text) (n : ℕ) → find_slash key ≡ some n → take (suc n) key ≡ take n key ++ (b'/' ∷ [])
unfolding find_slash
slash-take [] n h = absurd (ground arith)
slash-take (c ∷ cs) zero h = elim (Option-cases (find_slash cs)) [
  | inl e ↦ ground arith
  | inr (m, e) ↦ ground arith
]
slash-take (c ∷ cs) (suc n) h = elim (Option-cases (find_slash cs)) [
  | inl e ↦ absurd (ground arith)
  | inr (m, e) ↦
      let found : find_slash cs ≡ some n = ground arith in ap (◌∷◌ c) (slash-take cs n found)
]

-- A new group, up to the slash at `n`.
pub entered :
    (key : Text) (n : ℕ)
    → find_slash key ≡ some n
    → char_at key 0 ≡ b'g'
    → parse_digits key 1 n ≢ 2 ^ 32 - 1
    → IsGroup (take (suc n) key)
unfolding char_at
entered [] n found g read = absurd (omega arith)
entered (c ∷ cs) zero found g read =
    let (some_left, all) = parse_digits-AllDigits (c ∷ cs) 1 0 read in absurd (omega arith)
entered (c ∷ cs) (suc m) found g read =
    let (some_left, all) = parse_digits-AllDigits (c ∷ cs) 1 (suc m) read in
    let below = find_slash-lt (c ∷ cs) (suc m) found in
    let size = length-take m cs (omega arith) in
    let e : suc m - 1 ≡ m = omega arith in
    record {
      digits = take m cs;
      whole = slash-take (c ∷ cs) (suc m) found ∙ ap (λ x. x ∷ (take m cs ++ (b'/' ∷ []))) g;
      all = subst (λ k. AllDigits (take k cs)) e all;
      some_digit = omega (arith, size);
    }

pub not-is_empty : (t : Text) → IsGroup t → is_empty t ≡ false
unfolding is_empty
not-is_empty t named = ap is_empty named.whole

pub length-drop : (n : ℕ) (xs : Text) → length (drop n xs) ≡ length xs - n
length-drop zero xs = omega arith
length-drop (suc n) [] = omega arith
length-drop (suc n) (x ∷ xs) = omega (arith, length-drop n xs)

drop-char : (i : ℕ) (key : Text) → i < length key → drop i key ≡ char_at key i ∷ drop (suc i) key
unfolding char_at
drop-char i [] h = absurd (omega arith)
drop-char zero (c ∷ cs) h = refl
drop-char (suc i) (c ∷ cs) h = drop-char i cs (omega arith)

pub drop-IsValue :
    (key : Text) (i : ℕ)
    → length key ≡ i + 4
    → char_at key i ≡ b'v'
    → parse_digits key (i + 1) (i + 4) ≢ 2 ^ 32 - 1
    → IsValue (drop i key)
drop-IsValue key i long v read =
    let (some_left, all) = parse_digits-AllDigits key (i + 1) (i + 4) read in
    let next : i + 1 ≡ suc i = omega arith in
    let three : length (drop (suc i) key) ≡ 3 = omega (arith, length-drop (suc i) key) in
    let whole : take ((i + 4) - (i + 1)) (drop (i + 1) key) ≡ drop (suc i) key =
      ap (λ k. take ((i + 4) - (i + 1)) (drop k key)) next
      ∙ take_of_length-le ((i + 4) - (i + 1)) (drop (suc i) key) (omega arith) in
    record {
      digits = drop (suc i) key;
      whole = drop-char i key (omega arith) ∙ ap (λ x. x ∷ drop (suc i) key) v;
      all = subst AllDigits whole all;
      three = three;
    }
