-- ===== src/Random/Hex.antt =====
-- The characters and the length of what `uniform_hex` of pset4/random_source.hh prints.
use traxos.Base.{
  ℕ, zero, suc, ◌-◌, ◌*◌, ◌/◌, ◌%◌, ◌^◌, ◌<◌, ◌≤◌, ◌≡◌, ◌⊎◌, inl, inr, refl, ap, true, [], ◌∷◌, ltb,
  length, replicate, All, All-append, length-append, arith, Bool-cases,
}
use traxos.Random.{hex_digit, hex_digits, format_hex}

abbrev pub IsHexDigit : ℕ → Type 0
IsHexDigit c = ((48 ≤ c) × (c ≤ 57)) ⊎ ((97 ≤ c) × (c ≤ 102))

hex_digit-IsHexDigit : (d : ℕ) → d < 16 → IsHexDigit (hex_digit d)
unfolding hex_digit
hex_digit-IsHexDigit d lt = elim (Bool-cases (ltb d 10)) [
  | inl low ↦ inl (ground arith)
  | inr high ↦ inr (ground arith)
]

hex_digits-All : (f v : ℕ) → All IsHexDigit (hex_digits f v)
unfolding hex_digits
hex_digits-All zero v = tt
hex_digits-All (suc f) v = elim (Bool-cases (ltb v 16)) [
  | inl low ↦ rw (low, hex_digits) (hex_digit-IsHexDigit v (ground arith), tt)
  | inr high ↦
      rw (high, hex_digits)
        (All-append IsHexDigit (hex_digits f (v / 16)) (hex_digit (v % 16) ∷ [])
          (hex_digits-All f (v / 16)) (hex_digit-IsHexDigit (v % 16) (omega arith), tt))
]

-- 16 ^ w
pub limit : ℕ → ℕ
limit zero = 1
limit (suc w) = 16 * limit w

length-hex_digits : (f w v : ℕ) → v < limit (suc w) → length (hex_digits f v) ≤ suc w
unfolding hex_digits limit
length-hex_digits zero w v lt = omega arith
length-hex_digits (suc f) zero v lt =
    let low : ltb v 16 ≡ true = ground arith in rw (low, hex_digits) (omega arith)
length-hex_digits (suc f) (suc w) v lt = elim (Bool-cases (ltb v 16)) [
  | inl low ↦ rw (low, hex_digits) (omega arith)
  | inr high ↦
      let ih = length-hex_digits f w (v / 16) (omega arith) in
      rw (high, hex_digits)
        (omega (arith, length-append (hex_digits f (v / 16)) (hex_digit (v % 16) ∷ [])))
]

length-replicate : (k c : ℕ) → length (replicate k c) ≡ k
length-replicate zero c = refl
length-replicate (suc k) c = ap suc (length-replicate k c)

replicate-All : (k c : ℕ) → IsHexDigit c → All IsHexDigit (replicate k c)
replicate-All zero c h = tt
replicate-All (suc k) c h = (h, replicate-All k c h)

pub format_hex-All : (w v : ℕ) → All IsHexDigit (format_hex w v)
unfolding format_hex
format_hex-All w v =
    All-append IsHexDigit (replicate (w - length (hex_digits 8 v)) 48) (hex_digits 8 v)
      (replicate-All (w - length (hex_digits 8 v)) 48 (inl (omega arith))) (hex_digits-All 8 v)

pub length-format_hex : (w v : ℕ) → v < limit (suc w) → length (format_hex (suc w) v) ≡ suc w
unfolding format_hex
length-format_hex w v lt =
    let short = length-hex_digits 8 w v lt in
    omega (
      arith,
      length-append (replicate (suc w - length (hex_digits 8 v)) 48) (hex_digits 8 v),
      length-replicate (suc w - length (hex_digits 8 v)) 48,
    )

pub power-limit : (n : ℕ) → n < 9 → 2 ^ (n * 4) ≡ limit n
unfolding limit
power-limit zero lt = refl
power-limit (suc zero) lt = refl
power-limit (suc (suc zero)) lt = refl
power-limit (suc (suc (suc zero))) lt = refl
power-limit (suc (suc (suc (suc zero)))) lt = refl
power-limit (suc (suc (suc (suc (suc zero))))) lt = refl
power-limit (suc (suc (suc (suc (suc (suc zero)))))) lt = refl
power-limit (suc (suc (suc (suc (suc (suc (suc zero))))))) lt = refl
power-limit (suc (suc (suc (suc (suc (suc (suc (suc zero)))))))) lt = refl
power-limit (suc (suc (suc (suc (suc (suc (suc (suc (suc n))))))))) lt = absurd (omega arith)

pub limit-pos : (n : ℕ) → 0 < limit n
unfolding limit
limit-pos zero = omega arith
limit-pos (suc n) = omega (arith, limit-pos n)
