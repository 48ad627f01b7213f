-- ===== src/Random/Draws.antt =====
-- The draws of pset4/random_source.hh, for a distribution that keeps to its range.
use traxos.Base.{
  ℕ, zero, suc, ◌+◌, ◌-◌, ◌*◌, ◌/◌, ◌^◌, ◌<◌, ◌≤◌, ◌≡◌, inl, inr, ◌∙◌, Text, some, [], ◌++◌, ltb,
  leb, length, All, All-append, length-append, arith, Bool-cases,
}
use traxos.Random.{format_hex, uniform, hex_loop, uniform_hex}
use traxos.Random.Hex.{IsHexDigit, format_hex-All, length-format_hex, power-limit, limit-pos}

-- The distribution keeps to its range.
abbrev pub Ranged : {E : Type 0} → (ℕ → ℕ → E → ℕ × E) → Type 0
Ranged {E} draw =
    (min max : ℕ) (e : E) → min ≤ max → (min ≤ (draw min max e).0) × ((draw min max e).0 ≤ max)

module _ {E : Type 0} (draw : ℕ → ℕ → E → ℕ × E) (ranged : Ranged draw) where
  uniform-range :
      (min max : ℕ) (e : E)
      → min ≤ max
      → (min ≤ (uniform draw min max e).0) × ((uniform draw min max e).0 ≤ max)
  unfolding uniform
  uniform-range min max e le = elim (Bool-cases (leb max min)) [
    | inl flat ↦ rw flat (omega arith, le)
    | inr wide ↦ rw wide (ranged min max e le)
  ]

  drawn_digits :
      (n : ℕ) (e : E)
      → 0 < n
      → n < 9
      → length (format_hex n (uniform draw 0 (2 ^ (n * 4) - 1) e).0) ≡ n
  drawn_digits zero e positive small = absurd (omega arith)
  drawn_digits (suc n) e positive small =
      let eq = power-limit (suc n) small in
      let some_values = limit-pos (suc n) in
      let in_range = (uniform-range 0 (2 ^ (suc n * 4) - 1) e (omega arith)).1 in
      length-format_hex n (uniform draw 0 (2 ^ (suc n * 4) - 1) e).0 (omega arith)

  hex_loop-digits :
      (f n : ℕ) (s : Text) (e : E)
      → n < 8 * f
      → All IsHexDigit s
      → (t : Text) × (e' : E) × (hex_loop draw f n s e ≡ some (t, e'))
        × All IsHexDigit t
        × (length t ≡ length s + n)
  unfolding hex_loop
  hex_loop-digits zero n s e few digits = absurd (omega arith)
  hex_loop-digits (suc f) n s e few digits = elim (Bool-cases (leb 8 n)) [
    | inl many ↦
        let v = uniform draw 0 (2 ^ 32 - 1) e in
        let s' = s ++ format_hex 8 v.0 in
        let to : hex_loop draw (suc f) n s e ≡ hex_loop draw f (n - 8) s' v.1 = ground arith in
        let (t, e', eq, all, len) =
          hex_loop-digits f (n - 8) s' v.1 (ground arith)
            (All-append IsHexDigit s (format_hex 8 v.0) digits (format_hex-All 8 v.0)) in
        let eight : length (format_hex 8 v.0) ≡ 8 = drawn_digits 8 e (omega arith) (omega arith) in
        (t, e', to ∙ eq, all, ground (arith, length-append s (format_hex 8 v.0)))
    | inr few ↦ elim (Bool-cases (ltb 0 n)) [
      | inl left ↦
          let v = uniform draw 0 (2 ^ (n * 4) - 1) e in
          let to : hex_loop draw (suc f) n s e ≡ some (s ++ format_hex n v.0, v.1) = ground arith in
          let here : length (format_hex n v.0) ≡ n =
            drawn_digits n e (ground arith) (ground arith) in
          (
            s ++ format_hex n v.0,
            v.1,
            to,
            All-append IsHexDigit s (format_hex n v.0) digits (format_hex-All n v.0),
            omega (arith, length-append s (format_hex n v.0)),
          )
      | inr done ↦
          let to : hex_loop draw (suc f) n s e ≡ some (s, e) = ground arith in
          (s, e, to, digits, ground arith)
    ]
  ]

  -- With a distribution that keeps to its range, the loop of `uniform_hex` ends, and gives as many
  -- characters as were asked for, each a lower-case hexadecimal digit.
  pub uniform_hex-digits :
      (n : ℕ) (e : E)
      → (t : Text) × (e' : E) × (uniform_hex draw n e ≡ some (t, e'))
        × All IsHexDigit t
        × (length t ≡ n)
  unfolding uniform_hex
  uniform_hex-digits n e =
      let (t, e', eq, all, len) = hex_loop-digits (n / 8 + 1) n [] e (omega arith) tt in
      (t, e', eq, all, omega arith)
