-- ===== src/Random.antt =====
-- pset4/random_source.hh: draws of integers, coins, and hexadecimal strings.
pub mod Hex
pub mod Draws
mod Tests
use traxos.Base.{
  ℕ, zero, suc, ◌+◌, ◌-◌, ◌*◌, ◌/◌, ◌%◌, ◌^◌, Text, Bool, not, Option, none, some, List, [], ◌∷◌,
  ◌++◌, if◌then◌else◌, ltb, leb, ◌==◌, length, replicate, drop,
}

-- `{:x}` of a digit
pub hex_digit : ℕ → ℕ
hex_digit d = if ltb d 10 then 48 + d else 87 + d

-- `{:x}` of a number of at most `f` digits
pub hex_digits : ℕ → ℕ → Text
unfolding hex_digit
hex_digits zero v = []
hex_digits (suc f) v =
    let rest = hex_digits f (v / 16) in
    if ltb v 16 then hex_digit v ∷ [] else rest ++ (hex_digit (v % 16) ∷ [])

-- `{:0{}x}` of an `unsigned` of 32 bits, in the width `w`
pub format_hex : ℕ → ℕ → Text
unfolding hex_digits
format_hex w v = let digits = hex_digits 8 v in replicate (w - length digits) 48 ++ digits

-- `draw min max` is `std::uniform_int_distribution(min, max)` on the engine of the type `E`.
module _ {E : Type 0} (draw : ℕ → ℕ → E → ℕ × E) where
  -- Of an unsigned type, or of values that are not negative
  pub uniform : ℕ → ℕ → E → ℕ × E
  uniform min max e = if leb max min then (min, e) else draw min max e

  pub coin_flip : E → Bool × E
  coin_flip e = let (v, e') = draw 0 1 e in (not (v == 0), e')

  -- `none` is a read past the list.
  pub pick : {U : Type 0} → List U → E → Option U × E
  pick list e =
      let (idx, e') = draw 0 (length list - 1) e in
      (elim (drop idx list) [ [] ↦ none | u ∷ us ↦ some u ], e')

  -- The `while` of `uniform_hex`, on fuel; `none` is that the fuel is out.
  pub hex_loop : ℕ → ℕ → Text → E → Option (Text × E)
  unfolding uniform format_hex
  hex_loop zero n s e = none
  hex_loop (suc f) n s e =
      let (v, e') = uniform 0 (2 ^ 32 - 1) e in
      let rest = hex_loop f (n - 8) (s ++ format_hex 8 v) e' in
      let (last, e'') = uniform 0 (2 ^ (n * 4) - 1) e in
      if leb 8 n then rest else if ltb 0 n then some (s ++ format_hex n last, e'') else some (s, e)

  pub uniform_hex : ℕ → E → Option (Text × E)
  unfolding hex_loop
  uniform_hex n e = hex_loop (n / 8 + 1) n [] e
