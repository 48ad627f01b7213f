-- ===== src/Base/Bits.antt =====
-- `(a << 8) | b` where `b` is a byte, which is the sum since the two share no digit, and `a & 0xff`.
use Prim.Native.Nat.{max, min, digits, bit_and, bit_or, bit_and-bitwise, bit_or-bitwise}
use native.Mathlib.Nat.{le_refl, pow-suc}
use mathlib.Core.Path.{◌≡◌, refl, ◌∙◌, ap}
use Prim.Native.Nat.{ℕ, zero, suc, ◌+◌, ◌*◌, ◌/◌, ◌%◌, ◌≤◌, ◌<◌, ◌^◌}
use native.Mathlib.Omega.{arith}

-- Any operation on digits, for two counts of rounds that both reach the end of the first number,
-- and then one round of it.
module _ (past : ℕ → ℕ) (digit : ℕ → ℕ → ℕ) where
  rounds_same : (j k x y : ℕ) → x ≤ j → x ≤ k → digits past digit j x y ≡ digits past digit k x y
  rounds_same (suc j) (suc k) (suc x) y low low' =
      ap (λ high. high * 2 + digit (suc x % 2) (y % 2))
        (rounds_same j k (suc x / 2) (y / 2) (omega arith) (omega arith))
  rounds_same zero k (suc x) y low low' = absurd (omega arith)
  rounds_same j zero (suc x) y low low' = absurd (omega arith)
  rounds_same zero zero zero y low low' = refl
  rounds_same zero (suc k) zero y low low' = refl
  rounds_same (suc j) zero zero y low low' = refl
  rounds_same (suc j) (suc k) zero y low low' = refl

  round :
      (x y : ℕ)
      → digits past digit (suc x) (suc x) y
        ≡ digits past digit (suc x / 2) (suc x / 2) (y / 2) * 2 + digit (suc x % 2) (y % 2)
  round x y =
      ap (λ high. high * 2 + digit (suc x % 2) (y % 2))
        (rounds_same x (suc x / 2) (suc x / 2) (y / 2) (omega arith) (le_refl _))

or_byte_step : (x y : ℕ) → bit_or x y ≡ bit_or (x / 2) (y / 2) * 2 + max (x % 2) (y % 2)
or_byte_step (suc x) y =
    omega
      (arith, bit_or-bitwise (suc x) y, bit_or-bitwise (suc x / 2) (y / 2), round (λ b. b) max x y)
or_byte_step zero y = omega (arith, bit_or-bitwise 0 y, bit_or-bitwise 0 (y / 2))

or_nothing : (bound x : ℕ) → x ≤ bound → bit_or x 0 ≡ x
or_nothing bound zero low = bit_or-bitwise 0 0
or_nothing zero (suc x) low = absurd (omega arith)
or_nothing (suc bound) (suc x) low =
    let half = or_nothing bound (suc x / 2) (omega arith) in
    omega (arith, half, or_byte_step (suc x) 0)

or_shifted : (k q r : ℕ) → r < 2 ^ k → bit_or (q * 2 ^ k) r ≡ q * 2 ^ k + r
or_shifted zero q r h =
    let e : r ≡ 0 = omega arith in
    rw e (or_nothing (q * 2 ^ 0) (q * 2 ^ 0) (le_refl _) ∙ omega arith)
or_shifted (suc k) q r h =
    let double : q * 2 ^ suc k ≡ q * 2 ^ k * 2 = rw pow-suc (omega arith) in
    let half : q * 2 ^ suc k / 2 ≡ q * 2 ^ k = omega arith in
    let even : q * 2 ^ suc k % 2 ≡ 0 = omega arith in
    let small : r / 2 < 2 ^ k = omega (arith, pow-suc 2 k) in
    rw (or_byte_step (q * 2 ^ suc k) r) (rw (half, or_shifted k q (r / 2) small) (omega arith))

pub bit_or_byte : (q r : ℕ) → r < 256 → bit_or (q * 256) r ≡ q * 256 + r
bit_or_byte q r h = or_shifted 8 q r h

and_byte_step : (x y : ℕ) → bit_and x y ≡ bit_and (x / 2) (y / 2) * 2 + min (x % 2) (y % 2)
and_byte_step (suc x) y = omega (
  arith,
  bit_and-bitwise (suc x) y,
  bit_and-bitwise (suc x / 2) (y / 2),
  round (λ b. zero) min x y,
)
and_byte_step zero y = omega (arith, bit_and-bitwise 0 y, bit_and-bitwise 0 (y / 2))

-- A mask that ends in a one keeps the lowest digit.
and_odd : (x m : ℕ) → bit_and x (m * 2 + 1) ≡ bit_and (x / 2) m * 2 + x % 2
and_odd x m =
    let half : (m * 2 + 1) / 2 ≡ m = omega arith in
    rw (and_byte_step x (m * 2 + 1), half) (omega arith)

and_nothing : (k x : ℕ) → digits (λ b. zero) min k x 0 ≡ 0
and_nothing zero x = refl
and_nothing (suc k) zero = refl
and_nothing (suc k) (suc x) = omega (arith, and_nothing k (suc x / 2))

-- `a & 0xff`
pub bit_and_byte : (x : ℕ) → bit_and x 255 ≡ x % 256
bit_and_byte x =
    let high = x / 2 / 2 / 2 / 2 in
    omega (
      arith,
      and_odd x 127,
      and_odd (x / 2) 63,
      and_odd (x / 2 / 2) 31,
      and_odd (x / 2 / 2 / 2) 15,
      and_odd high 7,
      and_odd (high / 2) 3,
      and_odd (high / 2 / 2) 1,
      and_odd (high / 2 / 2 / 2) 0,
      bit_and-bitwise (high / 2 / 2 / 2 / 2) 0,
      and_nothing (high / 2 / 2 / 2 / 2) (high / 2 / 2 / 2 / 2),
    )

-- `a & 4095`
pub bit_and_4095 : (x : ℕ) → bit_and x 4095 ≡ x % 4096
bit_and_4095 x =
    let y = x / 2 / 2 / 2 / 2 in
    omega (
      arith,
      and_odd x 2047,
      and_odd (x / 2) 1023,
      and_odd (x / 2 / 2) 511,
      and_odd (x / 2 / 2 / 2) 255,
      bit_and_byte y,
    )
