-- ===== src/Base/Bytes.antt =====
-- Texts as bytes: literals, and the decimal numbers that `std::format` prints and
-- `std::from_chars` reads.
use Prim.Native.Char.{code}
use Prim.Native.String.{String}
use mathlib.Core.Path.{◌≡◌, refl}
use mathlib.Core.Bool.{Bool, true, false, ◌&&◌}
use mathlib.Core.Option.{Option, none, some}
use mathlib.Core.List.{[], ◌∷◌, ◌++◌}
use mathlib.Core.Logic.{inl, inr}
use Prim.Native.Nat.{ℕ, zero, suc, ◌+◌, ◌-◌, ◌*◌, ◌/◌, ◌%◌, ◌≤◌, ◌<◌}
use native.Mathlib.Omega.{arith}
use traxos.Base.Tests.{ltb, leb, if◌then◌else◌, Bool-cases}
use traxos.Base.Lists.{All, length, length-append}
use traxos.Base.Order.{Text}

-- The bytes of an ASCII literal.
abbrev pub codes : String → Text
codes String.[] = []
codes (String.◌∷◌ c s) = code c ∷ codes s

abbrev pub is_digit : ℕ → Bool
is_digit c = leb 48 c && leb c 57

-- `std::format("{}", n)`, with more fuel than digits.
decimal_fuel : ℕ → ℕ → Text
decimal_fuel zero n = []
decimal_fuel (suc fuel) n =
    let rest = decimal_fuel fuel (n / 10) in
    if ltb n 10 then (48 + n) ∷ [] else rest ++ ((48 + n % 10) ∷ [])

unfoldable pub decimal : ℕ → Text
unfolding decimal_fuel
decimal n = decimal_fuel (suc n) n

-- The number read from the digits at the front of a text, and the text behind them.
take_digits : ℕ → Text → ℕ × Text
take_digits acc [] = (acc, [])
take_digits acc (c ∷ cs) =
    let rest = take_digits (acc * 10 + (c - 48)) cs in if is_digit c then rest else (acc, c ∷ cs)

-- `std::from_chars` to an unsigned type whose greatest value is `max`: `none` where there is no
-- digit, or the number is too large.
unfoldable pub from_chars : ℕ → Text → Option (ℕ × Text)
unfolding take_digits
from_chars max [] = none
from_chars max (c ∷ cs) =
    let (n, rest) = take_digits 0 (c ∷ cs) in
    if is_digit c && leb n max then some (n, rest) else none

abbrev pub AllDigits : Text → Type 0
AllDigits = All (λ c. is_digit c ≡ true)

abbrev pub value : ℕ → Text → ℕ
value acc [] = acc
value acc (c ∷ cs) = value (acc * 10 + (c - 48)) cs

value-append :
    (acc : ℕ) (xs : Text) (c : ℕ) → value acc (xs ++ c ∷ []) ≡ value acc xs * 10 + (c - 48)
value-append acc [] c = refl
value-append acc (x ∷ xs) c = value-append (acc * 10 + (x - 48)) xs c

take_digits-append :
    (acc : ℕ) (xs ys : Text)
    → AllDigits xs
    → take_digits acc (xs ++ ys) ≡ take_digits (value acc xs) ys
unfolding take_digits
take_digits-append acc [] ys h = refl
take_digits-append acc (x ∷ xs) ys h =
    ground (arith, h.0, take_digits-append (acc * 10 + (x - 48)) xs ys h.1)

AllDigits-append : (xs ys : Text) → AllDigits xs → AllDigits ys → AllDigits (xs ++ ys)
AllDigits-append [] ys h k = k
AllDigits-append (x ∷ xs) ys h k = (h.0, AllDigits-append xs ys h.1 k)

decimal_fuel-AllDigits : (fuel n : ℕ) → AllDigits (decimal_fuel fuel n)
unfolding decimal_fuel
decimal_fuel-AllDigits zero n = tt
decimal_fuel-AllDigits (suc fuel) n = elim (Bool-cases (ltb n 10)) [
  | inl one ↦ rw (one, decimal_fuel) (ground arith, tt)
  | inr more ↦
      rw (more, decimal_fuel)
        (AllDigits-append (decimal_fuel fuel (n / 10)) _ (decimal_fuel-AllDigits fuel (n / 10))
          (ground arith, tt))
]

value-decimal_fuel : (fuel n : ℕ) → n < fuel → value 0 (decimal_fuel fuel n) ≡ n
unfolding decimal_fuel
value-decimal_fuel zero n h = elim h [ ]
value-decimal_fuel (suc fuel) n h = elim (Bool-cases (ltb n 10)) [
  | inl one ↦ rw one (omega arith)
  | inr more ↦
      rw (more, value-append)
        (let ih = value-decimal_fuel fuel (n / 10) (ground arith) in omega arith)
]

-- No digit stands at the front.
abbrev Stops : Text → Type 0
Stops [] = Unit
Stops (c ∷ cs) = is_digit c ≡ false

take_digits_stop : (acc : ℕ) (ys : Text) → Stops ys → take_digits acc ys ≡ (acc, ys)
unfolding take_digits
take_digits_stop acc [] h = refl
take_digits_stop acc (c ∷ cs) h = ground arith

from_chars-append :
    (max : ℕ) (xs ys : Text)
    → 0 < length xs
    → AllDigits xs
    → value 0 xs ≤ max
    → Stops ys
    → from_chars max (xs ++ ys) ≡ some (value 0 xs, ys)
unfolding from_chars
from_chars-append max [] ys p d h s = absurd (omega arith)
from_chars-append max (x ∷ xs) ys p d h s =
    ground
      (arith, take_digits-append 0 (x ∷ xs) ys d, take_digits_stop (value 0 (x ∷ xs)) ys s, d.0)

length-decimal_fuel-pos : (fuel n : ℕ) → 0 < fuel → 0 < length (decimal_fuel fuel n)
unfolding decimal_fuel
length-decimal_fuel-pos zero n h = absurd (omega arith)
length-decimal_fuel-pos (suc fuel) n h =
    ground (arith, length-append (decimal_fuel fuel (n / 10)) ((48 + n % 10) ∷ []))

-- Reading back a number that was printed, in front of anything that is no digit.
pub from_chars-decimal :
    (max n : ℕ) (rest : Text)
    → n ≤ max
    → Stops rest
    → from_chars max (decimal n ++ rest) ≡ some (n, rest)
unfolding decimal
from_chars-decimal max n rest h s =
    let back = value-decimal_fuel (suc n) n (omega arith) in
    ground (
      arith,
      back,
      from_chars-append max (decimal_fuel (suc n) n) rest
          (length-decimal_fuel-pos (suc n) n (omega arith)) (decimal_fuel-AllDigits (suc n) n)
          (omega arith) s,
    )

pub decimal-AllDigits : (n : ℕ) → AllDigits (decimal n)
unfolding decimal
decimal-AllDigits n = decimal_fuel-AllDigits (suc n) n

pub value-decimal : (n : ℕ) → value 0 (decimal n) ≡ n
unfolding decimal
value-decimal n = value-decimal_fuel (suc n) n (omega arith)

pub length-decimal-pos : (n : ℕ) → 0 < length (decimal n)
unfolding decimal
length-decimal-pos n = length-decimal_fuel-pos (suc n) n (omega arith)
