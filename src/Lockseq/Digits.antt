-- ===== src/Lockseq/Digits.antt =====
-- `parse_digits` of pset4/lockseq_model.cc on printed numbers.
use traxos.Base.{
  ℕ, ◌+◌, ◌-◌, ◌*◌, ◌%◌, ◌^◌, ◌≤◌, ◌<◌, ◌≡◌, refl, Text, [], ◌∷◌, ◌++◌, length, drop-append,
  take-append, arith,
}
use traxos.Base.Bytes.{
  decimal, AllDigits, value, decimal-AllDigits, value-decimal, length-decimal-pos,
}
use traxos.Lockseq.{digits_loop, parse_digits}

value-le : (acc : ℕ) (cs : Text) → acc ≤ value acc cs
value-le acc [] = omega arith
value-le acc (c ∷ cs) = omega (arith, value-le (acc * 10 + (c - 48)) cs)

digits_loop-value :
    (acc : ℕ) (cs : Text) → AllDigits cs → value acc cs < 2 ^ 32 → digits_loop acc cs ≡ value acc cs
unfolding digits_loop
digits_loop-value acc [] h small = refl
digits_loop-value acc (c ∷ cs) h small =
    let low = value-le (acc * 10 + (c - 48)) cs in
    let fits : (acc * 10 + (c - 48)) % 2 ^ 32 ≡ acc * 10 + (c - 48) = omega arith in
    ground (arith, h.0, fits, digits_loop-value (acc * 10 + (c - 48)) cs h.1 small)

-- `parse_digits` reads a number below `unsigned(-1)`, the value that stands for an error, from the
-- range in which it is printed, whatever stands before and after.
pub parse_digits-decimal :
    (before : Text) (n : ℕ) (after : Text)
    → n < 2 ^ 32 - 1
    → parse_digits
        (before ++ (decimal n ++ after))
        (length before)
        (length before + length (decimal n))
      ≡ n
unfolding parse_digits
parse_digits-decimal before n after small =
    let some_digit = length-decimal-pos n in
    let size : length before + length (decimal n) - length before ≡ length (decimal n) =
      omega arith in
    let read =
      digits_loop-value 0 (decimal n) (decimal-AllDigits n) (rw (value-decimal n) (omega arith)) in
    rw size (
      ground (
        arith,
        drop-append before (decimal n ++ after),
        take-append (decimal n) after,
        value-decimal n,
        read,
      ))
