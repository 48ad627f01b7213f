-- ===== src/Base/Order.antt =====
-- The interface of a totally ordered key type, which `std::map` asks of its keys, and the order of
-- `std::string`: bytes compared as unsigned numbers, a proper prefix first.
use Prim.Native.Nat.{ℕ, compare, Ordering}
use mathlib.Core.Path.{◌≡◌, refl}
use mathlib.Core.Logic.{◌↔◌}
use mathlib.Core.Bool.{Bool, true, false}
use mathlib.Core.List.{List, [], ◌∷◌}
use native.Mathlib.Omega.{arith}

abbrev pub flip : Ordering → Ordering
flip Ordering.lt = Ordering.gt
flip Ordering.eq = Ordering.eq
flip Ordering.gt = Ordering.lt

pub record Ordered {ℓ} (K : Type ℓ) : Type ℓ where
  pub cmp : K → K → Ordering
  pub cmp_iff : (a b : K) → (cmp a b ≡ Ordering.eq) ↔ (a ≡ b)
  pub cmp_swap : (a b : K) → cmp b a ≡ flip (cmp a b)
  pub cmp_trans :
      (a b c : K) → cmp a b ≡ Ordering.lt → cmp b c ≡ Ordering.lt → cmp a c ≡ Ordering.lt

-- A byte string.
abbrev pub Text : Type 0
Text = List ℕ

abbrev pub text_cmp : Text → Text → Ordering
text_cmp [] [] = Ordering.eq
text_cmp [] (y ∷ ys) = Ordering.lt
text_cmp (x ∷ xs) [] = Ordering.gt
text_cmp (x ∷ xs) (y ∷ ys) = elim (compare x y) [
  | Ordering.lt ↦ Ordering.lt
  | Ordering.eq ↦ text_cmp xs ys
  | Ordering.gt ↦ Ordering.gt
]

pub text_cmp_iff : (a b : Text) → (text_cmp a b ≡ Ordering.eq) ↔ (a ≡ b)
text_cmp_iff [] [] = ground arith
text_cmp_iff [] (y ∷ ys) = ground arith
text_cmp_iff (x ∷ xs) [] = ground arith
text_cmp_iff (x ∷ xs) (y ∷ ys) = ground (arith, text_cmp_iff xs ys)

pub text_cmp_swap : (a b : Text) → text_cmp b a ≡ flip (text_cmp a b)
text_cmp_swap [] [] = refl
text_cmp_swap [] (y ∷ ys) = refl
text_cmp_swap (x ∷ xs) [] = refl
text_cmp_swap (x ∷ xs) (y ∷ ys) = ground (arith, text_cmp_swap xs ys)

pub text_cmp_trans :
    (a b c : Text)
    → text_cmp a b ≡ Ordering.lt
    → text_cmp b c ≡ Ordering.lt
    → text_cmp a c ≡ Ordering.lt
text_cmp_trans [] (y ∷ ys) (z ∷ zs) h k = refl
text_cmp_trans (x ∷ xs) (y ∷ ys) (z ∷ zs) h k = ground (arith, text_cmp_trans xs ys zs)
text_cmp_trans a b c h k = ground arith

-- `==` of two strings
abbrev pub text_eq : Text → Text → Bool
text_eq a b = elim (text_cmp a b) [ Ordering.eq ↦ true | _ ↦ false ]

pub text_eq_iff : (a b : Text) → (text_eq a b ≡ true) ↔ (a ≡ b)
text_eq_iff a b = ground (arith, text_cmp_iff a b)

instance abbrev pub text_ordered : Ordered Text
text_ordered = record {
  cmp = text_cmp;
  cmp_iff = text_cmp_iff;
  cmp_swap = text_cmp_swap;
  cmp_trans = text_cmp_trans;
}
