-- ===== src/OrdMap/Values.antt =====
-- A property of every value of a map, through the map operations.
use mathlib.Core.Path.{subst}
use traxos.Base.{◌≡◌, Ordered, some, [], ◌∷◌, All, arith, inl, inr, Ordering-cases}
use traxos.OrdMap.{OrdMap, find, insert_or_assign, erase}

module _ {ℓ κ μ} {K : Type ℓ} {V : Type κ} ⦃o : Ordered K⦄ (P : V → Type μ) where
  abbrev pub AllValues : OrdMap K V → Type μ
  AllValues m = All (λ e. P e.1) m

  pub find-AllValues : (k : K) (m : OrdMap K V) (v : V) → AllValues m → find k m ≡ some v → P v
  unfolding find
  find-AllValues k [] v h e = absurd (ground arith)
  find-AllValues k ((i, w) ∷ m) v h e = elim (Ordering-cases (o.cmp k i)) [
    | inl c ↦ absurd (ground arith)
    | inr (inl c) ↦ subst P (ground arith) h.0
    | inr (inr c) ↦ find-AllValues k m v h.1 (ground arith)
  ]

  pub insert_or_assign-AllValues :
      (k : K) (v : V) (m : OrdMap K V) → P v → AllValues m → AllValues (insert_or_assign k v m)
  unfolding insert_or_assign
  insert_or_assign-AllValues k v [] p h = (p, tt)
  insert_or_assign-AllValues k v ((i, w) ∷ m) p h = elim (Ordering-cases (o.cmp k i)) [
    | inl e ↦ rw (e, AllValues, All, insert_or_assign) (p, h)
    | inr (inl e) ↦ rw (e, AllValues, All, insert_or_assign) (p, h.1)
    | inr (inr e) ↦
        rw (e, AllValues, All, insert_or_assign) (h.0, insert_or_assign-AllValues k v m p h.1)
  ]

  pub erase-AllValues : (k : K) (m : OrdMap K V) → AllValues m → AllValues (erase k m)
  unfolding erase
  erase-AllValues k [] h = tt
  erase-AllValues k ((i, w) ∷ m) h = elim (Ordering-cases (o.cmp k i)) [
    | inl e ↦ rw (e, AllValues, All, erase) h
    | inr (inl e) ↦ rw (e, AllValues, All, erase) h.1
    | inr (inr e) ↦ rw (e, AllValues, All, erase) (h.0, erase-AllValues k m h.1)
  ]

module _ {ℓ κ μ ν} {K : Type ℓ} {V : Type κ} ⦃o : Ordered K⦄ where
  pub AllValues-mono :
      (P : V → Type μ) (Q : V → Type ν) (m : OrdMap K V)
      → ((v : V) → P v → Q v)
      → AllValues P m
      → AllValues Q m
  AllValues-mono P Q [] f h = tt
  AllValues-mono P Q ((i, w) ∷ m) f h = (f w h.0, AllValues-mono P Q m f h.1)
