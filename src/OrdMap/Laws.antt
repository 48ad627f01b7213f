-- ===== src/OrdMap/Laws.antt =====
-- What each map operation does to a lookup, and to the order of the keys.
use mathlib.Core.Option
use traxos.Base.{
  ◌≡◌, refl, Ordering, Ordered, none, some, [], ◌∷◌, if◌then◌else◌, arith, inl, inr, Ordering-cases,
}
use traxos.OrdMap.{OrdMap, same, find, emplace, assign, insert_or_assign, erase, Below, IsSorted}

module _ {ℓ κ} {K : Type ℓ} {V : Type κ} ⦃o : Ordered K⦄ where
  pub find-insert_or_assign :
      (j k : K) (v : V) (m : OrdMap K V)
      → find j (insert_or_assign k v m) ≡ (if same j k then some v else find j m)
  unfolding find insert_or_assign
  find-insert_or_assign j k v [] = ground arith
  find-insert_or_assign j k v ((i, w) ∷ m) = ground (
    arith,
    find-insert_or_assign j k v m,
    o.cmp_iff j k,
    o.cmp_iff k i,
    o.cmp_iff j i,
    o.cmp_trans j k i,
    o.cmp_trans k i j,
    o.cmp_swap j i,
    o.cmp_swap k i,
    o.cmp_swap j k,
    o.cmp_trans i j k,
  )

  pub emplace-insert_or_assign :
      (k : K) (v : V) (m : OrdMap K V) → find k m ≡ none → emplace k v m ≡ insert_or_assign k v m
  unfolding find emplace insert_or_assign
  emplace-insert_or_assign k v [] h = refl
  emplace-insert_or_assign k v ((i, w) ∷ m) h = ground (arith, emplace-insert_or_assign k v m)

  pub emplace_present :
      (k : K) (v : V) (m : OrdMap K V) (w : V) → find k m ≡ some w → emplace k v m ≡ m
  unfolding find emplace
  emplace_present k v [] x h = ground arith
  emplace_present k v ((i, w) ∷ m) x h = ground (arith, emplace_present k v m x)

  pub assign-insert_or_assign :
      (k : K) (v : V) (m : OrdMap K V) (w : V)
      → find k m ≡ some w
      → assign k v m ≡ insert_or_assign k v m
  unfolding find assign insert_or_assign
  assign-insert_or_assign k v [] x h = ground arith
  assign-insert_or_assign k v ((i, w) ∷ m) x h =
      ground (arith, o.cmp_iff k i, assign-insert_or_assign k v m x)

  pub find-emplace_self :
      (k : K) (d : V) (m : OrdMap K V) → find k (emplace k d m) ≡ some (Option.get_or (find k m) d)
  unfolding find emplace
  find-emplace_self k d [] = ground (arith, o.cmp_iff k k)
  find-emplace_self k d ((i, w) ∷ m) = ground (arith, o.cmp_iff k k, find-emplace_self k d m)

  pub assign-emplace :
      (k : K) (v d : V) (m : OrdMap K V) → assign k v (emplace k d m) ≡ insert_or_assign k v m
  unfolding emplace assign insert_or_assign
  assign-emplace k v d [] = ground (arith, o.cmp_iff k k)
  assign-emplace k v d ((i, w) ∷ m) = ground (arith, o.cmp_iff k k, assign-emplace k v d m)

  pub Below-trans : (j k : K) (m : OrdMap K V) → o.cmp j k ≡ Ordering.lt → Below k m → Below j m
  Below-trans j k [] h b = tt
  Below-trans j k ((i, w) ∷ m) h b = (o.cmp_trans j k i h b.0, Below-trans j k m h b.1)

  Below-insert_or_assign :
      (j k : K) (v : V) (m : OrdMap K V)
      → o.cmp j k ≡ Ordering.lt
      → Below j m
      → Below j (insert_or_assign k v m)
  unfolding insert_or_assign
  Below-insert_or_assign j k v [] h b = (h, tt)
  Below-insert_or_assign j k v ((i, w) ∷ m) h b = elim (Ordering-cases (o.cmp k i)) [
    | inl e ↦ rw (e, Below, insert_or_assign) (h, b)
    | inr (inl e) ↦ rw (e, Below, insert_or_assign) b
    | inr (inr e) ↦ rw (e, Below, insert_or_assign) (b.0, Below-insert_or_assign j k v m h b.1)
  ]

  pub insert_or_assign-IsSorted :
      (k : K) (v : V) (m : OrdMap K V) → IsSorted m → IsSorted (insert_or_assign k v m)
  unfolding insert_or_assign
  insert_or_assign-IsSorted k v [] s = (tt, tt)
  insert_or_assign-IsSorted k v ((i, w) ∷ m) s = elim (Ordering-cases (o.cmp k i)) [
    | inl e ↦ rw (e, IsSorted, insert_or_assign) ((e, Below-trans k i m e s.0), s)
    | inr (inl e) ↦ rw (e, IsSorted, insert_or_assign) s
    | inr (inr e) ↦
        rw (e, IsSorted, insert_or_assign)
          (
            Below-insert_or_assign i k v m (ground (arith, o.cmp_swap k i)) s.0,
            insert_or_assign-IsSorted k v m s.1,
          )
  ]

  Below-erase : (j k : K) (m : OrdMap K V) → Below j m → Below j (erase k m)
  unfolding erase
  Below-erase j k [] b = tt
  Below-erase j k ((i, w) ∷ m) b = elim (Ordering-cases (o.cmp k i)) [
    | inl e ↦ rw (e, Below, erase) b
    | inr (inl e) ↦ rw (e, Below, erase) b.1
    | inr (inr e) ↦ rw (e, Below, erase) (b.0, Below-erase j k m b.1)
  ]

  pub erase-IsSorted : (k : K) (m : OrdMap K V) → IsSorted m → IsSorted (erase k m)
  unfolding erase
  erase-IsSorted k [] s = tt
  erase-IsSorted k ((i, w) ∷ m) s = elim (Ordering-cases (o.cmp k i)) [
    | inl e ↦ rw (e, IsSorted, erase) s
    | inr (inl e) ↦ rw (e, IsSorted, erase) s.1
    | inr (inr e) ↦ rw (e, IsSorted, erase) (Below-erase i k m s.0, erase-IsSorted k m s.1)
  ]

  pub find-Below : (k : K) (m : OrdMap K V) → Below k m → find k m ≡ none
  unfolding find
  find-Below k [] b = refl
  find-Below k ((i, w) ∷ m) b = rw (b.0, find)

  pub find-erase :
      (j k : K) (m : OrdMap K V)
      → IsSorted m
      → find j (erase k m) ≡ (if same j k then none else find j m)
  unfolding find erase
  find-erase j k [] s = ground arith
  find-erase j k ((i, w) ∷ m) s = ground (
    arith,
    find-erase j k m,
    o.cmp_iff j k,
    o.cmp_iff k i,
    o.cmp_iff j i,
    o.cmp_swap j i,
    o.cmp_swap k i,
    o.cmp_swap j k,
    o.cmp_trans j i k,
    o.cmp_trans j k i,
    find-Below i m,
    find-Below j m,
    Below-trans j i m,
  )
