-- ===== src/Lockseq/Groups/Heads.antt =====
-- A sorted map without its first entry.
use traxos.Base.{
  ◌≡◌, ◌≢◌, inl, inr, refl, sym, ◌∙◌, Text, none, some, ◌∷◌, Ordering-cases, text_ordered,
  text_cmp_iff, text_cmp,
}
use traxos.OrdMap.{OrdMap, find, IsSorted}
use traxos.OrdMap.Laws.{find-Below, Below-trans}
use traxos.Lockseq.Groups.Order.{Before}

module _ {V : Type 0} where
  pub find-first :
      (j k : Text) (v : V) (m : OrdMap Text V) → Before j k → find j ((k, v) ∷ m) ≡ none
  unfolding find
  find-first j k v m b = rw (b, find) refl

  pub find-head : (k : Text) (v : V) (m : OrdMap Text V) → find k ((k, v) ∷ m) ≡ some v
  unfolding find
  find-head k v m = rw ((text_cmp_iff k k).1 refl, find) refl

  pub find-rest :
      (j k : Text) (v : V) (m : OrdMap Text V)
      → IsSorted ((k, v) ∷ m)
      → j ≢ k
      → find j m ≡ find j ((k, v) ∷ m)
  unfolding find
  find-rest j k v m s ne = elim (Ordering-cases (text_cmp j k)) [
    | inl lt ↦ find-Below j m (Below-trans j k m lt s.0) ∙ sym (find-first j k v m lt)
    | inr (inl eq) ↦ absurd (ne ((text_cmp_iff j k).0 eq))
    | inr (inr gt) ↦ rw (gt, find) refl
  ]
