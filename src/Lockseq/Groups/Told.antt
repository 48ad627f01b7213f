-- ===== src/Lockseq/Groups/Told.antt =====
-- One entry in front of what `check` tells of the rest.
use traxos.Base.{
  ℕ, ◌+◌, ◌<◌, ◌≡◌, ◌≢◌, inl, inr, refl, sym, ◌∙◌, Text, none, some, [], ◌∷◌, ◌++◌, arith,
  Bool-cases, ◌==◌, text_ordered,
}
use mathlib.Core.Path.{subst}
use traxos.Base.Bytes.{codes}
use traxos.OrdMap.{OrdMap, find, Below, IsSorted}
use traxos.OrdMap.Laws.{find-Below}
use traxos.Pancy.Db.{Vv}
use traxos.Lockseq.{Scan, locked_start, locked_rest, is_locked_start, check_loop, unsigned_max}
use traxos.Lockseq.Keys.{make_lock_key, make_value_key, padded}
use traxos.Lockseq.Held.{group, value_key-group, lock_key-group}
use traxos.Lockseq.Client.Served.{lock_key-ne}
use traxos.Lockseq.Client.Names.{value_key-ne-lock_key}
use traxos.Lockseq.Groups.{slot, Legal, locked}
use traxos.Lockseq.Groups.Heads.{find-first, find-head, find-rest}
use traxos.Lockseq.Groups.Order.{lock-Before-value}
use traxos.Lockseq.Groups.Rounds.{In, Elsewhere, entered, check_group-in, check_group-entered}
use traxos.Lockseq.Groups.Passes.{full-is_empty}
use traxos.Lockseq.Groups.Reads.{index_value, value_round, Plain-reads, Holding-reads, lock_round}
use traxos.Lockseq.Groups.Tails.{Mode, plain, holding, Tail, cons_other-Slots}
use traxos.Lockseq.Groups.Fronts.{
  Tells, passed, others_before, plain-Slots, plain_before, holding_before, changed_before,
}

module _ (g : ℕ) (v : Vv) (m : OrdMap Text Vv) (valid : g < unsigned_max) (full : v.value ≢ [])
    (ih : Tells m) where
  -- The next value of the group.
  pub stays_told :
      (i k : ℕ) (st : Scan) (mode : Mode st)
      → k < 1000
      → IsSorted ((make_value_key g k, v) ∷ m)
      → In g i st
      → find (make_lock_key g) ((make_value_key g k, v) ∷ m) ≡ none
      → check_loop ((make_value_key g k, v) ∷ m) st ≡ none
      → Tail ((make_value_key g k, v) ∷ m) g i st mode
        × ((h : ℕ) → h ≢ g → Legal ((make_value_key g k, v) ∷ m) h)
  unfolding is_locked_start
  stays_told i k st mode small sorted here gone h =
      let (st', went, rest) = passed (make_value_key g k) v m st h in
      let round =
        value_round g k v.value st st small (check_group-in g (118 ∷ padded k) st here.group_of)
          here.glen (full-is_empty v.value full) in
      let read : index_value k v.value st ≡ some st' = sym round ∙ went in
      let below : Below (group g ++ 118 ∷ padded k) m =
        subst (λ x. Below x m) (value_key-group g k) sorted.0 in
      let no_lock =
        find-rest (make_lock_key g) (make_value_key g k) v m sorted (lock_key-ne g k) ∙ gone in
      let others =
        others_before g (make_value_key g k) (118 ∷ padded k) v m (value_key-group g k) sorted in
      elim mode
        as (λ mode.
          Tail ((make_value_key g k, v) ∷ m) g i st mode
          × ((h : ℕ) → h ≢ g → Legal ((make_value_key g k, v) ∷ m) h)) [
            | plain fixed ↦
                let (at, kept, to) = Plain-reads i k v.value st st' small here.index fixed read in
                let st2 = record st { expected_value = v.value; expected_index = k + 1 } in
                let told =
                  ih g (k + 1) st2 (plain fixed) (118 ∷ padded k)
                    (record { group_of = here.group_of; glen = here.glen; index = refl }) below
                    no_lock (subst (λ s. check_loop m s ≡ none) to rest) in
                (
                  plain_before g k v m small full sorted i st.expected_value at kept told.0,
                  others told.1,
                )
            | holding x own nonempty ↦
                let (le, change) =
                  Holding-reads i k x v.value st st' small here.index own nonempty read in
                elim change [
                  | inl (at, same, to) ↦
                      let st2 = record st { expected_value = v.value; expected_index = k + 1 } in
                      let told =
                        ih g (k + 1) st2 (holding x (own.0, same) nonempty) (118 ∷ padded k)
                          (record { group_of = here.group_of; glen = here.glen; index = refl })
                          below no_lock (subst (λ s. check_loop m s ≡ none) to rest) in
                      (holding_before g k v m small full sorted i x at same told.0, others told.1)
                  | inr to ↦
                      let st2 = record st {
                        lock_state = locked_rest;
                        expected_value = v.value;
                        expected_index = k + 1;
                      } in
                      let told =
                        ih g (k + 1) st2 (plain refl) (118 ∷ padded k)
                          (record { group_of = here.group_of; glen = here.glen; index = refl })
                          below no_lock (subst (λ s. check_loop m s ≡ none) to rest) in
                      (changed_before g k v m small full sorted i x le told.0, others told.1)
                ]
          ]

  -- The first key of a group is its lock.
  pub lock_told :
      (st : Scan)
      → IsSorted ((make_lock_key g, v) ∷ m)
      → Elsewhere g st
      → check_loop ((make_lock_key g, v) ∷ m) st ≡ none
      → (h : ℕ) → Legal ((make_lock_key g, v) ∷ m) h
  unfolding is_locked_start
  lock_told st sorted out h j =
      let (st', went, rest) = passed (make_lock_key g) v m st h in
      let (holder, to) = lock_round g v.value st st' valid out full went in
      let st2 = record (entered st g) {
        last_lock = v.value;
        expected_value = v.value;
        lock_state = locked_start;
      } in
      let told =
        ih g 0 st2 (holding v.value (refl, refl) full) (codes "lock")
          (record { group_of = refl; glen = refl; index = refl })
          (subst (λ x. Below x m) (lock_key-group g) sorted.0)
          (find-Below (make_lock_key g) m sorted.0) (subst (λ s. check_loop m s ≡ none) to rest) in
      let p = told.0 in
      elim (Bool-cases (j == g)) [
        | inl here ↦
            let eq : g ≡ j = ground arith in
            subst (Legal ((make_lock_key g, v) ∷ m)) eq (
              locked v p.a p.b p.n p.y (find-head (make_lock_key g) v m) holder p.gap p.full (
                cons_other-Slots g 0 (make_lock_key g) v m (slot p.a v.value p.b p.n p.y) sorted
                  (λ k. value_key-ne-lock_key g k g) p.slots))
        | inr other ↦
            others_before g (make_lock_key g) (codes "lock") v m (lock_key-group g) sorted told.1 j
              (ground (arith, other))
      ]

  -- The first key of a group is a value.
  pub value_told :
      (k : ℕ) (st : Scan)
      → k < 1000
      → IsSorted ((make_value_key g k, v) ∷ m)
      → Elsewhere g st
      → check_loop ((make_value_key g k, v) ∷ m) st ≡ none
      → (h : ℕ) → Legal ((make_value_key g k, v) ∷ m) h
  unfolding is_locked_start
  value_told k st small sorted out h j =
      let (st', went, rest) = passed (make_value_key g k) v m st h in
      let mid = entered st g in
      let round =
        value_round g k v.value st mid small
          (check_group-entered g valid st (118 ∷ padded k) (omega arith) out) refl
          (full-is_empty v.value full) in
      let read : index_value k v.value mid ≡ some st' = sym round ∙ went in
      let (at, kept, to) = Plain-reads 0 k v.value mid st' small refl refl read in
      let st2 = record mid { expected_value = v.value; expected_index = k + 1 } in
      let first = find-first (make_lock_key g) (make_value_key g k) v m (lock-Before-value g k) in
      let told =
        ih g (k + 1) st2 (plain refl) (118 ∷ padded k)
          (record { group_of = refl; glen = refl; index = refl })
          (subst (λ x. Below x m) (value_key-group g k) sorted.0)
          (find-rest (make_lock_key g) (make_value_key g k) v m sorted (lock_key-ne g k) ∙ first)
          (subst (λ s. check_loop m s ≡ none) to rest) in
      let p = told.0 in
      elim (Bool-cases (j == g)) [
        | inl here ↦
            let eq : g ≡ j = ground arith in
            let (n, slots) = plain-Slots g k v m small full sorted 0 p at in
            subst (Legal ((make_value_key g k, v) ∷ m)) eq (Legal.unlocked n p.y first p.full slots)
        | inr other ↦
            others_before g (make_value_key g k) (118 ∷ padded k) v m (value_key-group g k) sorted
              told.1 j (ground (arith, other))
      ]
