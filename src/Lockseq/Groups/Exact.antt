-- ===== src/Lockseq/Groups/Exact.antt =====
-- The databases of clients' keys that `check` accepts.
use traxos.Base.{
  ℕ, ◌<◌, ◌≡◌, ◌≢◌, inl, inr, refl, sym, ap, ◌∙◌, Text, none, [], ◌∷◌, ◌++◌, arith, Bool-cases,
  ◌==◌, text_ordered, text_cmp,
}
use mathlib.Core.Path.{subst}
use traxos.Base.Bytes.{codes}
use traxos.OrdMap.{OrdMap, find, Below, IsSorted}
use traxos.Pancy.Db.{Vv, PancyDb}
use traxos.Lockseq.{Scan, start, check_loop, check, unsigned_max}
use traxos.Lockseq.Keys.{make_lock_key, make_value_key, padded}
use traxos.Lockseq.Held.{group, value_key-group, lock_key-group}
use traxos.Lockseq.Groups.{Legal, IsKey, lock_key, value_key, AllKeys}
use traxos.Lockseq.Groups.Heads.{find-first, find-head}
use traxos.Lockseq.Groups.Order.{Before, cmp_groups, group_unique}
use traxos.Lockseq.Groups.Rounds.{In, Elsewhere}
use traxos.Lockseq.Groups.Slots.{empty-Legal}
use traxos.Lockseq.Groups.Tails.{Mode, Tail, gone-Tail}
use traxos.Lockseq.Groups.Accepts.{check-Legal}
use traxos.Lockseq.Groups.Fronts.{Filled, Tells}
use traxos.Lockseq.Groups.Told.{stays_told, lock_told, value_told}

first_told :
    (key : Text) (v : Vv) (m : OrdMap Text Vv) (st : Scan)
    → IsKey key
    → IsSorted ((key, v) ∷ m)
    → v.value ≢ []
    → Tells m
    → ((g : ℕ) (t : Text) → key ≡ group g ++ t → Elsewhere g st)
    → check_loop ((key, v) ∷ m) st ≡ none
    → (h : ℕ) → Legal ((key, v) ∷ m) h
first_told key v m st (lock_key g valid e) sorted full ih out =
    subst
      (λ key.
        IsSorted ((key, v) ∷ m)
        → check_loop ((key, v) ∷ m) st ≡ none
        → (h : ℕ) → Legal ((key, v) ∷ m) h)
      (sym e)
      (λ sorted.
        lock_told g v m valid full ih st sorted (out g (codes "lock") (e ∙ lock_key-group g)))
      sorted
first_told key v m st (value_key g k valid small e) sorted full ih out =
    subst
      (λ key.
        IsSorted ((key, v) ∷ m)
        → check_loop ((key, v) ∷ m) st ≡ none
        → (h : ℕ) → Legal ((key, v) ∷ m) h)
      (sym e)
      (λ sorted.
        value_told g v m valid full ih k st small sorted
          (out g (118 ∷ padded k) (e ∙ value_key-group g k)))
      sorted

-- Behind a key of the group `g` comes one of another group.
other_told :
    (g i h : ℕ) (last u key : Text) (v : Vv) (m : OrdMap Text Vv) (st : Scan) (mode : Mode st)
    → key ≡ group h ++ u
    → h ≢ g
    → IsKey key
    → IsSorted ((key, v) ∷ m)
    → v.value ≢ []
    → Tells m
    → In g i st
    → Below (group g ++ last) ((key, v) ∷ m)
    → check_loop ((key, v) ∷ m) st ≡ none
    → Tail ((key, v) ∷ m) g i st mode × ((j : ℕ) → j ≢ g → Legal ((key, v) ∷ m) j)
other_told g i h last u key v m st mode e ne is sorted full ih here above passes =
    let before : (k : ℕ) → Before (make_value_key g k) key = λ k.
      ap (λ x. text_cmp x key) (value_key-group g k)
      ∙ (ap (text_cmp (group g ++ 118 ∷ padded k)) e
          ∙ (cmp_groups g h (118 ∷ padded k) u last u (λ q. ne (sym q))
              ∙ (ap (text_cmp (group g ++ last)) (sym e) ∙ above.0))) in
    (
      gone-Tail ((key, v) ∷ m) g i st mode
          (λ k. find-first (make_value_key g k) key v m (before k)),
      λ j other.
          first_told key v m st is sorted full ih
            (λ f t q. inr (g, here.group_of, λ r. ne (group_unique h f u t (sym e ∙ q) ∙ sym r)))
            passes j,
    )

rest_told :
    (key : Text) (v : Vv) (m : OrdMap Text Vv)
    → IsKey key
    → IsSorted ((key, v) ∷ m)
    → v.value ≢ []
    → Tells m
    → Tells ((key, v) ∷ m)
rest_told key v m (lock_key h valid e) sorted full ih g i st mode last here above gone passes =
    elim (Bool-cases (h == g)) [
      | inl same ↦
          let eq : h ≡ g = ground arith in
          let no_lock =
            subst (λ key. find (make_lock_key g) ((key, v) ∷ m) ≡ none) (e ∙ ap make_lock_key eq)
              gone in
          let found = find-head (make_lock_key g) v m in absurd (ground arith)
      | inr other ↦
          other_told g i h last (codes "lock") key v m st mode (e ∙ lock_key-group h)
            (ground (arith, other)) (lock_key h valid e) sorted full ih here above passes
    ]
rest_told key v m (value_key h k valid small e) sorted full ih g i st mode last here above gone
      passes =
    elim (Bool-cases (h == g)) [
      | inl same ↦
          let eq : h ≡ g = ground arith in
          let is : key ≡ make_value_key g k = e ∙ ap (λ h. make_value_key h k) eq in
          subst
            (λ key.
              IsSorted ((key, v) ∷ m)
              → find (make_lock_key g) ((key, v) ∷ m) ≡ none
              → check_loop ((key, v) ∷ m) st ≡ none
              → Tail ((key, v) ∷ m) g i st mode × ((j : ℕ) → j ≢ g → Legal ((key, v) ∷ m) j))
            (sym is)
            (λ sorted gone passes.
              stays_told g v m (subst (λ h. h < unsigned_max) eq valid) full ih i k st mode small
                sorted here gone passes)
            sorted gone passes
      | inr other ↦
          other_told g i h last (118 ∷ padded k) key v m st mode (e ∙ value_key-group h k)
            (ground (arith, other)) (value_key h k valid small e) sorted full ih here above passes
    ]

all_told : (m : OrdMap Text Vv) → IsSorted m → AllKeys m → Filled m → Tells m
unfolding find
all_told [] sorted keys filled = λ g i st mode last here above gone passes.
    (gone-Tail [] g i st mode (λ k. refl), λ h ne. empty-Legal h [] refl (λ k. refl))
all_told ((key, v) ∷ m) sorted keys filled =
    rest_told key v m keys.0 sorted filled.0 (all_told m sorted.1 keys.1 filled.1)

whole_told :
    (m : OrdMap Text Vv)
    → IsSorted m
    → AllKeys m
    → Filled m
    → check_loop m start ≡ none
    → (g : ℕ) → Legal m g
unfolding find
whole_told [] sorted keys filled passes g = empty-Legal g [] refl (λ k. refl)
whole_told ((key, v) ∷ m) sorted keys filled passes g =
    first_told key v m start keys.0 sorted filled.0 (all_told m sorted.1 keys.1 filled.1)
      (λ h t e. inl refl) passes g

-- Take a database whose keys are in order and are keys of clients, locks of groups and values of
-- groups with an index below a thousand, and whose values are not empty. Then `check` accepts it
-- exactly when each group is one of two. It is not locked, and has some first values with no gap,
-- all the same text. Or its lock is held, with a text of at least four characters from `c` on, the
-- first values of the group are this text, then there may be a gap, and then come other values up
-- to some index, all the same text.
pub check-Legal_iff :
    (db : PancyDb)
    → IsSorted db.db
    → AllKeys db.db
    → Filled db.db
    → (check db ≡ none → (g : ℕ) → Legal db.db g) × (((g : ℕ) → Legal db.db g) → check db ≡ none)
unfolding check
check-Legal_iff db sorted keys filled =
    (whole_told db.db sorted keys filled, check-Legal db sorted keys)
