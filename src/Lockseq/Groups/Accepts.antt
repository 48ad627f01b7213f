-- ===== src/Lockseq/Groups/Accepts.antt =====
-- `check` on databases of several groups.
use traxos.Base.{
  ℕ, ◌<◌, ◌≡◌, ◌≢◌, inl, inr, refl, sym, ap, ◌∙◌, Text, none, some, [], ◌∷◌, ◌++◌, arith,
  Bool-cases, ◌==◌, text_ordered, text_cmp, Ordering,
}
use mathlib.Core.Path.{subst}
use traxos.Base.Bytes.{codes}
use traxos.OrdMap.{OrdMap, find, Below, IsSorted}
use traxos.OrdMap.Laws.{find-Below}
use traxos.Pancy.Db.{Vv, PancyDb}
use traxos.Lockseq.{Scan, start, check_entry, check_loop, check, unsigned_max}
use traxos.Lockseq.Keys.{make_lock_key, make_value_key, padded}
use traxos.Lockseq.Held.{group, value_key-group}
use traxos.Lockseq.Held.{lock_key-group}
use traxos.Lockseq.Client.Served.{lock_key-ne}
use traxos.Lockseq.Groups.{Legal, IsKey, lock_key, value_key, AllKeys}
use traxos.Lockseq.Groups.Heads.{find-first, find-head, find-rest}
use traxos.Lockseq.Groups.Order.{Before, cmp_groups, group_unique, lock-Before-value}
use traxos.Lockseq.Groups.Rounds.{Elsewhere}
use traxos.Lockseq.Groups.Slots.{other-Legal, empty-Legal}
use traxos.Lockseq.Groups.Passes.{
  Going, plain, holding, Passes, Plain-round, Holding-round, enter_lock, enter_value,
}

-- The scan is in the group `g`, and `m` is what comes behind its last key.
record Inside (g : ℕ) (m : OrdMap Text Vv) (st : Scan) : Type 0 where
  going : Going g m st
  no_lock : find (make_lock_key g) m ≡ none
  last : Text
  above : Below (group g ++ last) m
  others : (h : ℕ) → h ≢ g → Legal m h

Enters : Text → Vv → OrdMap Text Vv → Scan → Type 0
Enters key v m st =
    (g : ℕ) × (st' : Scan) × (check_entry key v.value st ≡ some st') × Inside g m st'

pub foreign_lock : (g h : ℕ) (key t : Text) → key ≡ group g ++ t → h ≢ g → make_lock_key h ≢ key
foreign_lock g h key t e ne eq =
    ne (group_unique h g (codes "lock") t (sym (lock_key-group h) ∙ (eq ∙ e)))

pub foreign_value :
    (g h : ℕ) (key t : Text) → key ≡ group g ++ t → h ≢ g → (k : ℕ) → make_value_key h k ≢ key
foreign_value g h key t e ne k eq =
    ne (group_unique h g (118 ∷ padded k) t (sym (value_key-group h k) ∙ (eq ∙ e)))

other_groups :
    (g : ℕ) (key t : Text) (v : Vv) (m : OrdMap Text Vv)
    → key ≡ group g ++ t
    → IsSorted ((key, v) ∷ m)
    → ((h : ℕ) → h ≢ g → Legal ((key, v) ∷ m) h)
    → (h : ℕ) → h ≢ g
    → Legal m h
other_groups g key t v m e sorted legal h ne =
    other-Legal h key v m sorted (foreign_lock g h key t e ne) (foreign_value g h key t e ne)
      (legal h ne)

-- The first entry is of a group that the scan enters.
module _ (g : ℕ) (v : Vv) (m : OrdMap Text Vv) (st : Scan) (valid : g < unsigned_max) where
  enters_lock :
      IsSorted ((make_lock_key g, v) ∷ m)
      → ((h : ℕ) → Legal ((make_lock_key g, v) ∷ m) h)
      → Elsewhere g st
      → Enters (make_lock_key g) v m st
  unfolding Enters
  enters_lock sorted legal out =
      let round = enter_lock g v m st valid out sorted (legal g) in
      (
        g,
        round.0,
        round.1,
        record {
          going = round.2;
          no_lock = find-Below (make_lock_key g) m sorted.0;
          last = codes "lock";
          above = subst (λ k. Below k m) (lock_key-group g) sorted.0;
          others =
              other_groups g (make_lock_key g) (codes "lock") v m (lock_key-group g) sorted
                (λ h ne. legal h);
        },
      )

  -- The state behind a value of the group.
  behind_value :
      (k : ℕ) (st' : Scan)
      → IsSorted ((make_value_key g k, v) ∷ m)
      → find (make_lock_key g) ((make_value_key g k, v) ∷ m) ≡ none
      → ((h : ℕ) → h ≢ g → Legal ((make_value_key g k, v) ∷ m) h)
      → Going g m st'
      → Inside g m st'
  behind_value k st' sorted gone legal going = record {
    going = going;
    no_lock = find-rest (make_lock_key g) (make_value_key g k) v m sorted (lock_key-ne g k) ∙ gone;
    last = 118 ∷ padded k;
    above = subst (λ k. Below k m) (value_key-group g k) sorted.0;
    others =
        other_groups g (make_value_key g k) (118 ∷ padded k) v m (value_key-group g k) sorted legal;
  }

  enters_value :
      (k : ℕ)
      → k < 1000
      → IsSorted ((make_value_key g k, v) ∷ m)
      → ((h : ℕ) → Legal ((make_value_key g k, v) ∷ m) h)
      → Elsewhere g st
      → Enters (make_value_key g k) v m st
  unfolding Enters
  enters_value k small sorted legal out =
      let round = enter_value g v m st valid out k small sorted (legal g) in
      let gone = find-first (make_lock_key g) (make_value_key g k) v m (lock-Before-value g k) in
      (g, round.0, round.1, behind_value k round.0 sorted gone (λ h ne. legal h) round.2)

  stays :
      (k : ℕ)
      → k < 1000
      → IsSorted ((make_value_key g k, v) ∷ m)
      → Inside g ((make_value_key g k, v) ∷ m) st
      → Enters (make_value_key g k) v m st
  unfolding Enters
  stays k small sorted inside =
      let round : Passes g (make_value_key g k) v m st = elim inside.going [
        | plain i n y here mood full slots ↦
            Plain-round g k v m st small sorted i n y here mood full slots
        | holding i a b n x y here mood own ia ab full slots ↦
            Holding-round g k v m st small sorted i a b n x y here mood own ia ab full slots
      ] in
      (g, round.0, round.1, behind_value k round.0 sorted inside.no_lock inside.others round.2)

enters :
    (key : Text) (v : Vv) (m : OrdMap Text Vv) (st : Scan)
    → IsKey key
    → IsSorted ((key, v) ∷ m)
    → ((h : ℕ) → Legal ((key, v) ∷ m) h)
    → ((h : ℕ) (t : Text) → key ≡ group h ++ t → Elsewhere h st)
    → Enters key v m st
enters key v m st (lock_key g valid e) =
    subst
      (λ key.
        IsSorted ((key, v) ∷ m)
        → ((h : ℕ) → Legal ((key, v) ∷ m) h)
        → ((h : ℕ) (t : Text) → key ≡ group h ++ t → Elsewhere h st)
        → Enters key v m st)
      (sym e)
      (λ sorted legal out.
        enters_lock g v m st valid sorted legal (out g (codes "lock") (lock_key-group g)))
enters key v m st (value_key g k valid small e) =
    subst
      (λ key.
        IsSorted ((key, v) ∷ m)
        → ((h : ℕ) → Legal ((key, v) ∷ m) h)
        → ((h : ℕ) (t : Text) → key ≡ group h ++ t → Elsewhere h st)
        → Enters key v m st)
      (sym e)
      (λ sorted legal out.
        enters_value g v m st valid k small sorted legal
          (out g (118 ∷ padded k) (value_key-group g k)))

module _ (g : ℕ) (key : Text) (v : Vv) (m : OrdMap Text Vv) (st : Scan)
    (inside : Inside g ((key, v) ∷ m) st) where
  value_passed :
      (h : ℕ) (u : Text) → key ≡ group h ++ u → h ≢ g → (k : ℕ) → Before (make_value_key g k) key
  value_passed h u e ne k =
      let same = cmp_groups g h (118 ∷ padded k) u inside.last u (λ q. ne (sym q)) in
      let above : text_cmp (group g ++ inside.last) key ≡ Ordering.lt = inside.above.0 in
      ap (λ x. text_cmp x key) (value_key-group g k)
      ∙ (ap (text_cmp (group g ++ 118 ∷ padded k)) e
          ∙ (same ∙ (ap (text_cmp (group g ++ inside.last)) (sym e) ∙ above)))

  -- The scan leaves the group.
  leaves :
      (h : ℕ) (u : Text)
      → key ≡ group h ++ u
      → h ≢ g
      → IsKey key
      → IsSorted ((key, v) ∷ m)
      → Enters key v m st
  leaves h u e ne is sorted =
      let legal : (j : ℕ) → Legal ((key, v) ∷ m) j = λ j. elim (Bool-cases (j == g)) [
        | inl here ↦
            let eq : g ≡ j = ground arith in
            subst (λ j. Legal ((key, v) ∷ m) j) eq
              (empty-Legal g ((key, v) ∷ m) inside.no_lock
                (λ k. find-first (make_value_key g k) key v m (value_passed h u e ne k)))
        | inr there ↦ inside.others j (ground (arith, there))
      ] in
      let last_group : st.last_group ≡ group g = elim inside.going [
        | plain i n y here mood full slots ↦ here.group_of
        | holding i a b n x y here mood own ia ab full slots ↦ here.group_of
      ] in
      enters key v m st is sorted legal
        (λ j t q. inr (g, last_group, λ r. ne (group_unique h j u t (sym e ∙ q) ∙ sym r)))

  step : IsKey key → IsSorted ((key, v) ∷ m) → Enters key v m st
  step (lock_key h valid e) sorted = elim (Bool-cases (h == g)) [
    | inl here ↦
        let eq : h ≡ g = ground arith in
        let gone =
          subst (λ key. find (make_lock_key g) ((key, v) ∷ m) ≡ none) (e ∙ ap make_lock_key eq)
            inside.no_lock in
        let found = find-head (make_lock_key g) v m in absurd (ground arith)
    | inr there ↦
        leaves h (codes "lock") (e ∙ lock_key-group h) (ground (arith, there)) (lock_key h valid e)
          sorted
  ]
  step (value_key h k valid small e) sorted = elim (Bool-cases (h == g)) [
    | inl here ↦
        let eq : h ≡ g = ground arith in
        let same = e ∙ ap (λ h. make_value_key h k) eq in
        subst (λ key. IsSorted ((key, v) ∷ m) → Inside g ((key, v) ∷ m) st → Enters key v m st)
          (sym same) (stays g v m st (subst (λ h. h < unsigned_max) eq valid) k small) sorted inside
    | inr there ↦
        leaves h (118 ∷ padded k) (e ∙ value_key-group h k) (ground (arith, there))
          (value_key h k valid small e) sorted
  ]

loop :
    (m : OrdMap Text Vv) (g : ℕ) (st : Scan)
    → Inside g m st
    → AllKeys m
    → IsSorted m
    → check_loop m st ≡ none
unfolding check_loop Enters
loop [] g st inside keys sorted = refl
loop ((key, v) ∷ m) g st inside keys sorted =
    let round = step g key v m st inside keys.0 sorted in
    let next = loop m round.0 round.1 round.3 keys.1 sorted.1 in ground (arith, round.2, next)

begin :
    (m : OrdMap Text Vv)
    → IsSorted m
    → AllKeys m
    → ((g : ℕ) → Legal m g)
    → check_loop m start ≡ none
unfolding check_loop Enters
begin [] sorted keys legal = refl
begin ((key, v) ∷ m) sorted keys legal =
    let round = enters key v m start keys.0 sorted legal (λ h t e. inl refl) in
    let next = loop m round.0 round.1 round.3 keys.1 sorted.1 in ground (arith, round.2, next)

-- Take a database whose keys are in order and are keys of clients: locks of groups, and values of
-- groups with an index below a thousand. Let each group be one of two: it is not locked, and has
-- some first values with no gap, all the same text and not empty; or its lock is held, with a text
-- of at least four characters from `c` on, the first values of the group are this text, then there
-- may be a gap, and then come other values up to some index, all the same text and not empty. Then
-- `check` accepts the database.
pub check-Legal :
    (db : PancyDb) → IsSorted db.db → AllKeys db.db → ((g : ℕ) → Legal db.db g) → check db ≡ none
unfolding check
check-Legal db sorted keys legal = begin db.db sorted keys legal
