-- ===== src/Lockseq/Groups/Fronts.antt =====
-- A value in front of the rest of its group, where `check` goes on behind it.
use traxos.Base.{
  ℕ, ◌+◌, ◌<◌, ◌≤◌, ◌≡◌, ◌≢◌, ◌⊎◌, inl, inr, refl, sym, ◌∙◌, Text, none, some, [], ◌∷◌, ◌++◌, arith,
  ltb, if◌then◌else◌, Option-cases, text_ordered, All,
}
use traxos.OrdMap.{OrdMap, find, Below, IsSorted}
use traxos.Pancy.Db.{Vv}
use traxos.Lockseq.{Scan, check_entry, check_loop}
use traxos.Lockseq.Keys.{make_lock_key, make_value_key}
use traxos.Lockseq.Held.{group}
use traxos.Lockseq.Groups.{slot, Slots, Legal, locked}
use traxos.Lockseq.Groups.Heads.{find-rest}
use traxos.Lockseq.Groups.Rounds.{In}
use traxos.Lockseq.Groups.Tails.{Mode, PlainTail, HoldTail, Tail, cons-Slots, cons_other-Slots}
use traxos.Lockseq.Groups.Accepts.{foreign_lock, foreign_value}

abbrev pub Filled : OrdMap Text Vv → Type 0
Filled m = All (λ e. e.1.value ≢ []) m

-- What `check` tells of the rest of a database, behind a key of the group `g`.
abbrev pub Tells : OrdMap Text Vv → Type 0
Tells m =
    (g i : ℕ) (st : Scan) (mode : Mode st) (last : Text)
    → In g i st
    → Below (group g ++ last) m
    → find (make_lock_key g) m ≡ none
    → check_loop m st ≡ none
    → Tail m g i st mode × ((h : ℕ) → h ≢ g → Legal m h)

pub passed :
    (key : Text) (v : Vv) (m : OrdMap Text Vv) (st : Scan)
    → check_loop ((key, v) ∷ m) st ≡ none
    → (st' : Scan) × (check_entry key v.value st ≡ some st') × (check_loop m st' ≡ none)
unfolding check_loop
passed key v m st h = elim (Option-cases (check_entry key v.value st)) [
  | inl failed ↦ absurd (ground arith)
  | inr (st', went) ↦ (st', went, ground arith)
]

pub others_before :
    (g : ℕ) (key t : Text) (v : Vv) (m : OrdMap Text Vv)
    → key ≡ group g ++ t
    → IsSorted ((key, v) ∷ m)
    → ((h : ℕ) → h ≢ g → Legal m h)
    → (h : ℕ) → h ≢ g
    → Legal ((key, v) ∷ m) h
others_before g key t v m e sorted legal h ne = elim (legal h ne) [
  | Legal.unlocked n y gone full slots ↦
      Legal.unlocked n y
        (sym (find-rest (make_lock_key h) key v m sorted (foreign_lock g h key t e ne)) ∙ gone) full
        (cons_other-Slots h 0 key v m (slot 0 [] 0 n y) sorted (foreign_value g h key t e ne) slots)
  | locked w a b n y found holder le full slots ↦
      locked w a b n y
        (sym (find-rest (make_lock_key h) key v m sorted (foreign_lock g h key t e ne)) ∙ found)
        holder le full
        (cons_other-Slots h 0 key v m (slot a w.value b n y) sorted (foreign_value g h key t e ne)
          slots)
]

module _ (g k : ℕ) (v : Vv) (m : OrdMap Text Vv) (small : k < 1000) (full : v.value ≢ [])
    (sorted : IsSorted ((make_value_key g k, v) ∷ m)) where
  -- From the rest of the group on, where no change is allowed any more.
  pub plain-Slots :
      (i : ℕ) (p : PlainTail m g (k + 1) v.value)
      → k ≡ i
      → (n : ℕ) × Slots ((make_value_key g k, v) ∷ m) g i (slot 0 [] 0 n p.y)
  plain-Slots i p here =
      let same : v.value ≡ p.y = elim p.same [ inl e ↦ absurd (full e) | inr e ↦ e ] in
      let n = if ltb k p.n then p.n else k + 1 in
      (
        n,
        cons-Slots g i k v m (slot 0 [] 0 n p.y) (slot 0 [] 0 p.n p.y) small (omega arith) sorted
            (ground arith) (λ j low high. absurd (omega arith)) (λ j lt. ground arith) p.slots,
      )

  pub plain_before :
      (i : ℕ) (e : Text)
      → k ≡ i
      → (e ≡ []) ⊎ (e ≡ v.value)
      → PlainTail m g (k + 1) v.value
      → PlainTail ((make_value_key g k, v) ∷ m) g i e
  plain_before i e here kept p =
      let same : v.value ≡ p.y = elim p.same [ inl e ↦ absurd (full e) | inr e ↦ e ] in
      let (n, slots) = plain-Slots i p here in
      record {
        n = n;
        y = p.y;
        full = p.full;
        same = elim kept [ inl q ↦ inl q | inr q ↦ inr (q ∙ same) ];
        slots = slots;
      }

  pub holding_before :
      (i : ℕ) (x : Text)
      → k ≡ i
      → v.value ≡ x
      → HoldTail m g (k + 1) x
      → HoldTail ((make_value_key g k, v) ∷ m) g i x
  holding_before i x here same p =
      let from = p.from in
      record {
        a = p.a;
        b = p.b;
        n = p.n;
        y = p.y;
        from = omega arith;
        gap = p.gap;
        full = p.full;
        slots =
            cons-Slots g i k v m (slot p.a x p.b p.n p.y) (slot p.a x p.b p.n p.y) small
              (omega arith) sorted (ground arith) (λ j low high. absurd (omega arith))
              (λ j lt. refl) p.slots;
      }

  pub changed_before :
      (i : ℕ) (x : Text)
      → i ≤ k
      → PlainTail m g (k + 1) v.value
      → HoldTail ((make_value_key g k, v) ∷ m) g i x
  changed_before i x le p =
      let same : v.value ≡ p.y = elim p.same [ inl e ↦ absurd (full e) | inr e ↦ e ] in
      let n = if ltb k p.n then p.n else k + 1 in
      record {
        a = i;
        b = k;
        n = n;
        y = p.y;
        from = omega arith;
        gap = le;
        full = p.full;
        slots =
            cons-Slots g i k v m (slot i x k n p.y) (slot 0 [] 0 p.n p.y) small le sorted
              (ground arith) (λ j low high. ground arith) (λ j lt. ground arith) p.slots;
      }
