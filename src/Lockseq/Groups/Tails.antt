-- ===== src/Lockseq/Groups/Tails.antt =====
-- Databases that `check` accepts: what is left of a group behind a scan.
use traxos.Base.{
  ℕ, ◌+◌, ◌<◌, ◌≤◌, ◌≡◌, ◌≢◌, ◌⊎◌, inl, inr, refl, sym, ap, ◌∙◌, Text, false, Option, none, some,
  [], ◌∷◌, arith, ltb, if◌then◌else◌, Bool-cases, ◌==◌, text_ordered,
}
use mathlib.Core.Path.{subst}
use traxos.OrdMap.{OrdMap, find, IsSorted}
use traxos.Pancy.Db.{Vv}
use traxos.Lockseq.{Scan, is_empty, is_locked_start}
use traxos.Lockseq.Keys.{make_value_key}
use traxos.Lockseq.Groups.{value_of, value_at, slot, Slots}
use traxos.Lockseq.Groups.Heads.{find-head, find-rest}
use traxos.Lockseq.Groups.Rounds.{Holding}
use traxos.Lockseq.Groups.Slots.{value_keys-ne}
use traxos.Lockseq.Groups.Reads.{is_empty-nil}

-- No change of the value or gap is allowed any more, or the values of the holder are read.
pub data Mode (st : Scan) : Type 0 where
  plain : is_locked_start st.lock_state ≡ false → Mode st
  holding : (x : Text) → Holding x st → x ≢ [] → Mode st

pub record PlainTail (m : OrdMap Text Vv) (g i : ℕ) (e : Text) : Type 0 where
  pub n : ℕ
  pub y : Text
  pub full : y ≢ []
  pub same : (e ≡ []) ⊎ (e ≡ y)
  pub slots : Slots m g i (slot 0 [] 0 n y)

pub record HoldTail (m : OrdMap Text Vv) (g i : ℕ) (x : Text) : Type 0 where
  pub a : ℕ
  pub b : ℕ
  pub n : ℕ
  pub y : Text
  pub from : i ≤ a
  pub gap : a ≤ b
  pub full : y ≢ []
  pub slots : Slots m g i (slot a x b n y)

abbrev pub Tail : OrdMap Text Vv → ℕ → ℕ → (st : Scan) → Mode st → Type 0
Tail m g i st (plain mode) = PlainTail m g i st.expected_value
Tail m g i st (holding x mode full) = HoldTail m g i x

full_text : (t : Text) → is_empty t ≡ false → t ≢ []
unfolding is_empty
full_text [] e = absurd cc
full_text (c ∷ cs) e = λ q. cc

-- Nothing of the group is left.
pub gone-Tail :
    (m : OrdMap Text Vv) (g i : ℕ) (st : Scan) (mode : Mode st)
    → ((k : ℕ) → find (make_value_key g k) m ≡ none)
    → Tail m g i st mode
gone-Tail m g i st (plain mode) gone = elim (Bool-cases (is_empty st.expected_value)) [
  | inl empty ↦ record {
    n = 0;
    y = 99 ∷ [];
    full = λ e. cc;
    same = inl (is_empty-nil st.expected_value empty);
    slots = λ k lt. ap value_of (gone k) ∙ ground arith;
  }
  | inr full ↦ record {
    n = 0;
    y = st.expected_value;
    full = full_text st.expected_value full;
    same = inr refl;
    slots = λ k lt. ap value_of (gone k) ∙ ground arith;
  }
]
gone-Tail m g i st (holding x mode full) gone = record {
  a = i;
  b = i;
  n = 0;
  y = 99 ∷ [];
  from = omega arith;
  gap = omega arith;
  full = λ e. cc;
  slots = λ k lt. ap value_of (gone k) ∙ ground arith;
}

-- A value in front of the rest of its group.
module _ (g i k : ℕ) (v : Vv) (m : OrdMap Text Vv) (f h : ℕ → Option Text) (small : k < 1000)
    (le : i ≤ k) (sorted : IsSorted ((make_value_key g k, v) ∷ m)) where
  pub cons-Slots :
      (f k ≡ some v.value)
      → ((j : ℕ) → i ≤ j → j < k → f j ≡ none)
      → ((j : ℕ) → k < j → f j ≡ h j)
      → Slots m g (k + 1) h
      → Slots ((make_value_key g k, v) ∷ m) g i f
  cons-Slots now before after slots j lt = elim (Bool-cases (j == k)) [
    | inl here ↦
        let eq : k ≡ j = ground arith in
        subst (λ j. value_at ((make_value_key g k, v) ∷ m) g j ≡ (if ltb j i then none else f j)) eq
          (ap value_of (find-head (make_value_key g k) v m) ∙ ground arith)
    | inr other ↦
        let ne : make_value_key g j ≢ make_value_key g k =
          value_keys-ne g j k (ground (arith, other)) lt small in
        let rest : value_at ((make_value_key g k, v) ∷ m) g j ≡ value_at m g j =
          ap value_of (sym (find-rest (make_value_key g j) (make_value_key g k) v m sorted ne)) in
        rest
        ∙ (slots j lt ∙ elim (Bool-cases (ltb j k)) [
          | inl early ↦ elim (Bool-cases (ltb j i)) [
            | inl first ↦ ground arith
            | inr late ↦ let gap = before j (ground arith) (ground arith) in ground arith
          ]
          | inr late ↦ let past = after j (ground arith) in ground arith
        ])
  ]

pub cons_other-Slots :
    (g i : ℕ) (key : Text) (v : Vv) (m : OrdMap Text Vv) (f : ℕ → Option Text)
    → IsSorted ((key, v) ∷ m)
    → ((k : ℕ) → make_value_key g k ≢ key)
    → Slots m g i f
    → Slots ((key, v) ∷ m) g i f
cons_other-Slots g i key v m f sorted ne slots k lt =
    ap value_of (sym (find-rest (make_value_key g k) key v m sorted (ne k))) ∙ slots k lt
