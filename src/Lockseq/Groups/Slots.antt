-- ===== src/Lockseq/Groups/Slots.antt =====
-- The values of a group while `check` passes over them.
use traxos.Base.{
  ℕ, ◌+◌, ◌<◌, ◌≤◌, ◌≡◌, ◌≢◌, inl, inr, sym, ap, ◌∙◌, Text, Option, none, some, [], ◌∷◌, arith, ltb,
  if◌then◌else◌, Bool-cases, ◌==◌, text_ordered,
}
use mathlib.Core.Path.{subst}
use traxos.OrdMap.{OrdMap, find, IsSorted}
use traxos.OrdMap.Laws.{find-Below}
use traxos.Pancy.Db.{Vv}
use traxos.Lockseq.Keys.{make_lock_key, make_value_key}
use traxos.Lockseq.Groups.{value_of, value_at, slot, Slots, Legal, unlocked, locked}
use traxos.Lockseq.Groups.Heads.{find-first, find-head, find-rest}
use traxos.Lockseq.Groups.Order.{value-Before}
use traxos.Lockseq.Client.Served.{value_key-ne}

pub value_keys-ne :
    (g j k : ℕ) → j ≢ k → j < 1000 → k < 1000 → make_value_key g j ≢ make_value_key g k
value_keys-ne g j k ne small small' e = elim (Bool-cases (ltb j k)) [
  | inl lt ↦ value_key-ne g j k (ground arith) small' e
  | inr le ↦ value_key-ne g k j (ground arith) small (sym e)
]

-- The first entry is the value of index `k`.
module _ (g i k : ℕ) (v : Vv) (m : OrdMap Text Vv) (f : ℕ → Option Text) (small : k < 1000)
    (sorted : IsSorted ((make_value_key g k, v) ∷ m))
    (slots : Slots ((make_value_key g k, v) ∷ m) g i f) where
  head_value : (if ltb k i then none else f k) ≡ some v.value
  head_value = sym (slots k small) ∙ ap value_of (find-head (make_value_key g k) v m)

  pub head-le : i ≤ k
  head-le = let here = head_value in ground arith

  pub head-slot : f k ≡ some v.value
  head-slot = let here = head_value in ground arith

  pub head_least : (j : ℕ) → i ≤ j → j < k → f j ≡ none
  head_least j le lt =
      let gone =
        sym (slots j (omega arith))
        ∙ ap value_of (
            find-first (make_value_key g j) (make_value_key g k) v m
              (value-Before g j k lt small)) in
      ground arith

  pub rest-Slots : Slots m g (k + 1) f
  rest-Slots j lt = elim (Bool-cases (j == k)) [
    | inl here ↦
        let eq : k ≡ j = ground arith in
        let gone : value_at m g k ≡ none =
          ap value_of (find-Below (make_value_key g k) m sorted.0) in
        subst (λ j. value_at m g j ≡ (if ltb j (k + 1) then none else f j)) eq (gone ∙ ground arith)
    | inr other ↦
        let ne : make_value_key g j ≢ make_value_key g k =
          value_keys-ne g j k (ground arith) lt small in
        let same : value_at m g j ≡ (if ltb j i then none else f j) =
          ap value_of (find-rest (make_value_key g j) (make_value_key g k) v m sorted ne)
          ∙ slots j lt in
        let le = head-le in
        elim (Bool-cases (ltb j k)) [
          | inr behind ↦ ground arith
          | inl before ↦ elim (Bool-cases (ltb j i)) [
            | inl early ↦ ground arith
            | inr late ↦ let gone = head_least j (ground arith) (ground arith) in ground arith
          ]
        ]
  ]

-- A group that the first entry is not of.
pub other-Slots :
    (g i : ℕ) (key : Text) (v : Vv) (m : OrdMap Text Vv) (f : ℕ → Option Text)
    → IsSorted ((key, v) ∷ m)
    → ((k : ℕ) → make_value_key g k ≢ key)
    → Slots ((key, v) ∷ m) g i f
    → Slots m g i f
other-Slots g i key v m f sorted ne slots k lt =
    ap value_of (find-rest (make_value_key g k) key v m sorted (ne k)) ∙ slots k lt

pub other-Legal :
    (g : ℕ) (key : Text) (v : Vv) (m : OrdMap Text Vv)
    → IsSorted ((key, v) ∷ m)
    → make_lock_key g ≢ key
    → ((k : ℕ) → make_value_key g k ≢ key)
    → Legal ((key, v) ∷ m) g
    → Legal m g
other-Legal g key v m sorted no_lock no_value (unlocked n y gone full slots) =
    unlocked n y (find-rest (make_lock_key g) key v m sorted no_lock ∙ gone) full
      (other-Slots g 0 key v m (slot 0 [] 0 n y) sorted no_value slots)
other-Legal g key v m sorted no_lock no_value (locked w a b n y found holder le full slots) =
    locked w a b n y (find-rest (make_lock_key g) key v m sorted no_lock ∙ found) holder le full
      (other-Slots g 0 key v m (slot a w.value b n y) sorted no_value slots)

-- A group of which nothing is left.
pub empty-Legal :
    (g : ℕ) (m : OrdMap Text Vv)
    → find (make_lock_key g) m ≡ none
    → ((k : ℕ) → find (make_value_key g k) m ≡ none)
    → Legal m g
empty-Legal g m gone none_left =
    unlocked 0 (99 ∷ []) gone (λ e. cc) (λ k lt. ap value_of (none_left k) ∙ ground arith)

-- Two sequences that agree where the group has not been read.
pub same-Slots :
    (m : OrdMap Text Vv) (g i : ℕ) (f h : ℕ → Option Text)
    → ((j : ℕ) → i ≤ j → f j ≡ h j)
    → Slots m g i f
    → Slots m g i h
same-Slots m g i f h same slots j lt = elim (Bool-cases (ltb j i)) [
  | inl early ↦ slots j lt ∙ ground arith
  | inr late ↦ slots j lt ∙ ground (arith, same j (ground arith))
]
