-- ===== src/Lockseq/Groups/Passes.antt =====
-- A round of `check` on an entry of a legal group.
use traxos.Base.{
  ℕ, ◌+◌, ◌<◌, ◌≤◌, ◌≡◌, ◌≢◌, ◌⊎◌, inl, inr, refl, sym, ◌∙◌, Text, false, some, [], ◌∷◌, arith, ltb,
  Bool-cases, ◌==◌, ◌&&◌, text_ordered, text_eq, text_eq_iff,
}
use mathlib.Core.Path.{subst}
use traxos.OrdMap.{OrdMap, IsSorted}
use traxos.Pancy.Db.{Vv}
use traxos.Lockseq.{
  Scan, locked_start, locked_rest, is_empty, is_locked_start, check_entry, unsigned_max,
}
use traxos.Lockseq.Keys.{make_lock_key, make_value_key}
use traxos.Lockseq.Client.Served.{lock_key-ne}
use traxos.Lockseq.Groups.{slot, Slots, IsHolder, Legal, locked}
use traxos.Lockseq.Groups.Heads.{find-first, find-head}
use traxos.Lockseq.Groups.Order.{lock-Before-value}
use traxos.Lockseq.Groups.Rounds.{
  In, Plain, Holding, entered, Elsewhere, next-Plain, next-Holding, next_rest, entry_in,
  entry_first, entry_lock,
}
use traxos.Lockseq.Groups.Slots.{
  same-Slots, head-le, head-slot, head_least, rest-Slots, other-Slots,
}

-- The scan is in the group `g`, and the map has the rest of it.
pub data Going (g : ℕ) (m : OrdMap Text Vv) (st : Scan) : Type 0 where
  plain :
      (i n : ℕ) (y : Text)
      → In g i st
      → Plain y st
      → y ≢ []
      → Slots m g i (slot 0 [] 0 n y)
      → Going g m st
  holding :
      (i a b n : ℕ) (x y : Text)
      → In g i st
      → Holding x st
      → x ≢ []
      → i ≤ a
      → a ≤ b
      → y ≢ []
      → Slots m g i (slot a x b n y)
      → Going g m st

-- The round on an entry, and the state behind it.
abbrev pub Passes : ℕ → Text → Vv → OrdMap Text Vv → Scan → Type 0
Passes g key v m st = (st' : Scan) × (check_entry key v.value st ≡ some st') × Going g m st'

pub full-is_empty : (y : Text) → y ≢ [] → is_empty y ≡ false
unfolding is_empty
full-is_empty [] ne = absurd (ne refl)
full-is_empty (c ∷ cs) ne = refl

full_holder : (x : Text) → IsHolder x → x ≢ []
full_holder x h e = let size = h.1 in absurd (ground arith)

module _ (g k : ℕ) (v : Vv) (m : OrdMap Text Vv) (st : Scan) (small : k < 1000)
    (sorted : IsSorted ((make_value_key g k, v) ∷ m)) where
  pub Plain-round :
      (i n : ℕ) (y : Text)
      → In g i st
      → Plain y st
      → y ≢ []
      → Slots ((make_value_key g k, v) ∷ m) g i (slot 0 [] 0 n y)
      → Passes g (make_value_key g k) v m st
  unfolding is_locked_start
  Plain-round i n y here mood full slots =
      let f = slot 0 [] 0 n y in
      let le = head-le g i k v m f small sorted slots in
      let now = head-slot g i k v m f small sorted slots in
      let least = head_least g i k v m f small sorted slots in
      let value : v.value ≡ y = ground arith in
      let index : i ≡ k = elim (Bool-cases (ltb i k)) [
        | inl lt ↦ let gone = least i (omega arith) (ground arith) in absurd (ground arith)
        | inr ge ↦ ground arith
      ] in
      let mood' : Plain v.value st = subst (λ z. Plain z st) (sym value) mood in
      (
        record st { expected_value = v.value; expected_index = k + 1 },
        entry_in g k v.value st _ small
            (subst (λ z. is_empty z ≡ false) (sym value) (full-is_empty y full)) here.group_of
            here.glen (next-Plain k v.value st small (here.index ∙ index) mood'),
        plain (k + 1) n y (record { group_of = here.group_of; glen = here.glen; index = refl })
            (mood.0, inr value) full (rest-Slots g i k v m f small sorted slots),
      )

  pub Holding-round :
      (i a b n : ℕ) (x y : Text)
      → In g i st
      → Holding x st
      → x ≢ []
      → i ≤ a
      → a ≤ b
      → y ≢ []
      → Slots ((make_value_key g k, v) ∷ m) g i (slot a x b n y)
      → Passes g (make_value_key g k) v m st
  unfolding is_locked_start
  Holding-round i a b n x y here mood own ia ab full slots =
      let f = slot a x b n y in
      let le = head-le g i k v m f small sorted slots in
      let now = head-slot g i k v m f small sorted slots in
      let least = head_least g i k v m f small sorted slots in
      let rest = rest-Slots g i k v m f small sorted slots in
      elim (Bool-cases (ltb k a)) [
        | inl early ↦
            let value : v.value ≡ x = ground arith in
            let index : i ≡ k = elim (Bool-cases (ltb i k)) [
              | inl lt ↦ let gone = least i (omega arith) (ground arith) in absurd (ground arith)
              | inr ge ↦ ground arith
            ] in
            (
              record st { expected_value = v.value; expected_index = k + 1 },
              entry_in g k v.value st _ small
                  (subst (λ z. is_empty z ≡ false) (sym value) (full-is_empty x own)) here.group_of
                  here.glen
                  (next-Holding k v.value st small (here.index ∙ index)
                    (mood.0, mood.1 ∙ sym value)),
              holding (k + 1) a b n x y
                  (record { group_of = here.group_of; glen = here.glen; index = refl })
                  (mood.0, value) own (ground arith) ab full rest,
            )
        | inr late ↦ elim (Bool-cases (text_eq v.value x && k == i)) [
          | inl same ↦
              let value : v.value ≡ x = (text_eq_iff v.value x).0 (ground (arith, same)) in
              let index : i ≡ k = ground (arith, same) in
              let last : v.value ≡ y = ground arith in
              let eq : y ≡ x = sym last ∙ value in
              (
                record st { expected_value = v.value; expected_index = k + 1 },
                entry_in g k v.value st _ small
                    (subst (λ z. is_empty z ≡ false) (sym value) (full-is_empty x own))
                    here.group_of here.glen
                    (next-Holding k v.value st small (here.index ∙ index)
                      (mood.0, mood.1 ∙ sym value)),
                holding (k + 1) n n n x y
                    (record { group_of = here.group_of; glen = here.glen; index = refl })
                    (mood.0, value) own (ground arith) (ground arith) full
                    (same-Slots m g (k + 1) f (slot n x n n y) (λ j lt. ground arith) rest),
              )
          | inr other ↦
              let value : v.value ≡ y = ground arith in
              let new : (i < k) ⊎ (v.value ≢ x) = elim (Bool-cases (k == i)) [
                | inl eq ↦
                    inr (λ e.
                      let t = (text_eq_iff v.value x).1 e in absurd (ground (arith, other, eq)))
                | inr ne ↦ inl (ground arith)
              ] in
              (
                record st {
                  lock_state = locked_rest;
                  expected_value = v.value;
                  expected_index = k + 1;
                },
                entry_in g k v.value st _ small
                    (subst (λ z. is_empty z ≡ false) (sym value) (full-is_empty y full))
                    here.group_of here.glen
                    (next_rest i k x v.value st small le here.index mood new (full-is_empty x own)),
                plain (k + 1) n y
                    (record { group_of = here.group_of; glen = here.glen; index = refl })
                    (refl, inr value) full
                    (same-Slots m g (k + 1) f (slot 0 [] 0 n y) (λ j lt. ground arith) rest),
              )
        ]
      ]

module _ (g : ℕ) (v : Vv) (m : OrdMap Text Vv) (st : Scan) (valid : g < unsigned_max)
    (out : Elsewhere g st) where
  pub enter_lock :
      IsSorted ((make_lock_key g, v) ∷ m)
      → Legal ((make_lock_key g, v) ∷ m) g
      → Passes g (make_lock_key g) v m st
  enter_lock sorted (Legal.unlocked n y gone full slots) =
      let here = find-head (make_lock_key g) v m in absurd (ground arith)
  enter_lock sorted (locked w a b n y found holder le full slots) =
      let here = find-head (make_lock_key g) v m in
      let value : v.value ≡ w.value = ground arith in
      (
        record (entered st g) {
          last_lock = v.value;
          expected_value = v.value;
          lock_state = locked_start;
        },
        entry_lock g v.value st valid (subst (λ z. IsHolder z) (sym value) holder) out,
        holding 0 a b n w.value y (record { group_of = refl; glen = refl; index = refl })
            (refl, value) (full_holder w.value holder) (omega arith) le full
            (other-Slots g 0 (make_lock_key g) v m (slot a w.value b n y) sorted
              (λ k e. lock_key-ne g k (sym e)) slots),
      )

  pub enter_value :
      (k : ℕ)
      → k < 1000
      → IsSorted ((make_value_key g k, v) ∷ m)
      → Legal ((make_value_key g k, v) ∷ m) g
      → Passes g (make_value_key g k) v m st
  unfolding is_locked_start
  enter_value k small sorted (locked w a b n y found holder le full slots) =
      let gone = find-first (make_lock_key g) (make_value_key g k) v m (lock-Before-value g k) in
      absurd (ground arith)
  enter_value k small sorted (Legal.unlocked n y gone full slots) =
      let f = slot 0 [] 0 n y in
      let now = head-slot g 0 k v m f small sorted slots in
      let least = head_least g 0 k v m f small sorted slots in
      let value : v.value ≡ y = ground arith in
      let first : 0 ≡ k = elim (Bool-cases (ltb 0 k)) [
        | inl lt ↦ let gone = least 0 (omega arith) (ground arith) in absurd (ground arith)
        | inr ge ↦ ground arith
      ] in
      let full' = subst (λ z. is_empty z ≡ false) (sym value) (full-is_empty y full) in
      let st' = record (entered st g) { expected_value = v.value; expected_index = 1 } in
      (
        st',
        subst (λ k. check_entry (make_value_key g k) v.value st ≡ some st') first
            (entry_first g v.value st valid full' out),
        plain 1 n y (record { group_of = refl; glen = refl; index = refl }) (refl, inr value) full
            (subst (λ k. Slots m g (k + 1) f) (sym first)
              (rest-Slots g 0 k v m f small sorted slots)),
      )
