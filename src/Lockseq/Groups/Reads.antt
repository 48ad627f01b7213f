-- ===== src/Lockseq/Groups/Reads.antt =====
-- What a round of `check` that goes on tells of its entry.
use traxos.Base.{
  ℕ, ◌+◌, ◌<◌, ◌≤◌, ◌≡◌, ◌≢◌, ◌⊎◌, inl, inr, refl, sym, ap, ◌∙◌, Text, true, false, Option, none,
  some, [], ◌∷◌, ◌++◌, arith, Bool-cases, ◌==◌, text_eq, text_eq_iff, length, text_ordered,
}
use traxos.Base.Bytes.{codes}
use traxos.Lockseq.{
  Scan, unlocked, locked_start, locked_rest, is_empty, is_locked_start, is_unlocked, check_group,
  check_lock, check_index, check_value, check_entry, unsigned_max,
}
use traxos.Lockseq.Keys.{make_lock_key, make_value_key, padded}
use traxos.Lockseq.Held.{group, value_key-group, lock_key-group}
use traxos.Lockseq.Groups.{IsHolder}
use traxos.Lockseq.Groups.Passes.{full-is_empty}
use traxos.Lockseq.Groups.Rounds.{
  Holding, Elsewhere, entered, check_group-entered, tail_not_lock, tail_entry, lock_is_lock,
}

-- "Check key" and "check value" of an index and a value.
abbrev pub index_value : ℕ → Text → Scan → Option Scan
index_value k y st = elim (check_index k st) [ none ↦ none | some s ↦ check_value y s ]

-- An entry of a value, where the scan is `mid` once its group is checked.
pub value_round :
    (g k : ℕ) (y : Text) (st mid : Scan)
    → k < 1000
    → check_group (group g ++ 118 ∷ padded k) st ≡ some mid
    → mid.glen ≡ length (group g)
    → is_empty y ≡ false
    → check_entry (make_value_key g k) y st ≡ index_value k y mid
unfolding check_entry
value_round g k y st mid small went glen full =
    let other = tail_not_lock (group g) k small mid glen in
    let tail = tail_entry (group g) k small mid glen y full in
    ap (λ key. check_entry key y st) (value_key-group g k) ∙ ground arith

pub is_empty-nil : (t : Text) → is_empty t ≡ true → t ≡ []
unfolding is_empty
is_empty-nil [] e = refl
is_empty-nil (c ∷ cs) e = absurd cc

-- The value goes on where no change is allowed.
pub Plain-reads :
    (i k : ℕ) (y : Text) (st st' : Scan)
    → k < 1000
    → st.expected_index ≡ i
    → is_locked_start st.lock_state ≡ false
    → index_value k y st ≡ some st'
    → (k ≡ i)
      × ((st.expected_value ≡ []) ⊎ (st.expected_value ≡ y))
      × (st' ≡ record st { expected_value = y; expected_index = k + 1 })
unfolding check_index check_value is_empty is_locked_start
Plain-reads i k y st st' small index mode h = elim (Bool-cases (is_empty st.expected_value)) [
  | inl new ↦
      let none_yet : st.expected_value ≡ [] = is_empty-nil st.expected_value new in
      (ground arith, inl none_yet, ground arith)
  | inr old ↦ (ground arith, inr (ground (arith, text_eq_iff y st.expected_value)), ground arith)
]

pub Holding-reads :
    (i k : ℕ) (x y : Text) (st st' : Scan)
    → k < 1000
    → st.expected_index ≡ i
    → Holding x st
    → x ≢ []
    → index_value k y st ≡ some st'
    → (i ≤ k)
      × (((k ≡ i) × (y ≡ x) × (st' ≡ record st { expected_value = y; expected_index = k + 1 }))
          ⊎ (st'
              ≡ record st { lock_state = locked_rest; expected_value = y; expected_index = k + 1 }))
unfolding check_index check_value is_empty is_locked_start
Holding-reads i k x y st st' small index (mode, own) full h = elim (Bool-cases (k == i)) [
  | inl here ↦ elim (Bool-cases (text_eq y x)) [
    | inl same ↦
        let eq : text_eq y st.expected_value ≡ true = rw own same in
        (ground arith, inl (ground arith, (text_eq_iff y x).0 same, ground arith))
    | inr other ↦
        let ne : text_eq y st.expected_value ≡ false = rw own other in
        let old : is_empty st.expected_value ≡ false = rw own (full-is_empty x full) in
        (ground arith, inr (ground arith))
  ]
  | inr behind ↦ (ground arith, inr (ground arith))
]

length_zero : (x : Text) → x ≢ [] → (length x == 0) ≡ false
length_zero [] full = absurd (full refl)
length_zero (c ∷ cs) full = ground arith

lock_reads :
    (x : Text) (st st' : Scan)
    → st.expected_index ≡ 0
    → st.lock_state ≡ unlocked
    → x ≢ []
    → check_lock x st ≡ some st'
    → IsHolder x
      × (st' ≡ record st { last_lock = x; expected_value = x; lock_state = locked_start })
unfolding check_lock is_unlocked
lock_reads x st st' first mode full h =
    let nonzero = length_zero x full in ((ground arith, ground arith), ground arith)

pub lock_round :
    (g : ℕ) (x : Text) (st st' : Scan)
    → g < unsigned_max
    → Elsewhere g st
    → x ≢ []
    → check_entry (make_lock_key g) x st ≡ some st'
    → IsHolder x
      × (st'
          ≡ record (entered st g) { last_lock = x; expected_value = x; lock_state = locked_start })
unfolding check_entry
lock_round g x st st' small out full h =
    let went = check_group-entered g small st (codes "lock") (omega arith) out in
    let is = lock_is_lock g st in
    let round : check_entry (group g ++ codes "lock") x st ≡ check_lock x (entered st g) =
      ground arith in
    lock_reads x (entered st g) st' refl refl full
      (sym round ∙ (ap (λ key. check_entry key x st) (sym (lock_key-group g)) ∙ h))
