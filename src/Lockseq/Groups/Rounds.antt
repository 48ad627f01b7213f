-- ===== src/Lockseq/Groups/Rounds.antt =====
-- One round of `check` on a key of a group, from any scan.
use traxos.Base.{
  ℕ, suc, ◌+◌, ◌-◌, ◌<◌, ◌≤◌, ◌≡◌, ◌≢◌, ◌⊎◌, inl, inr, refl, sym, ap, ◌∙◌, Text, true, false, none,
  some, [], ◌∷◌, ◌++◌, length, length-append, drop, take, drop-append, take-append, arith, text_eq,
  text_eq_iff, ltb, Bool-cases, ◌==◌,
}
use mathlib.Core.Path.{subst}
use mathlib.Core.List.{append_assoc}
use traxos.Base.Bytes.{codes, decimal, decimal-AllDigits}
use traxos.Lockseq.{
  Scan, unlocked, locked_start, locked_rest, is_empty, is_locked_start, is_unlocked, char_at,
  starts_with, find_slash, new_group, check_group, is_lock_key, check_lock, check_index,
  check_value, check_value_key, check_entry, parse_digits, unsigned_max,
}
use traxos.Lockseq.Digits.{parse_digits-decimal}
use traxos.Lockseq.Keys.{make_lock_key, make_value_key, padded}
use traxos.Lockseq.Held.{
  group, length-append-4, starts_with-append, value_index, length-padded, char_at-append,
  value_key-group, entry_of_value, entry_of_lock,
}
use traxos.Lockseq.Held.{find_slash-digits, lock_key-group}
use traxos.Lockseq.Groups.{IsHolder}
use traxos.Lockseq.Groups.Order.{group_unique}
use traxos.Lockseq.Client.Refused.{take-drop}

-- The scan is in the group `g`, and expects the index `i`.
pub record In (g i : ℕ) (st : Scan) : Type 0 where
  pub group_of : st.last_group ≡ group g
  pub glen : st.glen ≡ length (group g)
  pub index : st.expected_index ≡ i

-- No change of the value or gap is allowed any more.
abbrev pub Plain : Text → Scan → Type 0
Plain y st =
    (is_locked_start st.lock_state ≡ false) × ((st.expected_value ≡ []) ⊎ (st.expected_value ≡ y))

-- The values of the holder are read.
abbrev pub Holding : Text → Scan → Type 0
Holding x st = (st.lock_state ≡ locked_start) × (st.expected_value ≡ x)

module _ (p : Text) (k : ℕ) (small : k < 1000) (st : Scan) (glen : st.glen ≡ length p) where
  pub tail_not_lock : is_lock_key (p ++ 118 ∷ padded k) st ≡ false
  unfolding is_lock_key
  tail_not_lock =
      let long = length-append-4 p 118 (padded k) (length-padded k small) in
      let place : length p + 4 - 4 ≡ length p = omega arith in
      rw (long, place, drop-append p (118 ∷ padded k)) (ground arith)

  pub tail_entry :
      (y : Text)
      → is_empty y ≡ false
      → check_value_key (p ++ 118 ∷ padded k) y st
        ≡ (elim (check_index k st) [ none ↦ none | some st' ↦ check_value y st' ])
  unfolding check_value_key
  tail_entry y full =
      let long = length-append-4 p 118 (padded k) (length-padded k small) in
      let index : parse_digits (p ++ 118 ∷ padded k) (st.glen + 1) (st.glen + 4) ≡ k =
        rw glen (value_index p 118 k small) in
      let letter : char_at (p ++ 118 ∷ padded k) st.glen ≡ 118 =
        rw glen (char_at-append p 118 (padded k)) in
      ground (arith, long, index, letter, full)

-- "Check key" and "check value" for a value that is no change.
pub next-Plain :
    (i : ℕ) (y : Text) (st : Scan)
    → i < 1000
    → st.expected_index ≡ i
    → Plain y st
    → (elim (check_index i st) [ none ↦ none | some st' ↦ check_value y st' ])
      ≡ some (record st { expected_value = y; expected_index = i + 1 })
unfolding check_index check_value is_empty is_locked_start
next-Plain i y st small e (rest, inl none_yet) = ground (arith, (text_eq_iff y y).1 refl)
next-Plain i y st small e (rest, inr same) =
    ground (arith, (text_eq_iff y st.expected_value).1 (sym same))

pub next-Holding :
    (i : ℕ) (x : Text) (st : Scan)
    → i < 1000
    → st.expected_index ≡ i
    → Holding x st
    → (elim (check_index i st) [ none ↦ none | some st' ↦ check_value x st' ])
      ≡ some (record st { expected_value = x; expected_index = i + 1 })
unfolding check_index check_value is_empty is_locked_start
next-Holding i x st small e (start, same) =
    ground (arith, (text_eq_iff x st.expected_value).1 (sym same))

differ : (y x e : Text) → e ≡ x → y ≢ x → text_eq y e ≡ false
differ y x e same ne = elim (Bool-cases (text_eq y e)) [
  | inl eq ↦ absurd (ne ((text_eq_iff y e).0 eq ∙ same))
  | inr other ↦ other
]

-- The first value after the holder's.
pub next_rest :
    (i k : ℕ) (x y : Text) (st : Scan)
    → k < 1000
    → i ≤ k
    → st.expected_index ≡ i
    → Holding x st
    → (i < k) ⊎ (y ≢ x)
    → is_empty x ≡ false
    → (elim (check_index k st) [ none ↦ none | some st' ↦ check_value y st' ])
      ≡ some (record st { lock_state = locked_rest; expected_value = y; expected_index = k + 1 })
unfolding check_index check_value is_empty is_locked_start
next_rest i k x y st small le e (start, same) new full = elim (Bool-cases (k == i)) [
  | inl here ↦
      let differs : text_eq y st.expected_value ≡ false =
        differ y x st.expected_value same (ground (arith, new)) in
      ground arith
  | inr behind ↦ ground arith
]

-- The scan enters the group `g`.
abbrev pub entered : Scan → ℕ → Scan
entered st g = record st {
  last_group = group g;
  glen = length (group g);
  expected_value = [];
  expected_index = 0;
  lock_state = unlocked;
}

-- No group was entered, or another one.
abbrev pub Elsewhere : ℕ → Scan → Type 0
Elsewhere g st = (st.last_group ≡ []) ⊎ ((h : ℕ) × (st.last_group ≡ group h) × (h ≢ g))

take-prefix : (g h : ℕ) (t : Text) → h ≢ g → starts_with (group g ++ t) (group h) ≡ false
unfolding starts_with
take-prefix g h t ne = elim (Bool-cases (starts_with (group g ++ t) (group h))) [
  | inr other ↦ other
  | inl begins ↦
      let whole = group g ++ t in
      let n = length (group h) in
      let same : take n whole ≡ group h = (text_eq_iff (take n whole) (group h)).0 begins in
      absurd (
        ne (
          sym (
            group_unique g h t (drop n whole)
              (take-drop n whole ∙ ap (λ x. x ++ drop n whole) same))))
]

new_group_at :
    (key p : Text) (n g : ℕ) (st : Scan)
    → ltb (length key) 3 ≡ false
    → char_at key 0 ≡ b'g'
    → find_slash key ≡ some n
    → parse_digits key 1 n ≡ g
    → g < unsigned_max
    → n + 1 ≡ length p
    → take (length p) key ≡ p
    → new_group key st
      ≡ some (record st {
        last_group = p;
        glen = length p;
        expected_value = [];
        expected_index = 0;
        lock_state = unlocked;
      })
unfolding new_group
new_group_at key p n g st long first slash digits small size prefix =
    ground (arith, ap (λ m. take m key) size)

module _ (g : ℕ) (small : g < unsigned_max) (st : Scan) (t : Text) (full : 1 ≤ length t) where
  new_group-entered : new_group (group g ++ t) st ≡ some (entered st g)
  unfolding char_at find_slash
  new_group-entered =
      let text : group g ++ t ≡ 103 ∷ (decimal g ++ 47 ∷ t) =
        ap (λ x. 103 ∷ x) (append_assoc (decimal g) (codes "/") t) in
      let digits : parse_digits (103 ∷ (decimal g ++ 47 ∷ t)) 1 (suc (length (decimal g))) ≡ g =
        subst (λ n. parse_digits (103 ∷ (decimal g ++ 47 ∷ t)) 1 n ≡ g) (omega arith)
          (parse_digits-decimal (codes "g") g (47 ∷ t) (omega arith)) in
      let slash : find_slash (103 ∷ (decimal g ++ 47 ∷ t)) ≡ some (suc (length (decimal g))) =
        ground (arith, find_slash-digits (decimal g) t (decimal-AllDigits g)) in
      let long : ltb (length (103 ∷ (decimal g ++ 47 ∷ t))) 3 ≡ false =
        ground (arith, length-append (decimal g) (47 ∷ t)) in
      subst (λ key. new_group key st ≡ some (entered st g)) (sym text)
        (new_group_at (103 ∷ (decimal g ++ 47 ∷ t)) (group g) (suc (length (decimal g))) g st long
          refl slash digits small (omega (arith, length-append (decimal g) (codes "/")))
          (subst (λ key. take (length (group g)) key ≡ group g) text (take-append (group g) t)))

  pub check_group-entered : Elsewhere g st → check_group (group g ++ t) st ≡ some (entered st g)
  unfolding check_group is_empty
  check_group-entered (inl first) = ground (arith, new_group-entered)
  check_group-entered (inr (h, e, ne)) =
      let other : starts_with (group g ++ t) st.last_group ≡ false = rw e (take-prefix g h t ne) in
      ground (arith, new_group-entered)

pub lock_is_lock : (g : ℕ) (st : Scan) → is_lock_key (group g ++ codes "lock") (entered st g) ≡ true
unfolding is_lock_key
lock_is_lock g st =
    let long = length-append-4 (group g) 108 (codes "ock") refl in
    let place : length (group g) + 4 - 4 ≡ length (group g) = omega arith in
    rw (long, place, drop-append) (ground arith)

-- A round whose group is `g`, where the scan is `mid` once the group is checked.
entry_of_mid :
    (g k : ℕ) (y : Text) (st mid st' : Scan)
    → k < 1000
    → is_empty y ≡ false
    → check_group (group g ++ 118 ∷ padded k) st ≡ some mid
    → mid.glen ≡ length (group g)
    → (elim (check_index k mid) [ none ↦ none | some s ↦ check_value y s ]) ≡ some st'
    → check_entry (make_value_key g k) y st ≡ some st'
entry_of_mid g k y st mid st' small full went glen next = rw (value_key-group g k) (
    entry_of_value (group g ++ 118 ∷ padded k) y st mid st' went
      (tail_not_lock (group g) k small mid glen)
      (tail_entry (group g) k small mid glen y full ∙ next))

pub check_group-in :
    (g : ℕ) (t : Text) (st : Scan)
    → st.last_group ≡ group g
    → check_group (group g ++ t) st ≡ some st
unfolding check_group is_empty
check_group-in g t st e =
    let begins : starts_with (group g ++ t) st.last_group ≡ true =
      rw e (starts_with-append (group g) t) in
    ground arith

pub entry_in :
    (g k : ℕ) (y : Text) (st st' : Scan)
    → k < 1000
    → is_empty y ≡ false
    → st.last_group ≡ group g
    → st.glen ≡ length (group g)
    → (elim (check_index k st) [ none ↦ none | some s ↦ check_value y s ]) ≡ some st'
    → check_entry (make_value_key g k) y st ≡ some st'
entry_in g k y st st' small full here glen next =
    entry_of_mid g k y st st st' small full (check_group-in g (118 ∷ padded k) st here) glen next

pub entry_first :
    (g : ℕ) (y : Text) (st : Scan)
    → g < unsigned_max
    → is_empty y ≡ false
    → Elsewhere g st
    → check_entry (make_value_key g 0) y st
      ≡ some (record (entered st g) { expected_value = y; expected_index = 1 })
unfolding is_locked_start
entry_first g y st small full out =
    entry_of_mid g 0 y st (entered st g) _ (omega arith) full
      (check_group-entered g small st (118 ∷ padded 0) (omega arith) out) refl
      (next-Plain 0 y (entered st g) (omega arith) refl (refl, inl refl))

pub entry_lock :
    (g : ℕ) (x : Text) (st : Scan)
    → g < unsigned_max
    → IsHolder x
    → Elsewhere g st
    → check_entry (make_lock_key g) x st
      ≡ some
          (record (entered st g) { last_lock = x; expected_value = x; lock_state = locked_start })
unfolding check_lock is_unlocked
entry_lock g x st small (c, long) out = rw (lock_key-group g) (
    entry_of_lock (group g ++ codes "lock") x st (entered st g) _
      (check_group-entered g small st (codes "lock") (omega arith) out) (lock_is_lock g st)
      (ground arith))
