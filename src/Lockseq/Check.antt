-- ===== src/Lockseq/Check.antt =====
-- The keys that the rounds of `check` in pset4/lockseq_model.cc go by.
use traxos.Base.{
  ℕ, suc, ◌+◌, ◌-◌, ◌^◌, ◌≢◌, sym, ◌∙◌, ◌≡◌, ◌⊎◌, refl, ap, Text, true, none, some, [], ◌∷◌, ◌++◌,
  length, take, drop, arith, text_eq_iff, Option-cases, Bool-cases, inl, inr,
}
use mathlib.Core.Path.{subst}
use traxos.Base.Bytes.{codes}
use traxos.OrdMap.{OrdMap}
use traxos.Pancy.Db.{Vv, PancyDb}
use traxos.Lockseq.{
  Scan, start, is_empty, char_at, starts_with, find_slash, new_group, check_group, is_lock_key,
  check_lock, check_index, check_value, check_value_key, check_entry, check_loop, check,
  parse_digits,
}
use traxos.Lockseq.Named.{
  IsGroup, IsValue, take-drop, find_slash-lt, length-take, entered, not-is_empty, drop-IsValue,
}

-- The key of a lock or of a value.
pub record IsNamed (key : Text) : Type 0 where
  pub group : Text
  pub tail : Text
  pub whole : key ≡ group ++ tail
  pub named : IsGroup group
  pub kind : (tail ≡ codes "lock") ⊎ IsValue tail

-- The scan is in a group, or in none yet.
record InGroup (st : Scan) : Type 0 where
  size : st.glen ≡ length st.last_group
  named : IsGroup st.last_group

abbrev Scanned : Scan → Type 0
Scanned st = (st.last_group ≡ []) ⊎ InGroup st

abbrev At : Text → Scan → Type 0
At key st = InGroup st × (take (length st.last_group) key ≡ st.last_group)

new_group-At : (key : Text) (st st' : Scan) → new_group key st ≡ some st' → At key st'
unfolding new_group
new_group-At key st st' h = elim (Option-cases (find_slash key)) [
  | inl no_slash ↦ absurd (ground arith)
  | inr (n, found) ↦
      let below = find_slash-lt key n found in
      let size = length-take (n + 1) key (omega arith) in
      let g : char_at key 0 ≡ b'g' = ground arith in
      let group : st'.last_group ≡ take (n + 1) key = ground arith in
      let glen : st'.glen ≡ n + 1 = ground arith in
      let read : parse_digits key 1 n ≢ 2 ^ 32 - 1 = λ e. absurd (ground arith) in
      let next : n + 1 ≡ suc n = omega arith in
      let whole : st'.last_group ≡ take (suc n) key = group ∙ ap (λ k. take k key) next in
      (
        record {
          size = rw (glen, group, size) refl;
          named = subst IsGroup (sym whole) (entered key n found g read);
        },
        rw (group, size) refl,
      )
]

check_group-At :
    (key : Text) (st st' : Scan) → Scanned st → check_group key st ≡ some st' → At key st'
unfolding check_group starts_with is_empty
check_group-At key st st' (inl none_yet) h = new_group-At key st st' (ground arith)
check_group-At key st st' (inr inside) h = elim (Bool-cases (starts_with key st.last_group)) [
  | inl same ↦
      let some_group = not-is_empty st.last_group inside.named in
      let prefix = (text_eq_iff (take (length st.last_group) key) st.last_group).0 same in
      let stays : st ≡ st' = ground arith in subst (At key) stays (inside, prefix)
  | inr other ↦ new_group-At key st st' (ground arith)
]

-- What follows the group's name in a key of the scan's group.
split : (key : Text) (st : Scan) → At key st → key ≡ st.last_group ++ drop st.glen key
split key st here =
    let parts = take-drop (length st.last_group) key in
    let size = here.0.size in let prefix = here.1 in rw size (ground arith)

lock_key-IsNamed : (key : Text) (st : Scan) → At key st → is_lock_key key st ≡ true → IsNamed key
unfolding is_lock_key
lock_key-IsNamed key st here h =
    let ending = text_eq_iff (drop (length key - 4) key) (codes "lock") in
    let long : length key ≡ st.glen + 4 = ground arith in
    let place : length key - 4 ≡ st.glen = omega arith in
    record {
      group = st.last_group;
      tail = drop st.glen key;
      whole = split key st here;
      named = here.0.named;
      kind = inl (rw (← place) (ground (arith, ending)));
    }

check_value_group :
    (value : Text) (st st' : Scan)
    → check_value value st ≡ some st'
    → (st'.last_group ≡ st.last_group) × (st'.glen ≡ st.glen)
unfolding check_value
check_value_group value st st' h = (ground arith, ground arith)

check_index_group :
    (n : ℕ) (st st' : Scan)
    → check_index n st ≡ some st'
    → (st'.last_group ≡ st.last_group) × (st'.glen ≡ st.glen)
unfolding check_index
check_index_group n st st' h = (ground arith, ground arith)

check_lock_group :
    (value : Text) (st st' : Scan)
    → check_lock value st ≡ some st'
    → (st'.last_group ≡ st.last_group) × (st'.glen ≡ st.glen)
unfolding check_lock
check_lock_group value st st' h = (ground arith, ground arith)

check_value_key_group :
    (key value : Text) (st st' : Scan)
    → check_value_key key value st ≡ some st'
    → (st'.last_group ≡ st.last_group) × (st'.glen ≡ st.glen)
unfolding check_value_key
check_value_key_group key value st st' h =
    let n = parse_digits key (st.glen + 1) (st.glen + 4) in
    elim (Option-cases (check_index n st)) [
      | inl bad ↦ absurd (ground arith)
      | inr (mid, e) ↦
          let done : check_value value mid ≡ some st' = ground arith in
          ground (arith, check_index_group n st mid e, check_value_group value mid st' done)
    ]

value_key-IsNamed :
    (key value : Text) (st st' : Scan)
    → At key st
    → check_value_key key value st ≡ some st'
    → IsNamed key
unfolding check_value_key char_at
value_key-IsNamed key value st st' here h =
    let long : length key ≡ st.glen + 4 = ground arith in
    record {
      group = st.last_group;
      tail = drop st.glen key;
      whole = split key st here;
      named = here.0.named;
      kind = inr (drop-IsValue key st.glen long (ground arith) (λ e. absurd (ground arith)));
    }

check_entry-IsNamed :
    (key value : Text) (st st' : Scan)
    → Scanned st
    → check_entry key value st ≡ some st'
    → IsNamed key × Scanned st'
unfolding check_entry
check_entry-IsNamed key value st st' s h = elim (Option-cases (check_group key st)) [
  | inl bad ↦ absurd (ground arith)
  | inr (mid, e) ↦
      let here = check_group-At key st mid s e in
      elim (Bool-cases (is_lock_key key mid)) [
        | inl lock ↦
            let done : check_lock value mid ≡ some st' = ground arith in
            let same = check_lock_group value mid st' done in
            (lock_key-IsNamed key mid here lock, inr (stays mid st' here.0 same))
        | inr other ↦
            let done : check_value_key key value mid ≡ some st' = ground arith in
            let same = check_value_key_group key value mid st' done in
            (value_key-IsNamed key value mid st' here done, inr (stays mid st' here.0 same))
      ]
]
  where
    stays :
        (mid st' : Scan)
        → InGroup mid
        → (st'.last_group ≡ mid.last_group) × (st'.glen ≡ mid.glen)
        → InGroup st'
    stays mid st' inside same = record {
      size = rw (same.0, same.1) inside.size;
      named = rw (same.0) inside.named;
    }

abbrev pub AllNamed : OrdMap Text Vv → Type 0
AllNamed [] = Unit
AllNamed ((key, vv) ∷ db) = IsNamed key × AllNamed db

check_loop-AllNamed :
    (db : OrdMap Text Vv) (st : Scan) → Scanned st → check_loop db st ≡ none → AllNamed db
unfolding check_loop
check_loop-AllNamed [] st s h = tt
check_loop-AllNamed ((key, vv) ∷ db) st s h = elim (Option-cases (check_entry key vv.value st)) [
  | inl bad ↦ absurd (ground arith)
  | inr (st', e) ↦
      let named = check_entry-IsNamed key vv.value st st' s e in
      (named.0, check_loop-AllNamed db st' named.1 (ground arith))
]

-- A database that `check` lets pass has only keys that are the name of a group, which is `g`, at
-- least one digit and a slash, and then `lock`, or `v` and three digits.
pub check-AllNamed : (db : PancyDb) → check db ≡ none → AllNamed db.db
unfolding check
check-AllNamed db h = check_loop-AllNamed db.db start (inl refl) h
