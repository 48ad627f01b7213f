-- ===== src/Lockseq.antt =====
-- pset4/lockseq_model.cc: `check`, which tells whether a database could have been made by clients that
-- lock a group of keys, write a sequence of values under it, and unlock it.
pub mod Digits
pub mod Named
pub mod Check
pub mod Keys
pub mod Held
pub mod Client
pub mod System
pub mod Groups
pub mod Timely
mod Tests
use traxos.Base.{
  ℕ, zero, suc, ◌+◌, ◌-◌, ◌*◌, ◌%◌, ◌^◌, Text, Bool, true, false, not, ◌&&◌, ◌||◌, if◌then◌else◌,
  ◌==◌, ltb, leb, Option, none, some, List, [], ◌∷◌, length, take, drop, text_eq,
}
use traxos.Base.Bytes.{codes, is_digit}
use traxos.OrdMap.{OrdMap}
use traxos.Pancy.Db.{Vv, PancyDb}

-- `unsigned(-1)`
abbrev unsigned_max : ℕ
unsigned_max = 2 ^ 32 - 1

-- The loop of `parse_digits`, over the characters that are left before `to`.
pub digits_loop : ℕ → Text → ℕ
digits_loop v [] = v
digits_loop v (ch ∷ chs) =
    let vv = (v * 10 + (ch - 48)) % 2 ^ 32 in
    let rest = digits_loop vv chs in
    if not (is_digit ch) then unsigned_max else if ltb vv v then unsigned_max else rest

-- For a range inside `s`, as in each call.
pub parse_digits : Text → ℕ → ℕ → ℕ
parse_digits s from to =
    if leb to from then unsigned_max else digits_loop 0 (take (to - from) (drop from s))

-- `s[i]`; the character past the end of a string is null
pub char_at : Text → ℕ → ℕ
char_at s i = elim (drop i s) [ [] ↦ 0 | ch ∷ chs ↦ ch ]

pub data LockState : Type 0 where
  unlocked locked_start locked_rest : LockState

-- The locals of `check`; `glen` has no value before the first group.
pub record Scan : Type 0 where
  pub last_group : Text
  pub glen : ℕ
  pub last_lock : Text
  pub expected_value : Text
  pub expected_index : ℕ
  pub lock_state : LockState

abbrev pub start : Scan
start = record {
  last_group = [];
  glen = 0;
  last_lock = [];
  expected_value = [];
  expected_index = 0;
  lock_state = unlocked;
}

pub is_empty : Text → Bool
is_empty [] = true
is_empty (c ∷ cs) = false

pub starts_with : Text → Text → Bool
starts_with key group = text_eq (take (length group) key) group

-- `key.find('/')`
pub find_slash : Text → Option ℕ
find_slash [] = none
find_slash (c ∷ cs) =
    let behind : Option ℕ = elim (find_slash cs) [ none ↦ none | some n ↦ some (suc n) ] in
    if c == b'/' then some 0 else behind

pub is_unlocked : LockState → Bool
is_unlocked unlocked = true
is_unlocked s = false

pub is_locked_start : LockState → Bool
is_locked_start locked_start = true
is_locked_start s = false

-- The start of a new group, up to the slash of the key; `none` is `return key`.
pub new_group : Text → Scan → Option Scan
unfolding find_slash
new_group key st =
    if ltb (length key) 3 || not (char_at key 0 == b'g') then none else elim (find_slash key) [
      | none ↦ none
      | some slash ↦
          if parse_digits key 1 slash == unsigned_max
          then none
          else some (record st {
            last_group = take (slash + 1) key;
            glen = slash + 1;
            expected_value = [];
            expected_index = 0;
            lock_state = unlocked;
          })
    ]

-- "Check for new group"
pub check_group : Text → Scan → Option Scan
unfolding is_empty starts_with new_group
check_group key st =
    if is_empty st.last_group || not (starts_with key st.last_group)
    then new_group key st
    else some st

pub is_lock_key : Text → Scan → Bool
is_lock_key key st = length key == st.glen + 4 && text_eq (drop (length key - 4) key) (codes "lock")

-- "Check for lock key"
pub check_lock : Text → Scan → Option Scan
unfolding is_unlocked is_empty
check_lock value st =
    if not (st.expected_index == 0) || not (is_unlocked st.lock_state)
    then none
    else if length value == 0
    then some st
    else if ltb (length value) 4 || not (char_at value 0 == b'c')
    then none
    else some (record st { last_lock = value; lock_state = locked_start; expected_value = value })

-- "Check key", for the index of a value key.
pub check_index : ℕ → Scan → Option Scan
unfolding is_locked_start
check_index vindex st =
    if vindex == st.expected_index
    then some st
    else if not (is_locked_start st.lock_state) || ltb vindex st.expected_index
    then none
    else some (record st { lock_state = locked_rest; expected_index = vindex; expected_value = [] })

-- "Check value", and the next index.
pub check_value : Text → Scan → Option Scan
unfolding is_locked_start is_empty
check_value value st =
    let next = (st.expected_index + 1) % 2 ^ 32 in
    if not (is_empty st.expected_value) && not (text_eq value st.expected_value)
    then (if not (is_locked_start st.lock_state)
        then none
        else some
            (record st { lock_state = locked_rest; expected_value = value; expected_index = next }))
    else some (record st { expected_value = value; expected_index = next })

-- "Otherwise, must be value key"
pub check_value_key : Text → Text → Scan → Option Scan
unfolding is_empty check_index check_value
check_value_key key value st =
    let vindex = parse_digits key (st.glen + 1) (st.glen + 4) in
    if not (length key == st.glen + 4)
      || not (char_at key st.glen == b'v')
      || vindex == unsigned_max
      || is_empty value
    then none
    else elim (check_index vindex st) [ none ↦ none | some st' ↦ check_value value st' ]

-- One round of the loop.
pub check_entry : Text → Text → Scan → Option Scan
unfolding check_group is_lock_key check_lock check_value_key
check_entry key value st = elim (check_group key st) [
  | none ↦ none
  | some st' ↦ if is_lock_key key st' then check_lock value st' else check_value_key key value st'
]

pub check_loop : OrdMap Text Vv → Scan → Option Text
unfolding check_entry
check_loop [] st = none
check_loop ((key, vv) ∷ db) st = elim (check_entry key vv.value st) [
  | none ↦ some key
  | some st' ↦ check_loop db st'
]

pub check : PancyDb → Option Text
check db = check_loop db.db start
