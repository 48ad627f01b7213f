-- ===== src/Lockseq/Timely/Requests.antt =====
-- The current request of a client, at its own key.
use traxos.Base.{
  ◌≡◌, ◌≢◌, inl, inr, sym, true, none, some, [], arith, Option-cases, Bool-cases, text_ordered,
  text_cmp_iff, text_eq, text_eq_iff,
}
use traxos.OrdMap.{find}
use traxos.Pancy.Msgs.{
  ok, nonexistent_version, put_request, cas_request, remove_request, response_errcode,
  remove_response,
}
use traxos.Pancy.Db.{Vv, World}
use traxos.Pancy.Db.Spec.{step, modified}
use traxos.Pancy.Db.Spec.Valid.{IsValid}
use traxos.Pancy.Db.Spec.Effects.{is_ok}
use traxos.Lockseq.Keys.{make_lock_key, make_value_key}
use traxos.Lockseq.Groups.{value_of}
use traxos.Lockseq.Client.{Cstate}
use traxos.Lockseq.Client.Turns.{lock_of, put_of, clear_of, unlock_of}
use traxos.Lockseq.Timely.Found.{find-step}

pub lock_taken :
    (c : Cstate) (w : World)
    → IsValid w
    → find (make_lock_key c.gid) w.db ≡ none
    → find (make_lock_key c.gid) (step (cas_request (lock_of c)) w).1.db
      ≡ some (record { value = c.value; version = w.next_version })
unfolding step response_errcode
lock_taken c w v gone = ground (
  arith,
  find-step (cas_request (lock_of c)) w (make_lock_key c.gid) v,
  text_cmp_iff (make_lock_key c.gid) (make_lock_key c.gid),
)

pub lock_refused :
    (c : Cstate) (w : World) (old : Vv)
    → find (make_lock_key c.gid) w.db ≡ some old
    → old.value ≢ []
    → (step (cas_request (lock_of c)) w).1 ≡ w
unfolding step
lock_refused c w old found full = elim (Bool-cases (text_eq [] old.value)) [
  | inl empty ↦ absurd (full (sym ((text_eq_iff [] old.value).0 empty)))
  | inr other ↦ ground arith
]

pub put_done :
    (c : Cstate) (w : World)
    → IsValid w
    → value_of (find (make_value_key c.gid c.n) (step (put_request (put_of c)) w).1.db)
      ≡ some c.value
unfolding step response_errcode
put_done c w v = ground (
  arith,
  find-step (put_request (put_of c)) w (make_value_key c.gid c.n) v,
  text_cmp_iff (make_value_key c.gid c.n) (make_value_key c.gid c.n),
)

pub remove_done :
    (c : Cstate) (w : World)
    → IsValid w
    → find (make_value_key c.gid c.n) (step (remove_request (clear_of c)) w).1.db ≡ none
unfolding step response_errcode
remove_done c w v = elim (Option-cases (find (make_value_key c.gid c.n) w.db)) [
  | inl gone ↦ ground arith
  | inr (old, found) ↦ ground (
    arith,
    find-step (remove_request (clear_of c)) w (make_value_key c.gid c.n) v,
    text_cmp_iff (make_value_key c.gid c.n) (make_value_key c.gid c.n),
  )
]

pub remove_ok :
    (c : Cstate) (w : World) (old : Vv) (r : _)
    → find (make_value_key c.gid c.n) w.db ≡ some old
    → (step (remove_request (clear_of c)) w).0 ≡ remove_response r
    → is_ok r.errcode ≡ true
unfolding step
remove_ok c w old r found e =
    let answer : modified c.serial ok [] old.version nonexistent_version ≡ r = ground arith in
    ground arith

pub unlock_done :
    (c : Cstate) (w : World) (old : Vv)
    → IsValid w
    → find (make_lock_key c.gid) w.db ≡ some old
    → old.version ≡ c.lock_version
    → find (make_lock_key c.gid) (step (remove_request (unlock_of c)) w).1.db ≡ none
unfolding step response_errcode
unlock_done c w old v found same = ground (
  arith,
  find-step (remove_request (unlock_of c)) w (make_lock_key c.gid) v,
  text_cmp_iff (make_lock_key c.gid) (make_lock_key c.gid),
)

pub unlock_refused :
    (c : Cstate) (w : World)
    → ((old : Vv) → find (make_lock_key c.gid) w.db ≡ some old → old.version ≢ c.lock_version)
    → (step (remove_request (unlock_of c)) w).1 ≡ w
unfolding step
unlock_refused c w other = elim (Option-cases (find (make_lock_key c.gid) w.db)) [
  | inl gone ↦ ground arith
  | inr (old, found) ↦ let ne = other old found in ground arith
]
