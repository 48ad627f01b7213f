-- ===== src/Replica/Locks.antt =====
-- What a client of the leader may rely on over any sequence of requests: the lock protocol of
-- pset4/lockseq_model.cc, which locks by a swap from the empty value and unlocks by the version.
use traxos.Base.{
  ℕ, ◌+◌, ◌≤◌, ◌<◌, ◌≡◌, ◌≢◌, refl, Text, false, ◌&&◌, if◌then◌else◌, some, List, [], ◌∷◌, length,
  All, arith, text_ordered,
}
use traxos.Base.Int.{pos}
use traxos.OrdMap.{same}
use traxos.Pancy.Msgs.{Request, RemoveRequest, remove_request, Response, response_errcode}
use traxos.Pancy.Db.{World, version_limit}
use traxos.Pancy.Db.Spec.{view, step}
use traxos.Pancy.Db.Spec.Valid.{IsValid}
use traxos.Pancy.Db.Spec.Effects.{request_key, is_ok, next_version-step}
use traxos.Pancy.Db.Spec.Runs.{
  steps, steps-IsValid, answers, stale_unlock, IsAttempt, wins, wins-le-one,
}
use traxos.Replica.{Replica, handle, run, handle-leader, run-leader}

-- How many requests on `k` the responses accept.
pub accepts : Text → List Request → List Response → ℕ
accepts k [] resps = 0
accepts k (req ∷ reqs) [] = 0
accepts k (req ∷ reqs) (resp ∷ resps) =
    (if same k (request_key req) && is_ok (response_errcode resp) then 1 else 0)
    + accepts k reqs resps

accepts-answers :
    (k : Text) (reqs : List Request) (w : World) → accepts k reqs (answers reqs w) ≡ wins k reqs w
unfolding accepts answers wins
accepts-answers k [] w = refl
accepts-answers k (req ∷ reqs) w = ground (arith, accepts-answers k reqs (step req w).1)

next_version-steps :
    (reqs : List Request) (w : World) → (steps reqs w).next_version ≤ w.next_version + length reqs
unfolding steps
next_version-steps [] w = omega arith
next_version-steps (req ∷ reqs) w =
    omega (arith, next_version-step req w, next_version-steps reqs (step req w).1)

module _ (rep : Replica) (reqs : List Request) (lead : rep.index ≡ rep.leader_index)
    (v : IsValid rep.world) (room : rep.world.next_version + length reqs + 1 < version_limit) where
  -- Take a leader with a valid database and room for one more version than there are requests. Of
  -- requests that, where they are on the key `k`, all try to lock it, in any order among requests
  -- on other keys, it accepts at most one on `k`.
  pub lock_excludes :
      (k : Text) (resps : List Response) (rep' : Replica)
      → All (IsAttempt k) reqs
      → run reqs rep ≡ some (resps, rep')
      → accepts k reqs resps ≤ 1
  lock_excludes k resps rep' attempts done =
      let e = run-leader reqs rep lead v (omega arith) in
      let same_resps : resps ≡ answers reqs rep.world = ground arith in
      rw (same_resps, accepts-answers) (wins-le-one k reqs rep.world v attempts)

  -- Take a leader with a valid database and room for one more version than there are requests.
  -- Where a version was handed out and is not the current one of a key, an unlock of the key by
  -- that version that comes after the requests is refused, and changes nothing.
  pub late_unlock :
      (r : RemoveRequest) (n : ℕ) (resps : List Response) (resp : Response) (rep' rep'' : Replica)
      → 0 < n
      → n < rep.world.next_version
      → (view rep.world r.key).version ≢ n
      → r.version_match ≡ pos n
      → run reqs rep ≡ some (resps, rep')
      → handle (remove_request r) rep' ≡ some (resp, rep'')
      → (is_ok (response_errcode resp) ≡ false) × (rep'' ≡ rep')
  late_unlock r n resps resp rep' rep'' positive old other e done last =
      let w' = steps reqs rep.world in
      let ran = run-leader reqs rep lead v (omega arith) in
      let bound = next_version-steps reqs rep.world in
      let stale = stale_unlock r n reqs rep.world v (positive, old, other) e in
      let answered =
        handle-leader (remove_request r) (record rep { world = w' }) lead
          (steps-IsValid reqs rep.world v) (omega arith) in
      let here : rep' ≡ record rep { world = w' } = ground arith in
      let last' : resp ≡ (step (remove_request r) w').0 = ground (arith, rw here at last) in
      let left : rep'' ≡ record rep { world = (step (remove_request r) w').1 } =
        ground (arith, rw here at last) in
      (rw last' stale.0, ground (arith, left, here, stale.1))
