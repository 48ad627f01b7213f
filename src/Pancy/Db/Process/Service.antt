-- ===== src/Pancy/Db/Process/Service.antt =====
-- What a client may rely on of one request to the database.
use traxos.Base.{◌+◌, ◌<◌, ◌≡◌, Text, false, ◌&&◌, if◌then◌else◌, some, arith, text_ordered}
use mathlib.Core.Path.{subst}
use traxos.OrdMap.{same}
use traxos.Pancy.Msgs.{Request, Response, request_serial, response_serial, response_errcode}
use traxos.Pancy.Db.{World, version_limit}
use traxos.Pancy.Db.Process.{process_req}
use traxos.Pancy.Db.Process.Refine.{process_req-step}
use traxos.Pancy.Db.Spec.{view, step}
use traxos.Pancy.Db.Spec.Valid.{IsValid}
use traxos.Pancy.Db.Spec.Keeps.{step-IsValid}
use traxos.Pancy.Db.Spec.Effects.{request_key, outcome, is_ok, view-step, serial-step, step_refused}

module _ (r : Request) (w w' : World) (resp : Response) (v : IsValid w)
    (room : w.next_version + 1 < version_limit) (done : process_req r w ≡ some (resp, w')) where
  returned : (step r w ≡ (resp, w'))
  returned = let e = process_req-step r w v room in ground arith

  -- A request to a valid database with room for one more version keeps the invariant: the keys in
  -- order, the versions positive and below the next, the removals in descending order below the
  -- next version, each of an older positive version, no more than a hundred of them, and the shared
  -- `nonexistent_vv` untouched.
  pub process_req-IsValid : IsValid w'
  process_req-IsValid = subst IsValid (ground (arith, returned)) (step-IsValid r w v)

  -- On a valid database with room for one more version, an accepted request changes what is seen at
  -- its own key, to its value under the next version or, for a removal, to nothing; all other keys,
  -- and all keys if it is refused, are seen as before.
  pub view-process_req :
      (j : Text)
      → view w' j ≡ (
          if is_ok (response_errcode resp) && same j (request_key r)
          then outcome r w.next_version (view w j)
          else view w j)
  view-process_req j =
      subst
        (λ (p : Response × World). view p.1 j ≡ (
          if is_ok (response_errcode p.0) && same j (request_key r)
          then outcome r w.next_version (view w j)
          else view w j))
        returned (view-step r w j v)

  -- The response to a request on a valid database with room for one more version carries the serial
  -- of the request, by which the client matches them.
  pub serial-process_req : response_serial resp ≡ request_serial r
  serial-process_req =
      subst (λ (p : Response × World). response_serial p.0 ≡ request_serial r) returned
        (serial-step r w)

  -- On a valid database with room for one more version, a request that is refused changes nothing
  -- at all.
  pub process_req_refused : is_ok (response_errcode resp) ≡ false → w' ≡ w
  process_req_refused =
      subst (λ (p : Response × World). is_ok (response_errcode p.0) ≡ false → p.1 ≡ w) returned
        (step_refused r w)
