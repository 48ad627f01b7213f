-- ===== src/Replica.antt =====
-- pset4/pt-paxos.cc: `pt_paxos_replica` and its loop `run`, over the requests that its port receives
-- in order. The replica that believes itself the leader answers; any other redirects.
pub mod Locks
pub mod Instance
pub mod Tests
use traxos.Base.{
  ℕ, ◌+◌, ◌<◌, ◌≡◌, ◌≢◌, refl, Option, none, some, List, [], ◌∷◌, arith, Bool, ◌==◌, if◌then◌else◌,
  length,
}
use traxos.Pancy.Msgs.{
  Request, Response, redirection_response, RedirectionResponse, response_header, redirect,
  request_serial, response_serial, response_errcode, get_response, put_response, cas_response,
  remove_response,
}
use traxos.Pancy.Db.{World, version_limit}
use traxos.Pancy.Db.Process.{process_req}
use traxos.Pancy.Db.Process.Refine.{process_req-step}
use traxos.Pancy.Db.Spec.{step}
use traxos.Pancy.Db.Spec.Valid.{IsValid}
use traxos.Pancy.Db.Spec.Keeps.{step-IsValid}
use traxos.Pancy.Db.Spec.Effects.{next_version-step}
use traxos.Pancy.Db.Spec.Runs.{steps, answers}

pub record Replica : Type 0 where
  pub index : ℕ
  pub nreplicas : ℕ
  pub leader_index : ℕ
  pub world : World

abbrev pub redirection : Request → ℕ → Response
redirection req leader =
    redirection_response
      (record { base = response_header (request_serial req) redirect; redirection = leader })

-- One round of the loop: the response sent, and the replica after it. `none` is undefined behaviour.
unfoldable pub handle : Request → Replica → Option (Response × Replica)
handle req rep =
    if rep.index == rep.leader_index
    then elim (process_req req rep.world) [
      | none ↦ none
      | some (resp, w) ↦ some (resp, record rep { world = w })
    ]
    else some (redirection req rep.leader_index, rep)

pub run : List Request → Replica → Option (List Response × Replica)
run [] rep = some ([], rep)
run (req ∷ reqs) rep = elim (handle req rep) [
  | none ↦ none
  | some (resp, rep') ↦ elim (run reqs rep') [
    | none ↦ none
    | some (resps, rep'') ↦ some (resp ∷ resps, rep'')
  ]
]

pub handle-leader :
    (req : Request) (rep : Replica)
    → rep.index ≡ rep.leader_index
    → IsValid rep.world
    → rep.world.next_version + 1 < version_limit
    → handle req rep ≡ some ((step req rep.world).0, record rep { world = (step req rep.world).1 })
unfolding handle
handle-leader req rep lead v room = ground (arith, process_req-step req rep.world v room)

-- From a valid database, a leader answers every request of any sequence that leaves room for its
-- versions, with the answers and the final database of the specification.
pub run-leader :
    (reqs : List Request) (rep : Replica)
    → rep.index ≡ rep.leader_index
    → IsValid rep.world
    → rep.world.next_version + length reqs < version_limit
    → run reqs rep ≡ some (answers reqs rep.world, record rep { world = steps reqs rep.world })
unfolding run steps answers
run-leader [] rep lead v room = refl
run-leader (req ∷ reqs) rep lead v room =
    let w' = (step req rep.world).1 in
    let up = next_version-step req rep.world in
    let rep' = record rep { world = w' } in
    ground (
      arith,
      handle-leader req rep lead v (omega arith),
      run-leader reqs rep' lead (step-IsValid req rep.world v) (omega arith),
    )

abbrev pub leader_of : Response → Option ℕ
leader_of (redirection_response r) = some (r.redirection)
leader_of (get_response r) = none
leader_of (put_response r) = none
leader_of (cas_response r) = none
leader_of (remove_response r) = none

-- One response for each request: the error code `redirect`, the serial of the request, and the
-- index of the leader.
abbrev pub AllSentOn : ℕ → List Request → List Response → Type 0
AllSentOn leader [] [] = Unit
AllSentOn leader (req ∷ reqs) (resp ∷ resps) =
    (response_errcode resp ≡ redirect)
    × (response_serial resp ≡ request_serial req)
    × (leader_of resp ≡ some leader)
    × AllSentOn leader reqs resps
AllSentOn leader [] (resp ∷ resps) = ⊥
AllSentOn leader (req ∷ reqs) [] = ⊥

-- A replica that is not the leader answers every request of any sequence with the error code
-- `redirect`, the serial of the request and the index of the leader, and is itself as before, its
-- database included.
pub run-follower :
    (reqs : List Request) (rep : Replica)
    → rep.index ≢ rep.leader_index
    → (resps : List Response) × (run reqs rep ≡ some (resps, rep))
      × AllSentOn rep.leader_index reqs resps
unfolding run handle response_errcode response_serial
run-follower [] rep follow = ([], refl, tt)
run-follower (req ∷ reqs) rep follow =
    let (resps, rest, all) = run-follower reqs rep follow in
    (redirection req rep.leader_index ∷ resps, ground (arith, rest), (refl, refl, refl, all))
