-- ===== src/Lockseq/Client/Tests.antt =====
-- Runs of the clients of pset4/lockseq_model.cc.
use Prim.Native.Nat.{ℕ, ◌+◌, ◌<◌}
use traxos.Base.{◌≡◌, inl, inr, refl, Text, false, some, none, [], ◌∷◌, ◌++◌, arith}
use traxos.Base.Bytes.{codes, decimal}
use traxos.Pancy.Msgs.{
  Request, Response, any_version, cas_request, cas_response, no_match, response_serial,
}
use traxos.OrdMap.{find}
use traxos.Pancy.Db.{World, init}
use traxos.Pancy.Db.Spec.{step, modified}
use traxos.Lockseq.Keys.{make_lock_key, make_client_key}
use traxos.Lockseq.Client.{
  Cstate, Event, fresh, begin, answer, advance, request_of, request_at, start_at, begin_round,
  next_request, received, respond, lock_response, write_phase, write_loop, locking, thrown, writing,
  modification,
}
use traxos.Client.{receive}
use traxos.Lockseq.Client.Locks.{Owned}
use traxos.Lockseq.Client.Refused.{refused-thrown}
use traxos.Pancy.Db.Spec.Valid.{init-IsValid}
use traxos.Lockseq.Client.Turns.{Comes}
use traxos.Lockseq.Client.Round.{Over, begin_round-Over}
use traxos.Lockseq.Client.Moves.{is_holding}
use traxos.Lockseq.System.{System, act, serve, started, Reach, start, later, update, sent}
use traxos.Lockseq.System.Answered.{Reach-process_req}
use traxos.Pancy.Db.Process.{process_req}
use traxos.Lockseq.System.Safety.{mutual_exclusion, holder-Owned}

abbrev leaders : ℕ → ℕ
leaders i = 0

-- A client that asks for the lock of the group 7.
abbrev asking : ℕ → Text → Cstate
asking i hex = record (fresh i 0) {
  serial = i + 4096;
  gid = 7;
  value = (make_client_key i ++ codes " ") ++ hex;
  nvalues = 2;
  pc = locking;
}

begun : (i : ℕ) (hex : Text) → i < 32 → advance (begin 7 hex 2) (fresh i 0) ≡ some (asking i hex)
unfolding advance start_at begin_round next_request
begun i hex lt = ground arith

abbrev asks : ℕ → Text → Request
asks i hex = cas_request (record {
  serial = i + 4096;
  key = make_lock_key 7;
  expected = [];
  desired = (make_client_key i ++ codes " ") ++ hex;
  version_match = any_version;
})

asked : (i : ℕ) (hex : Text) → request_of (asking i hex) ≡ some (asks i hex)
unfolding request_at
asked i hex = refl

abbrev locked : World
locked = (step (asks 0 (codes "ab")) init).1

abbrev granted : Response
granted = (step (asks 0 (codes "ab")) init).0

abbrev holding : Cstate
holding = record (asking 0 (codes "ab")) {
  serial = 8192;
  lock_version = 1;
  pc = writing;
  lock_complete = 1;
}

taken : advance (answer granted 0) (asking 0 (codes "ab")) ≡ some holding
unfolding advance request_at received respond lock_response write_phase write_loop next_request step
    receive modification response_serial find
taken = refl

abbrev acted : System → ℕ → Cstate → System
acted s i c = record s {
  clients = update s.clients i c;
  requests = sent (request_of c) ++ s.requests;
}

abbrev served : System → Request → System
served s r = record s { world = (step r s.world).1; responses = (step r s.world).0 ∷ s.responses }

-- Two clients ask for the lock of one group, and the first one gets it.
abbrev contended : System
contended =
    acted
      (served (acted (acted (started leaders) 0 (asking 0 (codes "ab"))) 1 (asking 1 (codes "cd")))
        (asks 0 (codes "ab")))
      0 holding

contended_reached : Reach leaders 4 contended
unfolding request_at
contended_reached =
    later
      (later
        (later
          (later start (
            act 0 (begin 7 (codes "ab") 2) (asking 0 (codes "ab")) (omega arith) tt
              (begun 0 (codes "ab") (omega arith))))
          (act 1 (begin 7 (codes "cd") 2) (asking 1 (codes "cd")) (omega arith) tt
            (begun 1 (codes "cd") (omega arith))))
        (serve (asks 0 (codes "ab")) (inr (inl refl))))
      (act 0 (answer granted 0) holding (omega arith) (inl refl) taken)

mutual_exclusion_example : is_holding (contended.clients 1).pc ≡ false
mutual_exclusion_example =
    mutual_exclusion leaders 4 contended (omega arith) contended_reached 0 1 (omega arith)
      (omega arith) (omega arith) refl refl

holder-Owned_example : Owned (make_lock_key 7) holding.value 1 contended.world
holder-Owned_example =
    holder-Owned leaders 4 contended (omega arith) contended_reached 0 (omega arith) refl

refused-thrown_example :
    (advance
        (answer (cas_response (modified 4096 no_match (asking 1 (codes "cd")).value 1 1)) 0)
        (asking 0 (codes "ab"))
      ≡ some (record (asking 0 (codes "ab")) { pc = thrown no_match }))
    × ((ev : Event) → advance ev (record (asking 0 (codes "ab")) { pc = thrown no_match }) ≡ none)
refused-thrown_example =
    refused-thrown (modified 4096 no_match (asking 1 (codes "cd")).value 1 1) 0 0 1
      (asking 0 (codes "ab")) refl refl (record { hex = codes "ab"; written = refl }) refl refl
      (record { hex = codes "cd"; written = refl }) (omega arith)

begin_round-Over_example :
    Comes 206 (Over 7 (codes "c0 ab") 2 1) (begin_round 7 (codes "ab") 2 (fresh 0 0), init)
unfolding decimal find
begin_round-Over_example =
    begin_round-Over (fresh 0 0) init 7 2 (codes "ab") init-IsValid refl (omega arith)

Reach-process_req_example :
    process_req (asks 1 (codes "cd")) contended.world
    ≡ some (step (asks 1 (codes "cd")) contended.world)
Reach-process_req_example =
    Reach-process_req leaders 4 contended (omega arith) contended_reached (asks 1 (codes "cd"))
