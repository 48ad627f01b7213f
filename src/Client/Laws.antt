-- ===== src/Client/Laws.antt =====
-- A client and the replica that it asks.
use traxos.Base.{
  ℕ, ◌+◌, ◌%◌, ◌^◌, ◌<◌, ◌≡◌, ◌≢◌, refl, Option, none, some, List, [], ◌∷◌, ◌++◌, All, arith,
  ==_iff,
}
use traxos.Base.Bits.{bit_and_4095}
use traxos.Pancy.Msgs.{
  Request, get_request, put_request, cas_request, remove_request, Response, response_serial,
  request_serial,
}
use traxos.Pancy.Db.{World, version_limit}
use traxos.Pancy.Db.Spec.{step}
use traxos.Pancy.Db.Spec.Valid.{IsValid}
use traxos.Pancy.Db.Spec.Effects.{serial-step}
use traxos.Replica.{Replica, handle, handle-leader, redirection}
use traxos.Client.{client_of, serial_step, as_answer, receive, receive_response}

-- The next serial of a client, with its 64-bit wrap-around, is of the same client.
pub client_of-next : (serial : ℕ) → client_of ((serial + serial_step) % 2 ^ 64) ≡ client_of serial
client_of-next serial =
    omega (arith, bit_and_4095 ((serial + serial_step) % 2 ^ 64), bit_and_4095 serial)

abbrev pub Stale : ℕ → List Response → Type 0
Stale serial = All (λ m. response_serial m ≢ serial)

receive-step :
    (r : Request) (replicaid : ℕ) (w : World)
    → receive (as_answer r) replicaid (step r w).0 ≡ (some ((step r w).0), replicaid)
unfolding step receive
receive-step (get_request q) replicaid w = ground arith
receive-step (put_request q) replicaid w = ground arith
receive-step (cas_request q) replicaid w = ground arith
receive-step (remove_request q) replicaid w = ground arith

module _ {ℓ} {R : Type ℓ} (as_resp : Response → Option R) (replicaid : ℕ) where
  received :
      (serial : ℕ) (stale : List Response) (m : Response) (rest : List Response)
      → Stale serial stale
      → response_serial m ≡ serial
      → receive_response as_resp replicaid serial (stale ++ m ∷ rest)
        ≡ some (receive as_resp replicaid m, rest)
  unfolding receive_response
  received serial [] m rest h e = ground (arith, ==_iff (response_serial m) serial)
  received serial (s ∷ ss) m rest h e =
      ground (arith, h.0, ==_iff (response_serial s) serial, received serial ss m rest h.1 e)

  -- A client sends a request to a replica that is not the leader. Where the responses at its port
  -- are stale ones of other serials and then the answer of the replica, it receives nothing, and
  -- asks the leader from then on.
  pub redirected :
      (r : Request) (rep rep' : Replica) (stale : List Response) (resp : Response)
      (rest : List Response)
      → rep.index ≢ rep.leader_index
      → Stale (request_serial r) stale
      → handle r rep ≡ some (resp, rep')
      → receive_response as_resp replicaid (request_serial r) (stale ++ resp ∷ rest)
        ≡ some ((none, rep.leader_index), rest)
  unfolding handle receive response_serial
  redirected r rep rep' stale resp rest follow h done =
      let answer : redirection r rep.leader_index ≡ resp = ground arith in
      rw (← answer) (received (request_serial r) stale (redirection r rep.leader_index) rest h refl)

-- A client sends a request to a leader with a valid database and room for one more version. Where
-- the responses at its port are stale ones of other serials and then the answer of the leader, it
-- drops the stale ones and receives that answer, as one of the type it waits for.
pub answered :
    (r : Request) (replicaid : ℕ) (rep rep' : Replica) (stale : List Response) (resp : Response)
    (rest : List Response)
    → rep.index ≡ rep.leader_index
    → IsValid rep.world
    → rep.world.next_version + 1 < version_limit
    → Stale (request_serial r) stale
    → handle r rep ≡ some (resp, rep')
    → receive_response (as_answer r) replicaid (request_serial r) (stale ++ resp ∷ rest)
      ≡ some ((some resp, replicaid), rest)
answered r replicaid rep rep' stale resp rest lead v room h done =
    let all = handle-leader r rep lead v room in
    let answer : (step r rep.world).0 ≡ resp = ground arith in
    rw (← answer) (
      ground (
        arith,
        received (as_answer r) replicaid (request_serial r) stale (step r rep.world).0 rest h
            (serial-step r rep.world),
        receive-step r replicaid rep.world,
      ))
