-- ===== src/Lockseq/Timely/Ranges.antt =====
-- What the clients have drawn, within the ranges, and how often they try.
use traxos.Base.{
  ℕ, ◌+◌, ◌≤◌, ◌≡◌, inl, inr, refl, Text, some, ◌++◌, arith, Option-cases, length, length-append,
}
use traxos.Base.Bytes.{codes}
use traxos.Client.{receive, as_answer}
use traxos.Pancy.Msgs.{ModResponse, Request, Response}
use traxos.Lockseq.{char_at}
use traxos.Lockseq.Keys.{make_client_key}
use traxos.Lockseq.Client.{
  Pc, idle, locking, lock_delay, writing, write_delay, clearing, clear_delay, unlocking, Cstate,
  Event, begin, answer, timeout, delay, clear_loop, write_loop, write_phase, next_request,
  unlock_phase, try_again, no_response, lock_response, write_response, clear_response,
  unlock_response, respond, modification, received, request_of, start_at, begin_round, resume,
  advance,
}
use traxos.Lockseq.Groups.{IsHolder}
use traxos.Lockseq.Timely.{Drawn}
use traxos.Lockseq.Timely.Status.{Draws}

-- The round is the same, with one more try at most.
abbrev Same : Cstate → Cstate → Type 0
Same c c' =
    (c'.gid ≡ c.gid) × (c'.nvalues ≡ c.nvalues) × (c'.value ≡ c.value) × (c'.tries ≤ c.tries + 1)

clear_loop-Same : (c : Cstate) → Same c (clear_loop c)
unfolding clear_loop unlock_phase next_request
clear_loop-Same c = ground arith

write_loop-Same : (c : Cstate) → Same c (write_loop c)
unfolding write_loop clear_loop unlock_phase next_request
write_loop-Same c = ground arith

no_response-Same : (drawn : ℕ) (c : Cstate) → Same c (no_response drawn c)
unfolding no_response try_again
no_response-Same drawn c = ground arith

lock_response-Same : (r : ModResponse) (c : Cstate) → Same c (lock_response r c)
unfolding lock_response write_phase
lock_response-Same r c =
    let p =
      write_loop-Same
        (record c { lock_version = r.version; lock_complete = c.lock_complete + 1; n = 0 }) in
    ground arith

other_response-Same :
    (r : ModResponse) (c : Cstate)
    → Same c (write_response r c) × Same c (clear_response r c) × Same c (unlock_response r c)
unfolding write_response clear_response unlock_response unlock_phase next_request
other_response-Same r c = (ground arith, ground arith, ground arith)

respond-Same : (pc : Pc) (r : ModResponse) (c : Cstate) → Same c (respond pc r c)
unfolding respond
respond-Same locking r c = lock_response-Same r c
respond-Same writing r c = (other_response-Same r c).0
respond-Same clearing r c = (other_response-Same r c).1
respond-Same unlocking r c = (other_response-Same r c).2
respond-Same pc r c = (refl, refl, refl, omega arith)

received-Same :
    (req : Request) (msg : Response) (drawn : ℕ) (c : Cstate) → Same c (received req msg drawn c)
unfolding received
received-Same req msg drawn c =
    let out = receive (as_answer req) c.leader msg in
    let c' = record c { leader = out.1 } in
    let nothing = no_response-Same drawn c' in
    elim (Option-cases out.0) [
      | inl gone ↦
          let to : received req msg drawn c ≡ no_response drawn c' = ground arith in rw to nothing
      | inr (r, got) ↦ elim (Option-cases (modification r)) [
        | inl other ↦
            let to : received req msg drawn c ≡ no_response drawn c' = ground arith in rw to nothing
        | inr (resp, is) ↦
            let to : received req msg drawn c ≡ respond c.pc resp c' = ground arith in
            rw to (respond-Same c.pc resp c')
      ]
    ]

resume-Same : (pc : Pc) (c c' : Cstate) → resume pc c ≡ some c' → Same c c'
unfolding resume try_again
resume-Same lock_delay c c' h =
    let to : try_again (record c { pc = locking }) ≡ c' = ground arith in
    rw (← to) (refl, refl, refl, omega arith)
resume-Same write_delay c c' h =
    let to : write_loop c ≡ c' = ground arith in rw (← to) (write_loop-Same c)
resume-Same clear_delay c c' h =
    let to : clear_loop c ≡ c' = ground arith in rw (← to) (clear_loop-Same c)
resume-Same pc c c' h = absurd (ground arith)

Same-Draws : (n : ℕ) (c c' : Cstate) → Same c c' → Draws n c → Draws (n + 1) c'
Same-Draws n c c' s d =
    let gid = d.gid in
    let many = d.nvalues in
    let tries = d.tries in
    record {
      gid = ground arith;
      nvalues = ground arith;
      tries = omega arith;
      value = ground (arith, d.value);
    }

drawn-IsHolder :
    (hex : Text) (i : ℕ) → length hex ≡ 7 → IsHolder ((make_client_key i ++ codes " ") ++ hex)
unfolding char_at
drawn-IsHolder hex i long =
    (refl, omega (arith, length-append (make_client_key i ++ codes " ") hex))

start-Draws :
    (pc : Pc) (n gid : ℕ) (hex : Text) (nvalues : ℕ) (c c' : Cstate)
    → Drawn (begin gid hex nvalues)
    → start_at pc gid hex nvalues c ≡ some c'
    → Draws n c
    → Draws (n + 1) c'
unfolding start_at begin_round next_request
start-Draws idle n gid hex nvalues c c' drawn h d =
    let to : begin_round gid hex nvalues c ≡ c' = ground arith in
    rw (← to) (record {
      gid = drawn.0;
      nvalues = drawn.3;
      tries = omega arith;
      value = inr (drawn-IsHolder hex c.cid drawn.1);
    })
start-Draws pc n gid hex nvalues c c' drawn h d = absurd (ground arith)

pub advance-Draws :
    (e : Event) (n : ℕ) (c c' : Cstate)
    → Drawn e
    → advance e c ≡ some c'
    → Draws n c
    → Draws (n + 1) c'
unfolding advance
advance-Draws (begin gid hex nvalues) n c c' drawn h d =
    start-Draws c.pc n gid hex nvalues c c' drawn h d
advance-Draws delay n c c' drawn h d = Same-Draws n c c' (resume-Same c.pc c c' h) d
advance-Draws (timeout x) n c c' drawn h d = elim (Option-cases (request_of c)) [
  | inl gone ↦ absurd (ground arith)
  | inr (req, asks) ↦
      let to : no_response x c ≡ c' = ground arith in
      Same-Draws n c c' (rw (← to) (no_response-Same x c)) d
]
advance-Draws (answer msg x) n c c' drawn h d = elim (Option-cases (request_of c)) [
  | inl gone ↦ absurd (ground arith)
  | inr (req, asks) ↦
      let to : received req msg x c ≡ c' = ground arith in
      Same-Draws n c c' (rw (← to) (received-Same req msg x c)) d
]
