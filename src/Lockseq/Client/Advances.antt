-- ===== src/Lockseq/Client/Advances.antt =====
-- The events of a client, as moves.
use traxos.Base.{ℕ, ◌≡◌, inl, inr, refl, Text, some, arith, Option-cases}
use traxos.Pancy.Msgs.{
  Request, Response, cas_response, remove_response, put_response, response_serial,
}
use traxos.Client.{receive, as_answer}
use traxos.Lockseq.Client.{
  Pc, idle, locking, lock_delay, writing, write_delay, clearing, clear_delay, unlocking, Cstate,
  request_at, request_of, next_request, clear_loop, write_loop, try_again, no_response,
  lock_response, write_response, clear_response, unlock_response, respond, modification, Event,
  begin, answer, timeout, delay, begin_round, resume, start_at, received, advance,
}
use traxos.Lockseq.Client.Moves.{
  Moved, resumes, starts, goes, moved_to, clear_loop-Goes, write_loop-Goes,
}
use traxos.Lockseq.Client.Responses.{
  lock_response-Moved, write_response-Moved, clear_response-Moved, unlock_response-Moved,
  no_response-Moved,
}

-- The answer to a request, for the phase that waits for it.
answer-Moved :
    (pc : Pc) (msg : Response) (drawn : ℕ) (c : Cstate) (req : Request)
    → c.pc ≡ pc
    → request_at pc c ≡ some req
    → response_serial msg ≡ c.serial
    → Moved (answer msg drawn) c (received req msg drawn c)
unfolding received respond modification request_at response_serial
answer-Moved locking (cas_response r) drawn c req at e s =
    let to : received req (cas_response r) drawn c ≡ lock_response r c = ground arith in
    rw to (lock_response-Moved r drawn c at s)
answer-Moved writing (put_response r) drawn c req at e s =
    let to : received req (put_response r) drawn c ≡ write_response r c = ground arith in
    rw to (write_response-Moved r _ c at)
answer-Moved clearing (remove_response r) drawn c req at e s =
    let to : received req (remove_response r) drawn c ≡ clear_response r c = ground arith in
    rw to (clear_response-Moved r _ c at)
answer-Moved unlocking (remove_response r) drawn c req at e s =
    let to : received req (remove_response r) drawn c ≡ unlock_response r c = ground arith in
    rw to (unlock_response-Moved r drawn c s)
answer-Moved pc msg drawn c req at e s =
    let leader = (receive (as_answer req) c.leader msg).1 in
    let to : received req msg drawn c ≡ no_response drawn (record c { leader = leader }) =
      ground arith in
    rw to (no_response-Moved _ drawn leader c)

start-Moved :
    (pc : Pc) (gid : ℕ) (hex : Text) (nvalues : ℕ) (c c' : Cstate)
    → c.pc ≡ pc
    → start_at pc gid hex nvalues c ≡ some c'
    → Moved (begin gid hex nvalues) c c'
unfolding start_at begin_round next_request
start-Moved idle gid hex nvalues c c' at h =
    let to : begin_round gid hex nvalues c ≡ c' = ground arith in
    rw (← to) (starts at refl refl (record { hex = hex; written = refl }) refl)
start-Moved pc gid hex nvalues c c' at h = absurd (ground arith)

resume-Moved : (pc : Pc) (c c' : Cstate) → c.pc ≡ pc → resume pc c ≡ some c' → Moved delay c c'
unfolding resume try_again
resume-Moved lock_delay c c' at h =
    let to : try_again (record c { pc = locking }) ≡ c' = ground arith in
    rw (← to) (resumes (moved_to c _ refl refl refl refl refl) at refl)
resume-Moved write_delay c c' at h =
    let to : write_loop c ≡ c' = ground arith in
    let went = write_loop-Goes c in rw (← to) (goes went.0 (ground arith) went.1)
resume-Moved clear_delay c c' at h =
    let to : clear_loop c ≡ c' = ground arith in
    let went = clear_loop-Goes c in rw (← to) (goes went.0 (ground arith) went.1)
resume-Moved pc c c' at h = absurd (ground arith)

pub advance-Moved : (e : Event) (c c' : Cstate) → advance e c ≡ some c' → Moved e c c'
unfolding advance
advance-Moved (begin gid hex nvalues) c c' h = start-Moved c.pc gid hex nvalues c c' refl h
advance-Moved delay c c' h = resume-Moved c.pc c c' refl h
advance-Moved (timeout drawn) c c' h = elim (Option-cases (request_of c)) [
  | inl gone ↦ absurd (ground arith)
  | inr (req, asks) ↦
      let to : no_response drawn c ≡ c' = ground arith in
      rw (← to) (no_response-Moved (timeout drawn) drawn c.leader c)
]
advance-Moved (answer msg drawn) c c' h = elim (Option-cases (request_of c)) [
  | inl gone ↦ absurd (ground arith)
  | inr (req, asks) ↦
      let serial : response_serial msg ≡ c.serial = ground arith in
      let to : received req msg drawn c ≡ c' = ground arith in
      rw (← to) (answer-Moved c.pc msg drawn c req refl asks serial)
]
