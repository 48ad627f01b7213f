-- ===== src/Lockseq/Timely/Events.antt =====
-- An event of a client, for the group that it owns and for its draws.
use traxos.Base.{
  ℕ, ◌+◌, ◌^◌, ◌<◌, ◌≡◌, ◌⊎◌, inl, inr, refl, Text, true, Option, none, some, arith, Option-cases,
}
use mathlib.Core.Path.{subst}
use traxos.OrdMap.{OrdMap}
use traxos.Client.{receive, as_answer}
use traxos.Pancy.Msgs.{Request, Response, put_response, cas_response, remove_response}
use traxos.Pancy.Db.{Vv}
use traxos.Pancy.Db.Spec.Effects.{is_ok}
use traxos.Lockseq.Client.{
  Pc, idle, locking, lock_delay, writing, write_delay, clearing, clear_delay, unlocking, thrown,
  Cstate, Event, begin, answer, timeout, delay, clear_loop, write_loop, try_again, no_response,
  lock_response, write_response, clear_response, respond, modification, received, request_at,
  request_of, start_at, resume, advance,
}
use traxos.Lockseq.Client.Moves.{is_holding}
use traxos.Lockseq.Timely.{InTime}
use traxos.Lockseq.Timely.Status.{PhaseAt, Phase}
use traxos.Lockseq.Timely.Acts.{
  retry-PhaseAt, clear_loop-Phase, write_loop-Phase, lock_response-Phase, write_response-Phase,
  clear_response-Phase,
}

-- The owner of the lock is told its version.
abbrev pub Granted : Event → Vv → Cstate → Type 0
Granted (answer (cas_response r) drawn) v c =
    c.pc ≡ locking → (is_ok r.errcode ≡ true) ⊎ (r.actual ≡ c.value) → v.version ≡ r.version
Granted e v c = Unit

module _ (m : OrdMap Text Vv) (g : ℕ) (v : Vv) (c : Cstate) (mail : Option Response)
    (small : c.tries + 1 < 2 ^ 32) (version : is_holding c.pc ≡ true → v.version ≡ c.lock_version)
    (phase : Phase m g v c mail) where
  here : (pc : Pc) → c.pc ≡ pc → PhaseAt pc m g v c mail
  here pc at = subst (λ pc. PhaseAt pc m g v c mail) at phase

  leader-PhaseAt :
      (pc : Pc) (leader : ℕ)
      → PhaseAt pc m g v c mail
      → PhaseAt pc m g v (record c { leader = leader }) mail
  leader-PhaseAt idle leader p = p
  leader-PhaseAt locking leader p = p
  leader-PhaseAt lock_delay leader p = p
  leader-PhaseAt writing leader p = p
  leader-PhaseAt write_delay leader p = p
  leader-PhaseAt clearing leader p = p
  leader-PhaseAt clear_delay leader p = p
  leader-PhaseAt unlocking leader p = p
  leader-PhaseAt (thrown e) leader p = p

  answer-Phase :
      (pc : Pc) (msg : Response) (drawn : ℕ) (req : Request)
      → c.pc ≡ pc
      → request_at pc c ≡ some req
      → mail ≡ some msg
      → Granted (answer msg drawn) v c
      → Phase m g v (received req msg drawn c) none
  unfolding received respond modification request_at no_response try_again
  answer-Phase locking (cas_response r) drawn req at e q told =
      let to : received req (cas_response r) drawn c ≡ lock_response r c = ground arith in
      rw to (lock_response-Phase m g v r c (told at) (here locking at))
  answer-Phase writing (put_response r) drawn req at e q told =
      let to : received req (put_response r) drawn c ≡ write_response r c = ground arith in
      rw to (write_response-Phase m g v r c mail q (here writing at))
  answer-Phase clearing (remove_response r) drawn req at e q told =
      let to : received req (remove_response r) drawn c ≡ clear_response r c = ground arith in
      rw to (clear_response-Phase m g v r c mail (version (ground arith)) q (here clearing at))
  answer-Phase unlocking (remove_response r) drawn req at e q told =
      absurd ((here unlocking at).1 r q)
  answer-Phase pc msg drawn req at e q told =
      let leader = (receive (as_answer req) c.leader msg).1 in
      let to : received req msg drawn c ≡ no_response drawn (record c { leader = leader }) =
        ground arith in
      rw to (
        retry-PhaseAt m g v c.pc (record c { leader = leader }) drawn mail small
          (leader-PhaseAt c.pc leader phase))

  resume-Phase : (pc : Pc) (c' : Cstate) → c.pc ≡ pc → resume pc c ≡ some c' → Phase m g v c' none
  unfolding resume try_again
  resume-Phase lock_delay c' at h =
      let to : try_again (record c { pc = locking }) ≡ c' = ground arith in
      rw (← to) (here lock_delay at)
  resume-Phase write_delay c' at h =
      let to : write_loop c ≡ c' = ground arith in
      let p = here write_delay at in
      rw (← to) (write_loop-Phase m g v c (version (ground arith)) p.0 p.1)
  resume-Phase clear_delay c' at h =
      let to : clear_loop c ≡ c' = ground arith in
      let p = here clear_delay at in
      rw (← to) (clear_loop-Phase m g v c (version (ground arith)) p.0 p.1)
  resume-Phase pc c' at h = absurd (ground arith)

  start-Phase :
      (pc : Pc) (gid : ℕ) (hex : Text) (nvalues : ℕ) (c' : Cstate)
      → c.pc ≡ pc
      → start_at pc gid hex nvalues c ≡ some c'
      → Phase m g v c' none
  unfolding start_at
  start-Phase idle gid hex nvalues c' at h = absurd (here idle at)
  start-Phase pc gid hex nvalues c' at h = absurd (ground arith)

  pub advance-Phase :
      (e : Event) (c' : Cstate)
      → InTime e mail
      → Granted e v c
      → advance e c ≡ some c'
      → Phase m g v c' none
  unfolding advance no_response try_again
  advance-Phase (begin gid hex nvalues) c' now told h = start-Phase c.pc gid hex nvalues c' refl h
  advance-Phase delay c' now told h = resume-Phase c.pc c' refl h
  advance-Phase (timeout drawn) c' now told h = elim (Option-cases (request_of c)) [
    | inl gone ↦ absurd (ground arith)
    | inr (req, asks) ↦
        let to : no_response drawn c ≡ c' = ground arith in
        rw (← to) (retry-PhaseAt m g v c.pc c drawn mail small phase)
  ]
  advance-Phase (answer msg drawn) c' now told h = elim (Option-cases (request_of c)) [
    | inl gone ↦ absurd (ground arith)
    | inr (req, asks) ↦
        let to : received req msg drawn c ≡ c' = ground arith in
        rw (← to) (answer-Phase c.pc msg drawn req refl asks now told)
  ]
