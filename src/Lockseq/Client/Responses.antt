-- ===== src/Lockseq/Client/Responses.antt =====
-- The response to the request of a phase, by what it does to the lock.
use traxos.Base.{
  ℕ, ◌+◌, ◌≡◌, inl, inr, refl, not, ◌&&◌, arith, text_eq, text_eq_iff, ◌==◌, Bool-cases, ltb,
}
use traxos.Pancy.Msgs.{no_match, ModResponse, cas_response, remove_response}
use traxos.Pancy.Db.Spec.Effects.{is_ok}
use traxos.Pancy.Print.{is_no_match}
use traxos.Lockseq.{starts_with}
use traxos.Lockseq.Client.{
  idle, locking, lock_delay, writing, write_delay, clearing, clear_delay, thrown, Cstate,
  client_key_prefix, unlock_phase, write_phase, try_again, no_response, lock_response,
  write_response, clear_response, unlock_response, Event, answer, is_not_found,
}
use traxos.Lockseq.Client.Moves.{
  Moved, retries, yields, rests, throws, takes, goes, moved_to, unlock_phase-Goes, write_phase-Goes,
}

pub lock_response-Moved :
    (resp : ModResponse) (drawn : ℕ) (c : Cstate)
    → c.pc ≡ locking
    → resp.serial ≡ c.serial
    → Moved (answer (cas_response resp) drawn) c (lock_response resp c)
unfolding lock_response
lock_response-Moved resp drawn c at e =
    let own = text_eq resp.actual c.value && ltb 0 c.tries in
    let took = write_phase-Goes resp.version c in
    elim (Bool-cases (is_ok resp.errcode)) [
      | inl win ↦
          let to : lock_response resp c ≡ write_phase resp.version c = ground arith in
          rw to (takes took.0 at (e, inl win, took.1))
      | inr lost ↦ elim (Bool-cases (is_no_match resp.errcode)) [
        | inr other ↦
            let to : lock_response resp c ≡ record c { pc = thrown resp.errcode } = ground arith in
            rw to (throws (moved_to c _ refl refl refl refl refl) refl (λ u. absurd cc))
        | inl match ↦ elim (Bool-cases own) [
          | inl mine ↦
              let to : lock_response resp c ≡ write_phase resp.version c = ground arith in
              let same : resp.actual ≡ c.value = ground (arith, text_eq_iff resp.actual c.value) in
              rw to (takes took.0 at (e, inr same, took.1))
          | inr other ↦ elim (Bool-cases (starts_with resp.actual (client_key_prefix c))) [
            | inl prefix ↦
                let to : lock_response resp c ≡ record c { pc = lock_delay } = ground arith in
                rw to (yields (moved_to c _ refl refl refl refl refl) at refl)
            | inr foreign ↦
                let to : lock_response resp c ≡ record c { pc = thrown no_match } = ground arith in
                rw to (throws (moved_to c _ refl refl refl refl refl) refl (λ u. absurd cc))
          ]
        ]
      ]
    ]

pub write_response-Moved :
    (resp : ModResponse) (e : Event) (c : Cstate)
    → c.pc ≡ writing
    → Moved e c (write_response resp c)
unfolding write_response
write_response-Moved resp e c at = elim (Bool-cases (is_ok resp.errcode)) [
  | inl win ↦
      let to : write_response resp c ≡ record c { n = c.n + 1; pc = write_delay } = ground arith in
      rw to (rests (moved_to c _ refl refl refl refl refl) (ground arith) refl)
  | inr lost ↦
      let to : write_response resp c ≡ record c { pc = thrown resp.errcode } = ground arith in
      rw to (throws (moved_to c _ refl refl refl refl refl) refl (λ u. absurd cc))
]

pub clear_response-Moved :
    (resp : ModResponse) (e : Event) (c : Cstate)
    → c.pc ≡ clearing
    → Moved e c (clear_response resp c)
unfolding clear_response
clear_response-Moved resp e c at =
    let next : Moved e c (record c { n = c.n + 1; pc = clear_delay }) =
      rests (moved_to c _ refl refl refl refl refl) (ground arith) refl in
    elim (Bool-cases (is_ok resp.errcode)) [
      | inl win ↦
          let to : clear_response resp c ≡ record c { n = c.n + 1; pc = clear_delay } =
            ground arith in
          rw to next
      | inr lost ↦ elim (Bool-cases (is_not_found resp.errcode)) [
        | inr other ↦
            let to : clear_response resp c ≡ record c { pc = thrown resp.errcode } = ground arith in
            rw to (throws (moved_to c _ refl refl refl refl refl) refl (λ u. absurd cc))
        | inl gone ↦ elim (Bool-cases (c.tries == 0)) [
          | inl first ↦
              let to : clear_response resp c ≡ unlock_phase c = ground arith in
              let went = unlock_phase-Goes c in rw to (goes went.0 (ground arith) went.1)
          | inr again ↦
              let to : clear_response resp c ≡ record c { n = c.n + 1; pc = clear_delay } =
                ground arith in
              rw to next
        ]
      ]
    ]

pub unlock_response-Moved :
    (resp : ModResponse) (drawn : ℕ) (c : Cstate)
    → resp.serial ≡ c.serial
    → Moved (answer (remove_response resp) drawn) c (unlock_response resp c)
unfolding unlock_response
unlock_response-Moved resp drawn c e =
    elim (Bool-cases (not (is_ok resp.errcode) && c.tries == 0)) [
      | inl bad ↦
          let to : unlock_response resp c ≡ record c { pc = thrown resp.errcode } = ground arith in
          rw to (throws (moved_to c _ refl refl refl refl refl) refl (λ u. e))
      | inr good ↦
          let to : unlock_response resp c
              ≡ record c { unlock_complete = c.unlock_complete + 1; pc = idle } =
            ground arith in
          rw to (throws (moved_to c _ refl refl refl refl refl) refl (λ u. e))
    ]

pub no_response-Moved :
    (e : Event) (drawn leader : ℕ) (c : Cstate)
    → Moved e c (no_response drawn (record c { leader = leader }))
unfolding no_response try_again
no_response-Moved e drawn leader c = retries (moved_to c _ refl refl refl refl refl) refl refl
