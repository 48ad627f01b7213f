-- ===== src/Lockseq/Timely/Acts.antt =====
-- What a step of the owner of a lock does to the group.
use traxos.Base.{
  ℕ, ◌+◌, ◌^◌, ◌≤◌, ◌<◌, ◌≡◌, ◌⊎◌, inl, inr, refl, Text, true, ◌&&◌, Option, none, some, [], arith,
  ltb, ◌==◌, Bool-cases, text_eq, text_eq_iff, text_ordered,
}
use mathlib.Core.Path.{subst}
use traxos.OrdMap.{OrdMap}
use traxos.Pancy.Msgs.{no_match, ModResponse, Response, put_response, remove_response}
use traxos.Pancy.Db.{Vv}
use traxos.Pancy.Db.Spec.Effects.{is_ok}
use traxos.Pancy.Print.{is_no_match}
use traxos.Lockseq.{starts_with}
use traxos.Lockseq.Client.{
  Pc, idle, locking, lock_delay, writing, write_delay, clearing, clear_delay, unlocking, thrown,
  Cstate, client_key_prefix, next_request, unlock_phase, clear_loop, write_loop, write_phase,
  try_again, no_response, lock_response, write_response, clear_response, is_not_found,
  max_sequence_length,
}
use traxos.Lockseq.Groups.{slot}
use traxos.Lockseq.Groups.Slots.{same-Slots}
use traxos.Lockseq.Timely.Status.{Older, Writing, Clearing, PhaseAt, Phase}

module _ (m : OrdMap Text Vv) (g : ℕ) (v : Vv) where
  -- Another try.
  pub retry-PhaseAt :
      (pc : Pc) (c : Cstate) (drawn : ℕ) (mail : Option Response)
      → c.tries + 1 < 2 ^ 32
      → PhaseAt pc m g v c mail
      → PhaseAt pc m g v (no_response drawn c) none
  unfolding no_response try_again
  retry-PhaseAt idle c drawn mail small p = p
  retry-PhaseAt locking c drawn mail small p = p
  retry-PhaseAt lock_delay c drawn mail small p = p
  retry-PhaseAt writing c drawn mail small p = record {
    room = p.room;
    a = p.a;
    near = p.near;
    older = p.older;
    done = λ r e. absurd cc;
  }
  retry-PhaseAt write_delay c drawn mail small p = p
  retry-PhaseAt clearing c drawn mail small p = record {
    past = p.past;
    room = p.room;
    b = p.b;
    near = p.near;
    older = p.older;
    first = λ zero e. absurd (omega arith);
    done = λ r e. absurd cc;
  }
  retry-PhaseAt clear_delay c drawn mail small p = p
  retry-PhaseAt unlocking c drawn mail small p = (p.0, λ r e. cc, p.2)
  retry-PhaseAt (thrown e) c drawn mail small p = p

  pub clear_loop-Phase :
      (c : Cstate)
      → v.version ≡ c.lock_version
      → c.nvalues ≤ c.n
      → Older m g c.nvalues c.value c.n
      → Phase m g v (clear_loop c) none
  unfolding clear_loop next_request unlock_phase
  clear_loop-Phase c ver past o = elim (Bool-cases (ltb c.n max_sequence_length)) [
    | inl more ↦
        let to : clear_loop c ≡ next_request clearing c = ground arith in
        rw to (record {
          past = past;
          room = ground arith;
          b = c.n;
          near = inl refl;
          older = o;
          first = λ zero e. refl;
          done = λ r e. absurd cc;
        })
    | inr end ↦
        let to : clear_loop c ≡ unlock_phase c = ground arith in
        let few = o.few in
        rw to (
          ver,
          λ r e. cc,
          same-Slots m g 0 (slot c.nvalues c.value c.n o.n o.y)
              (slot c.nvalues c.value c.nvalues 0 []) (λ j lt. ground arith) o.slots,
        )
  ]

  pub write_loop-Phase :
      (c : Cstate)
      → v.version ≡ c.lock_version
      → c.n ≤ c.nvalues
      → Older m g c.n c.value c.n
      → Phase m g v (write_loop c) none
  unfolding write_loop next_request
  write_loop-Phase c ver le o = elim (Bool-cases (c.n == c.nvalues)) [
    | inl end ↦
        let to : write_loop c ≡ clear_loop (record c { write_complete = c.write_complete + 1 }) =
          ground arith in
        let eq : c.n ≡ c.nvalues = ground arith in
        rw to (
          clear_loop-Phase (record c { write_complete = c.write_complete + 1 }) ver (ground arith)
            (subst (λ a. Older m g a c.value c.n) eq o))
    | inr more ↦
        let to : write_loop c ≡ next_request writing c = ground arith in
        rw to (record {
          room = ground arith;
          a = c.n;
          near = inl refl;
          older = o;
          done = λ r e. absurd cc;
        })
  ]

  write_phase-Phase :
      (version : ℕ) (c : Cstate)
      → v.version ≡ version
      → Older m g 0 c.value 0
      → Phase m g v (write_phase version c) none
  unfolding write_phase
  write_phase-Phase version c ver o =
      write_loop-Phase
        (record c { lock_version = version; lock_complete = c.lock_complete + 1; n = 0 }) ver
        (omega arith) o

  pub lock_response-Phase :
      (resp : ModResponse) (c : Cstate)
      → ((is_ok resp.errcode ≡ true) ⊎ (resp.actual ≡ c.value) → v.version ≡ resp.version)
      → Older m g 0 c.value 0
      → Phase m g v (lock_response resp c) none
  unfolding lock_response
  lock_response-Phase resp c granted o =
      let own = text_eq resp.actual c.value && ltb 0 c.tries in
      let stopped : (a : ℕ) × (b : ℕ) × (a ≤ b) × Older m g a c.value b = (0, 0, omega arith, o) in
      elim (Bool-cases (is_ok resp.errcode)) [
        | inl win ↦
            let to : lock_response resp c ≡ write_phase resp.version c = ground arith in
            rw to (write_phase-Phase resp.version c (granted (inl win)) o)
        | inr lost ↦ elim (Bool-cases (is_no_match resp.errcode)) [
          | inr other ↦
              let to : lock_response resp c ≡ record c { pc = thrown resp.errcode } =
                ground arith in
              rw to stopped
          | inl match ↦ elim (Bool-cases own) [
            | inl mine ↦
                let to : lock_response resp c ≡ write_phase resp.version c = ground arith in
                let same : resp.actual ≡ c.value =
                  ground (arith, text_eq_iff resp.actual c.value) in
                rw to (write_phase-Phase resp.version c (granted (inr same)) o)
            | inr other ↦ elim (Bool-cases (starts_with resp.actual (client_key_prefix c))) [
              | inl prefix ↦
                  let to : lock_response resp c ≡ record c { pc = lock_delay } = ground arith in
                  rw to o
              | inr foreign ↦
                  let to : lock_response resp c ≡ record c { pc = thrown no_match } =
                    ground arith in
                  rw to stopped
            ]
          ]
        ]
      ]

  pub write_response-Phase :
      (resp : ModResponse) (c : Cstate) (mail : Option Response)
      → mail ≡ some (put_response resp)
      → Writing m g c.n c.nvalues c.value mail
      → Phase m g v (write_response resp c) none
  unfolding write_response
  write_response-Phase resp c mail e p = elim (Bool-cases (is_ok resp.errcode)) [
    | inl win ↦
        let to : write_response resp c ≡ record c { n = c.n + 1; pc = write_delay } =
          ground arith in
        let room = p.room in
        rw to (omega arith, subst (λ a. Older m g a c.value a) (p.done resp e) p.older)
    | inr lost ↦
        let to : write_response resp c ≡ record c { pc = thrown resp.errcode } = ground arith in
        rw to (p.a, p.a, omega arith, p.older)
  ]

  pub clear_response-Phase :
      (resp : ModResponse) (c : Cstate) (mail : Option Response)
      → v.version ≡ c.lock_version
      → mail ≡ some (remove_response resp)
      → Clearing m g c.n c.nvalues c.tries c.value mail
      → Phase m g v (clear_response resp c) none
  unfolding clear_response unlock_phase next_request
  clear_response-Phase resp c mail ver e p =
      let (next, first) = p.done resp e in
      let past = p.past in
      let cleared : Older m g c.nvalues c.value (c.n + 1) =
        subst (Older m g c.nvalues c.value) next p.older in
      elim (Bool-cases (is_ok resp.errcode)) [
        | inl win ↦
            let to : clear_response resp c ≡ record c { n = c.n + 1; pc = clear_delay } =
              ground arith in
            rw to (omega arith, cleared)
        | inr lost ↦ elim (Bool-cases (is_not_found resp.errcode)) [
          | inr other ↦
              let to : clear_response resp c ≡ record c { pc = thrown resp.errcode } =
                ground arith in
              rw to (c.nvalues, c.n + 1, omega arith, cleared)
          | inl gone ↦ elim (Bool-cases (c.tries == 0)) [
            | inl zero ↦
                let to : clear_response resp c ≡ unlock_phase c = ground arith in
                let none_left : p.older.n ≤ c.n = ground (arith, first (ground arith)) in
                rw to (
                  ver,
                  λ r q. cc,
                  same-Slots m g 0 (slot c.nvalues c.value p.b p.older.n p.older.y)
                      (slot c.nvalues c.value c.nvalues 0 []) (λ j lt. ground arith) p.older.slots,
                )
            | inr again ↦
                let to : clear_response resp c ≡ record c { n = c.n + 1; pc = clear_delay } =
                  ground arith in
                rw to (omega arith, cleared)
          ]
        ]
      ]
