-- ===== src/Lockseq/Client.antt =====
-- `lockseq_model::client` of pset4/lockseq_model.cc: the coroutine of one client, from one point where
-- it waits to the next. The events are what it waits for: its draws, a response, or a timer.
pub mod Locks
pub mod Names
pub mod Moves
pub mod Responses
pub mod Advances
pub mod Refused
pub mod Turns
pub mod Served
pub mod Round
mod Tests
use traxos.Base.{
  ℕ, ◌+◌, ◌%◌, ◌^◌, Text, Bool, true, false, not, ◌&&◌, if◌then◌else◌, ◌==◌, ltb, Option, none,
  some, [], ◌∷◌, ◌++◌, text_eq,
}
use traxos.Base.Int.{pos}
use traxos.Base.Bytes.{codes}
use traxos.Pancy.Msgs.{
  any_version, Errc, ok, not_found, no_match, Request, put_request, cas_request, remove_request,
  ModResponse, Response, get_response, put_response, cas_response, remove_response,
  redirection_response, response_serial,
}
use traxos.Pancy.Print.{is_no_match}
use traxos.Pancy.Db.Spec.Effects.{is_ok}
use traxos.Client.{serial_step, as_answer, receive}
use traxos.Lockseq.{starts_with}
use traxos.Lockseq.Keys.{make_client_key, make_lock_key, make_value_key}

abbrev pub nclients : ℕ
nclients = 32

abbrev pub ngroups : ℕ
ngroups = 100

abbrev pub max_sequence_length : ℕ
max_sequence_length = 100

-- Where the coroutine waits: before a round, for the response to a request of one of the four phases,
-- or on a delay after one. `thrown` is after its exception.
pub data Pc : Type 0 where
  idle locking lock_delay writing write_delay clearing clear_delay unlocking : Pc
  thrown : Errc → Pc

-- `cstate`, the locals of the coroutine, and how often this client counted up each counter.
pub record Cstate : Type 0 where
  pub cid : ℕ
  pub leader : ℕ
  pub serial : ℕ
  pub gid : ℕ
  pub value : Text
  pub nvalues : ℕ
  pub lock_version : ℕ
  pub n : ℕ
  pub tries : ℕ
  pub pc : Pc
  pub lock_complete : ℕ
  pub write_complete : ℕ
  pub clear_complete : ℕ
  pub unlock_complete : ℕ

-- A client as `start` makes it, with a random leader.
abbrev pub fresh : ℕ → ℕ → Cstate
fresh cid leader = record {
  cid = cid;
  leader = leader;
  serial = cid;
  gid = 0;
  value = [];
  nvalues = 0;
  lock_version = 0;
  n = 0;
  tries = 0;
  pc = idle;
  lock_complete = 0;
  write_complete = 0;
  clear_complete = 0;
  unlock_complete = 0;
}

abbrev pub client_key_prefix : Cstate → Text
client_key_prefix c = make_client_key c.cid ++ codes " "

-- The request of the phase; it is sent again after each timeout, and after the delay in the first.
unfoldable pub request_at : Pc → Cstate → Option Request
request_at locking c = some (
    cas_request (record {
      serial = c.serial;
      key = make_lock_key c.gid;
      expected = [];
      desired = c.value;
      version_match = any_version;
    }))
request_at writing c = some (
    put_request (record {
      serial = c.serial;
      key = make_value_key c.gid c.n;
      value = c.value;
      version_match = any_version;
    }))
request_at clearing c = some (
    remove_request
      (record { serial = c.serial; key = make_value_key c.gid c.n; version_match = any_version }))
request_at unlocking c = some (
    remove_request
      (record { serial = c.serial; key = make_lock_key c.gid; version_match = pos c.lock_version }))
request_at pc c = none

-- What the client waits for a response to.
abbrev pub request_of : Cstate → Option Request
request_of c = request_at c.pc c

-- `serial += serial_step()`, and a new loop of tries.
unfoldable pub next_request : Pc → Cstate → Cstate
next_request pc c = record c { serial = (c.serial + serial_step) % 2 ^ 64; tries = 0; pc = pc }

unfoldable pub unlock_phase : Cstate → Cstate
unfolding next_request
unlock_phase c = next_request unlocking (record c { clear_complete = c.clear_complete + 1 })

-- `while (n < max_sequence_length_)`
unfoldable pub clear_loop : Cstate → Cstate
unfolding next_request unlock_phase
clear_loop c = if ltb c.n max_sequence_length then next_request clearing c else unlock_phase c

-- `while (n != nvalues)`
unfoldable pub write_loop : Cstate → Cstate
unfolding next_request clear_loop
write_loop c =
    if c.n == c.nvalues
    then clear_loop (record c { write_complete = c.write_complete + 1 })
    else next_request writing c

unfoldable pub write_phase : ℕ → Cstate → Cstate
unfolding write_loop
write_phase version c =
    write_loop (record c { lock_version = version; lock_complete = c.lock_complete + 1; n = 0 })

-- `++tries` of an `unsigned`
unfoldable pub try_again : Cstate → Cstate
try_again c = record c { tries = (c.tries + 1) % 2 ^ 32 }

-- `if (!resp)`: every third try a new leader, the drawn one.
unfoldable pub no_response : ℕ → Cstate → Cstate
unfolding try_again
no_response drawn c = try_again (record c { leader = if c.tries % 3 == 2 then drawn else c.leader })

unfoldable pub is_not_found : Errc → Bool
is_not_found not_found = true
is_not_found e = false

unfoldable pub lock_response : ModResponse → Cstate → Cstate
unfolding write_phase starts_with is_no_match
lock_response resp c =
    if is_ok resp.errcode
    then write_phase resp.version c
    else if not (is_no_match resp.errcode)
    then record c { pc = thrown resp.errcode }
    else if text_eq resp.actual c.value && ltb 0 c.tries
    then write_phase resp.version c
    else if not (starts_with resp.actual (client_key_prefix c))
    then record c { pc = thrown no_match }
    else record c { pc = lock_delay }

unfoldable pub write_response : ModResponse → Cstate → Cstate
write_response resp c =
    if not (is_ok resp.errcode)
    then record c { pc = thrown resp.errcode }
    else record c { n = c.n + 1; pc = write_delay }

unfoldable pub clear_response : ModResponse → Cstate → Cstate
unfolding is_not_found unlock_phase
clear_response resp c =
    if is_ok resp.errcode
    then record c { n = c.n + 1; pc = clear_delay }
    else if not (is_not_found resp.errcode)
    then record c { pc = thrown resp.errcode }
    else if c.tries == 0
    then unlock_phase c
    else record c { n = c.n + 1; pc = clear_delay }

unfoldable pub unlock_response : ModResponse → Cstate → Cstate
unlock_response resp c =
    if not (is_ok resp.errcode) && c.tries == 0
    then record c { pc = thrown resp.errcode }
    else record c { unlock_complete = c.unlock_complete + 1; pc = idle }

-- What follows the `co_await` of the response, by the phase.
unfoldable pub respond : Pc → ModResponse → Cstate → Cstate
unfolding lock_response write_response clear_response unlock_response
respond locking resp c = lock_response resp c
respond writing resp c = write_response resp c
respond clearing resp c = clear_response resp c
respond unlocking resp c = unlock_response resp c
respond pc resp c = c

-- The members of a modification response.
unfoldable pub modification : Response → Option ModResponse
modification (put_response r) = some r
modification (cas_response r) = some r
modification (remove_response r) = some r
modification (get_response r) = none
modification (redirection_response r) = none

pub data Event : Type 0 where
  begin : (gid : ℕ) (hex : Text) (nvalues : ℕ) → Event
  answer : (msg : Response) (drawn : ℕ) → Event
  timeout : (drawn : ℕ) → Event
  delay : Event

-- The draws of a round, up to the first request.
unfoldable pub begin_round : ℕ → Text → ℕ → Cstate → Cstate
unfolding next_request
begin_round gid hex nvalues c = next_request locking (record c {
  gid = gid;
  value = client_key_prefix c ++ hex;
  nvalues = nvalues;
  lock_version = 0;
})

-- The end of a delay.
unfoldable pub resume : Pc → Cstate → Option Cstate
unfolding try_again write_loop clear_loop
resume lock_delay c = some (try_again (record c { pc = locking }))
resume write_delay c = some (write_loop c)
resume clear_delay c = some (clear_loop c)
resume pc c = none

unfoldable pub start_at : Pc → ℕ → Text → ℕ → Cstate → Option Cstate
unfolding begin_round
start_at idle gid hex nvalues c = some (begin_round gid hex nvalues c)
start_at pc gid hex nvalues c = none

-- A message for the request that the client waits on: the response itself, or nothing where it is a
-- redirection or of another type.
unfoldable pub received : Request → Response → ℕ → Cstate → Cstate
unfolding respond no_response modification receive
received req msg drawn c =
    let (resp, leader) = receive (as_answer req) c.leader msg in
    let c' = record c { leader = leader } in
    elim resp [
      | none ↦ no_response drawn c'
      | some r ↦ elim (modification r) [
        | none ↦ no_response drawn c'
        | some mod_resp ↦ respond c.pc mod_resp c'
      ]
    ]

-- One event. `none` is that the client does not wait for it; a message with another serial is dropped
-- while the wait goes on, and is no event.
unfoldable pub advance : Event → Cstate → Option Cstate
unfolding start_at resume received no_response request_at
advance (begin gid hex nvalues) c = start_at c.pc gid hex nvalues c
advance (answer msg drawn) c = elim (request_of c) [
  | none ↦ none
  | some req ↦ if response_serial msg == c.serial then some (received req msg drawn c) else none
]
advance (timeout drawn) c = elim (request_of c) [
  | none ↦ none
  | some req ↦ some (no_response drawn c)
]
advance delay c = resume c.pc c
