-- ===== src/Lockseq/Client/Moves.antt =====
-- The moves of a client, by what they do to the lock: every event is one of them.
use traxos.Base.{ℕ, ◌+◌, ◌%◌, ◌^◌, ◌≡◌, ◌⊎◌, Bool, true, false, arith}
use traxos.Pancy.Msgs.{cas_response, remove_response}
use traxos.Pancy.Db.Spec.Effects.{is_ok}
use traxos.Client.{serial_step}
use traxos.Lockseq.Client.{
  Pc, idle, locking, lock_delay, writing, write_delay, clearing, clear_delay, unlocking, thrown,
  Cstate, next_request, unlock_phase, clear_loop, write_loop, write_phase, Event, answer,
}
use traxos.Lockseq.Client.Names.{IsValueOf}

-- Where the lock is held, and the next request is not for it.
abbrev pub is_working : Pc → Bool
is_working writing = true
is_working clearing = true
is_working unlocking = true
is_working pc = false

abbrev pub is_resting : Pc → Bool
is_resting write_delay = true
is_resting clear_delay = true
is_resting pc = false

-- From where such a place is reached, with the lock held.
abbrev pub is_holding : Pc → Bool
is_holding writing = true
is_holding write_delay = true
is_holding clearing = true
is_holding clear_delay = true
is_holding pc = false

abbrev pub is_over : Pc → Bool
is_over idle = true
is_over (thrown e) = true
is_over pc = false

-- The round is the same.
pub record Kept (c c' : Cstate) : Type 0 where
  pub cid : c'.cid ≡ c.cid
  pub gid : c'.gid ≡ c.gid
  pub value : c'.value ≡ c.value

pub record Stays (c c' : Cstate) : Type 0 where
  pub kept : Kept c c'
  pub serial : c'.serial ≡ c.serial
  pub lock_version : c'.lock_version ≡ c.lock_version

pub record Goes (c c' : Cstate) : Type 0 where
  pub kept : Kept c c'
  pub serial : c'.serial ≡ (c.serial + serial_step) % 2 ^ 64
  pub working : is_working c'.pc ≡ true

-- The event is an answer from the lock: that it was taken, or that it has the client's own value.
abbrev pub Grants : Event → Cstate → ℕ → Type 0
Grants (answer (cas_response resp) drawn) c version =
    (resp.serial ≡ c.serial)
    × ((is_ok resp.errcode ≡ true) ⊎ (resp.actual ≡ c.value))
    × (version ≡ resp.version)
Grants e c version = ⊥

-- The event is an answer to a removal.
abbrev pub Removes : Event → Cstate → Type 0
Removes (answer (remove_response resp) drawn) c = resp.serial ≡ c.serial
Removes e c = ⊥

pub data Moved (e : Event) (c c' : Cstate) : Type 0 where
  retries : Stays c c' → c'.pc ≡ c.pc → c'.n ≡ c.n → Moved e c c'
  yields : Stays c c' → c.pc ≡ locking → c'.pc ≡ lock_delay → Moved e c c'
  resumes : Stays c c' → c.pc ≡ lock_delay → c'.pc ≡ locking → Moved e c c'
  rests : Stays c c' → is_holding c.pc ≡ true → is_resting c'.pc ≡ true → Moved e c c'
  throws : Stays c c' → is_over c'.pc ≡ true → (c.pc ≡ unlocking → Removes e c) → Moved e c c'
  starts :
      c.pc ≡ idle
      → c'.cid ≡ c.cid
      → c'.serial ≡ (c.serial + serial_step) % 2 ^ 64
      → IsValueOf c.cid c'.value
      → c'.pc ≡ locking
      → Moved e c c'
  takes : Goes c c' → c.pc ≡ locking → Grants e c c'.lock_version → Moved e c c'
  goes : Goes c c' → is_holding c.pc ≡ true → c'.lock_version ≡ c.lock_version → Moved e c c'

pub unlock_phase-Goes :
    (c : Cstate) → Goes c (unlock_phase c) × ((unlock_phase c).lock_version ≡ c.lock_version)
unfolding unlock_phase next_request
unlock_phase-Goes c = ground arith

pub clear_loop-Goes :
    (c : Cstate) → Goes c (clear_loop c) × ((clear_loop c).lock_version ≡ c.lock_version)
unfolding clear_loop unlock_phase next_request
clear_loop-Goes c = ground arith

pub write_loop-Goes :
    (c : Cstate) → Goes c (write_loop c) × ((write_loop c).lock_version ≡ c.lock_version)
unfolding write_loop clear_loop unlock_phase next_request
write_loop-Goes c = ground arith

pub write_phase-Goes :
    (version : ℕ) (c : Cstate)
    → Goes c (write_phase version c) × ((write_phase version c).lock_version ≡ version)
unfolding write_phase write_loop clear_loop unlock_phase next_request
write_phase-Goes version c = ground arith

-- A change of where the client waits, and of the counts that the lock does not hang on.
pub moved_to :
    (c c' : Cstate)
    → c'.cid ≡ c.cid
    → c'.gid ≡ c.gid
    → c'.value ≡ c.value
    → c'.serial ≡ c.serial
    → c'.lock_version ≡ c.lock_version
    → Stays c c'
moved_to c c' e f g h k = record {
  kept = record { cid = e; gid = f; value = g };
  serial = h;
  lock_version = k;
}
