-- ===== src/Lockseq/Client/Turns.antt =====
-- A client of pset4/lockseq_model.cc with a leader that answers each request at once.
use traxos.Base.{
  ℕ, zero, suc, ◌+◌, ◌≤◌, ◌<◌, ◌≡◌, refl, Option, none, some, [], arith, text_ordered,
}
use traxos.Base.Int.{pos}
use traxos.Pancy.Msgs.{
  any_version, put_request, cas_request, remove_request, response_serial, PutRequest, CasRequest,
  RemoveRequest,
}
use traxos.Pancy.Db.{World, Vv}
use traxos.OrdMap.{find}
use traxos.Pancy.Db.Spec.{view, step}
use traxos.Client.{receive}
use traxos.Lockseq.Keys.{make_lock_key, make_value_key}
use traxos.Lockseq.Client.{
  Cstate, idle, locking, writing, write_delay, clearing, clear_delay, answer, delay, advance,
  request_of, next_request, received, respond, write_response, modification, request_at, resume,
  write_loop, clear_loop, unlock_phase, lock_response, clear_response, unlock_response, write_phase,
  is_not_found,
}

-- The next event: the answer to what the client asks, or the end of its delay.
pub turn : Cstate × World → Option (Cstate × World)
turn (c, w) = elim (request_of c) [
  | none ↦ elim (advance delay c) [ none ↦ none | some c' ↦ some (c', w) ]
  | some r ↦ elim (advance (answer (step r w).0 0) c) [
    | none ↦ none
    | some c' ↦ some (c', (step r w).1)
  ]
]

pub turns : ℕ → Cstate × World → Option (Cstate × World)
turns zero s = some s
turns (suc k) s = elim (turn s) [ none ↦ none | some t ↦ turns k t ]

-- Within `k` turns it comes to a state with `P`.
pub record Comes (k : ℕ) (P : Cstate × World → Type 0) (s : Cstate × World) : Type 0 where
  pub count : ℕ
  pub within : count ≤ k
  pub final : Cstate × World
  pub runs : turns count s ≡ some final
  pub holds : P final

pub Comes-now : (k : ℕ) (P : Cstate × World → Type 0) (s : Cstate × World) → P s → Comes k P s
unfolding turns
Comes-now k P s p = record { count = 0; within = omega arith; final = s; runs = refl; holds = p }

pub Comes-turn :
    (k m : ℕ) (P : Cstate × World → Type 0) (s t : Cstate × World)
    → turn s ≡ some t
    → Comes k P t
    → k < m
    → Comes m P s
unfolding turns
Comes-turn k m P s t e h lt = record {
  count = suc h.count;
  within = let le = h.within in omega arith;
  final = h.final;
  runs = let rest = h.runs in ground arith;
  holds = h.holds;
}

abbrev pub put_of : Cstate → PutRequest
put_of c = record {
  serial = c.serial;
  key = make_value_key c.gid c.n;
  value = c.value;
  version_match = any_version;
}

pub put-turn :
    (c : Cstate) (w : World)
    → turn (next_request writing c, w)
      ≡ some (
        record (next_request writing c) { n = c.n + 1; pc = write_delay },
        (step (put_request (put_of (next_request writing c))) w).1,
      )
unfolding turn next_request advance received respond write_response modification request_at step
    receive response_serial
put-turn c w = ground arith

pub write_delay-turn :
    (c : Cstate) (w : World) → c.pc ≡ write_delay → turn (c, w) ≡ some (write_loop c, w)
unfolding turn advance request_at resume
write_delay-turn c w at = rw at refl

pub clear_delay-turn :
    (c : Cstate) (w : World) → c.pc ≡ clear_delay → turn (c, w) ≡ some (clear_loop c, w)
unfolding turn advance request_at resume
clear_delay-turn c w at = rw at refl

abbrev pub clear_of : Cstate → RemoveRequest
clear_of c = record {
  serial = c.serial;
  key = make_value_key c.gid c.n;
  version_match = any_version;
}

pub clear-turn_gone :
    (c : Cstate) (w : World)
    → find (make_value_key c.gid c.n) w.db ≡ none
    → turn (next_request clearing c, w) ≡ some (unlock_phase (next_request clearing c), w)
unfolding turn next_request advance received respond clear_response modification request_at step
    receive response_serial is_not_found
clear-turn_gone c w gone = ground arith

pub clear-turn_found :
    (c : Cstate) (w : World) (v : Vv)
    → find (make_value_key c.gid c.n) w.db ≡ some v
    → turn (next_request clearing c, w)
      ≡ some (
        record (next_request clearing c) { n = c.n + 1; pc = clear_delay },
        (step (remove_request (clear_of (next_request clearing c))) w).1,
      )
unfolding turn next_request advance received respond clear_response modification request_at step
    receive response_serial
clear-turn_found c w v found = ground arith

abbrev pub unlock_of : Cstate → RemoveRequest
unlock_of c = record {
  serial = c.serial;
  key = make_lock_key c.gid;
  version_match = pos c.lock_version;
}

pub unlock-turn :
    (c : Cstate) (w : World) (v : Vv)
    → find (make_lock_key c.gid) w.db ≡ some v
    → v.version ≡ c.lock_version
    → turn (unlock_phase c, w)
      ≡ some (
        record (unlock_phase c) { unlock_complete = c.unlock_complete + 1; pc = idle },
        (step (remove_request (unlock_of (unlock_phase c))) w).1,
      )
unfolding turn unlock_phase next_request advance received respond unlock_response modification
    request_at step receive response_serial
unlock-turn c w v found same = ground arith

abbrev pub lock_of : Cstate → CasRequest
lock_of c = record {
  serial = c.serial;
  key = make_lock_key c.gid;
  expected = [];
  desired = c.value;
  version_match = any_version;
}

pub lock-turn :
    (c : Cstate) (w : World)
    → c.pc ≡ locking
    → (view w (make_lock_key c.gid)).value ≡ []
    → turn (c, w) ≡ some (write_phase w.next_version c, (step (cas_request (lock_of c)) w).1)
unfolding turn advance received respond lock_response modification request_at step receive
    response_serial
lock-turn c w at free = ground arith

pub Comes-le :
    (k m : ℕ) (P : Cstate × World → Type 0) (s : Cstate × World) → k ≤ m → Comes k P s → Comes m P s
Comes-le k m P s le h = record {
  count = h.count;
  within = let first = h.within in omega arith;
  final = h.final;
  runs = h.runs;
  holds = h.holds;
}
