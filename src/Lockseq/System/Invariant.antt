-- ===== src/Lockseq/System/Invariant.antt =====
-- The invariant of the clients, the database and the network: who holds which lock, and what the
-- messages that were sent say of it.
use Prim.Native.Nat.{ℕ, ◌+◌, ◌*◌, ◌%◌, ◌≤◌, ◌<◌}
use traxos.Base.{◌≡◌, ◌⊎◌, Text, Bool, true, false, Option, none, some, [], All}
use traxos.Base.Int.{pos}
use traxos.Pancy.Msgs.{
  Request, get_request, put_request, cas_request, remove_request, request_serial, Response,
  cas_response, remove_response, response_serial,
}
use traxos.Pancy.Db.{World}
use traxos.Pancy.Db.Spec.Valid.{IsValid}
use traxos.Pancy.Db.Spec.Effects.{is_ok}
use traxos.Pancy.Db.Spec.Runs.{Spent}
use traxos.Lockseq.Keys.{make_lock_key, make_value_key}
use traxos.Lockseq.Client.{
  Pc, idle, locking, lock_delay, writing, write_delay, clearing, clear_delay, unlocking, thrown,
  Cstate, nclients, request_at,
}
use traxos.Lockseq.Client.Locks.{Owned}
use traxos.Lockseq.Client.Names.{IsValueOf}
use traxos.Lockseq.System.{System}

abbrev pub lock : Cstate → Text
lock c = make_lock_key c.gid

-- The lock `k` is held by the value `x` under the version `v`, or was given back.
abbrev pub HeldAt : Pc → Text → Text → ℕ → World → Type 0
HeldAt writing k x v w = Owned k x v w
HeldAt write_delay k x v w = Owned k x v w
HeldAt clearing k x v w = Owned k x v w
HeldAt clear_delay k x v w = Owned k x v w
HeldAt unlocking k x v w = Owned k x v w ⊎ Spent v k w
HeldAt pc k x v w = Unit

-- The client has the lock, by its value and its version, or has given it back.
abbrev pub Holds : Pc → Cstate → World → Type 0
Holds pc c w = HeldAt pc (lock c) c.value c.lock_version w

abbrev pub Named : Pc → ℕ → Text → Type 0
Named idle i x = Unit
Named (thrown e) i x = Unit
Named pc i x = IsValueOf i x

pub record ClientInv (n i : ℕ) (c : Cstate) (w : World) : Type 0 where
  pub cid : c.cid ≡ i
  pub owner : c.serial % 4096 ≡ i
  pub low : c.serial ≤ i + 4096 * n
  pub named : Named c.pc i c.value
  pub holds : Holds c.pc c w

-- The request of the client's current serial, if there is one: also between two tries.
abbrev pub asked_at : Pc → Cstate → Option Request
asked_at lock_delay c = request_at locking c
asked_at pc c = request_at pc c

abbrev pub asked : Cstate → Option Request
asked c = asked_at c.pc c

abbrev pub Unlocks : Cstate → Text → ℕ → Type 0
Unlocks c k v = (c.pc ≡ unlocking) × (lock c ≡ k) × (c.lock_version ≡ v)

abbrev pub IsValueKey : Text → Type 0
IsValueKey k = (g : ℕ) × (m : ℕ) × (k ≡ make_value_key g m)

-- What a request can do to a lock, where `c` is the client that sent it.
abbrev pub Kind : Request → Cstate → World → Type 0
Kind (get_request r) c w = Unit
Kind (put_request r) c w = IsValueKey r.key
Kind (cas_request r) c w = r.expected ≡ []
Kind (remove_request r) c w =
    IsValueKey r.key ⊎ ((v : ℕ) × (r.version_match ≡ pos v) × (Spent v r.key w ⊎ Unlocks c r.key v))

abbrev pub owner_of : ℕ → ℕ
owner_of serial = serial % 4096

abbrev pub sender : (ℕ → Cstate) → Request → Cstate
sender clients r = clients (owner_of (request_serial r))

-- A request that was sent, by its sender.
pub record RequestOf (c : Cstate) (w : World) (r : Request) : Type 0 where
  pub past : request_serial r ≤ c.serial
  pub current : request_serial r ≡ c.serial → (asked c ≡ some r) ⊎ (asked c ≡ none)
  pub kind : Kind r c w

pub record RequestInv (clients : ℕ → Cstate) (w : World) (r : Request) : Type 0 where
  pub owner : owner_of (request_serial r) < nclients
  pub known : RequestOf (sender clients r) w r
  pub open known use *

abbrev pub is_locking : Pc → Bool
is_locking locking = true
is_locking lock_delay = true
is_locking pc = false

-- What a response says of the lock of the client `c`, if `c` still waits for it.
abbrev pub Tells : Response → Cstate → World → Type 0
Tells (cas_response m) c w =
    is_locking c.pc ≡ true
    → (is_ok m.errcode ≡ true) ⊎ (m.actual ≡ c.value)
    → Owned (lock c) c.value m.version w
Tells (remove_response m) c w = c.pc ≡ unlocking → Spent c.lock_version (lock c) w
Tells m c w = Unit

abbrev pub receiver : (ℕ → Cstate) → Response → Cstate
receiver clients m = clients (owner_of (response_serial m))

pub record ResponseOf (c : Cstate) (w : World) (m : Response) : Type 0 where
  pub past : response_serial m ≤ c.serial
  pub tells : response_serial m ≡ c.serial → Tells m c w

pub record ResponseInv (clients : ℕ → Cstate) (w : World) (m : Response) : Type 0 where
  pub owner : owner_of (response_serial m) < nclients
  pub known : ResponseOf (receiver clients m) w m
  pub open known use *

pub record Inv (n : ℕ) (s : System) : Type 0 where
  pub valid : IsValid s.world
  pub clients : (i : ℕ) → i < nclients → ClientInv n i (s.clients i) s.world
  pub requests : All (RequestInv s.clients s.world) s.requests
  pub responses : All (ResponseInv s.clients s.world) s.responses
