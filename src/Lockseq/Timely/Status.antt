-- ===== src/Lockseq/Timely/Status.antt =====
-- The invariant of the groups: what each holds, by the place where the owner of its lock is.
use traxos.Base.{ℕ, ◌+◌, ◌≤◌, ◌<◌, ◌≡◌, ◌≢◌, ◌⊎◌, Text, true, Option, none, some, [], text_ordered}
use traxos.OrdMap.{OrdMap, find}
use traxos.Pancy.Msgs.{Response, put_response, remove_response}
use traxos.Pancy.Db.{Vv, World}
use traxos.Pancy.Db.Spec.Effects.{is_ok}
use traxos.Lockseq.Keys.{make_lock_key}
use traxos.Lockseq.Client.{
  Pc, idle, locking, lock_delay, writing, write_delay, clearing, clear_delay, unlocking, thrown,
  Cstate, nclients, ngroups, max_sequence_length,
}
use traxos.Lockseq.Client.Names.{IsValueOf}
use traxos.Lockseq.Groups.{slot, Slots, IsHolder, AllKeys}

-- The group has `a` values `x`, and from `b` on it has older values.
pub record Older (m : OrdMap Text Vv) (g a : ℕ) (x : Text) (b : ℕ) : Type 0 where
  pub n : ℕ
  pub y : Text
  pub few : n ≤ max_sequence_length
  pub full : y ≢ []
  pub slots : Slots m g 0 (slot a x b n y)

pub record Writing (m : OrdMap Text Vv) (g n nvalues : ℕ) (x : Text) (mail : Option Response)
    : Type 0 where
  pub room : n < nvalues
  pub a : ℕ
  pub near : (a ≡ n) ⊎ (a ≡ n + 1)
  pub older : Older m g a x a
  pub done : (r : _) → mail ≡ some (put_response r) → a ≡ n + 1

pub record Clearing (m : OrdMap Text Vv) (g n nvalues tries : ℕ) (x : Text) (mail : Option Response)
    : Type 0 where
  pub past : nvalues ≤ n
  pub room : n < max_sequence_length
  pub b : ℕ
  pub near : (b ≡ n) ⊎ (b ≡ n + 1)
  pub older : Older m g nvalues x b
  pub first : tries ≡ 0 → mail ≡ none → b ≡ n
  pub done :
      (r : _)
      → mail ≡ some (remove_response r)
      → (b ≡ n + 1) × (tries ≡ 0 → (is_ok r.errcode ≡ true) ⊎ (older.n ≤ n))

-- What the group of a lock holds while its owner is at `pc`.
abbrev pub PhaseAt : Pc → OrdMap Text Vv → ℕ → Vv → Cstate → Option Response → Type 0
PhaseAt idle m g v c mail = ⊥
PhaseAt locking m g v c mail = Older m g 0 c.value 0
PhaseAt lock_delay m g v c mail = Older m g 0 c.value 0
PhaseAt writing m g v c mail = Writing m g c.n c.nvalues c.value mail
PhaseAt write_delay m g v c mail = (c.n ≤ c.nvalues) × Older m g c.n c.value c.n
PhaseAt clearing m g v c mail = Clearing m g c.n c.nvalues c.tries c.value mail
PhaseAt clear_delay m g v c mail = (c.nvalues ≤ c.n) × Older m g c.nvalues c.value c.n
PhaseAt unlocking m g v c mail =
    (v.version ≡ c.lock_version)
    × ((r : _) → mail ≢ some (remove_response r))
    × Slots m g 0 (slot c.nvalues c.value c.nvalues 0 [])
PhaseAt (thrown e) m g v c mail = (a : ℕ) × (b : ℕ) × (a ≤ b) × Older m g a c.value b

abbrev pub Phase : OrdMap Text Vv → ℕ → Vv → Cstate → Option Response → Type 0
Phase m g v c mail = PhaseAt c.pc m g v c mail

pub record Owner (clients : ℕ → Cstate) (m : OrdMap Text Vv) (mail : ℕ → Option Response) (g i : ℕ)
    (v : Vv) : Type 0 where
  pub small : i < nclients
  pub found : find (make_lock_key g) m ≡ some v
  pub value : v.value ≡ (clients i).value
  pub gid : (clients i).gid ≡ g
  pub named : IsValueOf i (clients i).value
  pub holder : IsHolder (clients i).value
  pub phase : Phase m g v (clients i) (mail i)

pub data Status (clients : ℕ → Cstate) (m : OrdMap Text Vv) (mail : ℕ → Option Response) (g : ℕ)
    : Type 0 where
  free : find (make_lock_key g) m ≡ none → Older m g 0 [] 0 → Status clients m mail g
  owned : (i : ℕ) (v : Vv) → Owner clients m mail g i v → Status clients m mail g

-- The draws of a client, and its tries within `n` steps.
pub record Draws (n : ℕ) (c : Cstate) : Type 0 where
  pub gid : c.gid < ngroups
  pub nvalues : c.nvalues ≤ max_sequence_length
  pub tries : c.tries ≤ n
  pub value : (c.value ≡ []) ⊎ IsHolder c.value

pub record TimelyInv (n : ℕ) (clients : ℕ → Cstate) (w : World) (mail : ℕ → Option Response)
    : Type 0 where
  pub draws : (i : ℕ) → i < nclients → Draws n (clients i)
  pub groups : (g : ℕ) → Status clients w.db mail g
  pub keys : AllKeys w.db
