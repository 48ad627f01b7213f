-- ===== src/Lockseq/System/Safety.antt =====
-- Who holds a lock in the states that the clients of pset4/lockseq_model.cc reach.
use Prim.Native.Nat.{ℕ, ◌^◌, ◌<◌}
use traxos.Base.{◌≡◌, ◌≢◌, inl, inr, sym, true, false, Bool-cases}
use mathlib.Core.Path.{subst}
use traxos.Lockseq.Keys.{make_lock_key}
use traxos.Lockseq.Client.{nclients}
use traxos.Lockseq.Client.Locks.{Owned}
use traxos.Lockseq.Client.Names.{IsValueOf}
use traxos.Lockseq.Client.Moves.{is_holding}
use traxos.Lockseq.System.{System, Reach}
use traxos.Lockseq.System.Serves.{owners}
use traxos.Lockseq.System.Acts.{HeldAt-Owned, in_round-Named, holding-in_round}
use traxos.Lockseq.System.Keeps.{Reach-Inv}

module _ (leaders : ℕ → ℕ) (n : ℕ) (s : System) (few : n < 2 ^ 51)
    (reached : Reach leaders n s) where
  holder-IsValueOf :
      (i : ℕ) → i < nclients → is_holding (s.clients i).pc ≡ true → IsValueOf i (s.clients i).value
  holder-IsValueOf i lt h =
      in_round-Named (s.clients i).pc i (s.clients i).value (holding-in_round (s.clients i).pc h)
        ((Reach-Inv leaders n s few reached).clients i lt).named

  -- In any state that the clients, the database and the network reach from the start in fewer than
  -- 2^51 steps, the lock of the group of a client that writes or clears has that client's value,
  -- under the version that the client noted for its unlock.
  pub holder-Owned :
      (i : ℕ)
      → i < nclients
      → is_holding (s.clients i).pc ≡ true
      → Owned
          (make_lock_key (s.clients i).gid)
          (s.clients i).value
          (s.clients i).lock_version
          s.world
  holder-Owned i lt h =
      HeldAt-Owned (s.clients i).pc (make_lock_key (s.clients i).gid) (s.clients i).value
        (s.clients i).lock_version s.world h
        ((Reach-Inv leaders n s few reached).clients i lt).holds

  one_holder :
      (i j : ℕ)
      → i < nclients
      → j < nclients
      → is_holding (s.clients i).pc ≡ true
      → is_holding (s.clients j).pc ≡ true
      → (s.clients i).gid ≡ (s.clients j).gid
      → i ≡ j
  one_holder i j ilt jlt hi hj same =
      let inv = Reach-Inv leaders n s few reached in
      let own' =
        subst (λ g. Owned (make_lock_key g) (s.clients j).value (s.clients j).lock_version s.world)
          (sym same) (holder-Owned j jlt hj) in
      owners s.clients n s.world inv.valid inv.clients i j (make_lock_key (s.clients i).gid)
        (s.clients i).value (s.clients j).value (s.clients i).lock_version
        (s.clients j).lock_version (holder-IsValueOf i ilt hi) (holder-IsValueOf j jlt hj)
        (holder-Owned i ilt hi) own'

  -- Take any state that the clients, the database and the network reach from the start in fewer
  -- than 2^51 steps, with messages that are late, lost, repeated and out of order, with
  -- redirections, timeouts and retries in every phase. While one client writes or clears the values
  -- of a group, no other client is writing or clearing those of the same group.
  pub mutual_exclusion :
      (i j : ℕ)
      → i < nclients
      → j < nclients
      → i ≢ j
      → (s.clients i).gid ≡ (s.clients j).gid
      → is_holding (s.clients i).pc ≡ true
      → is_holding (s.clients j).pc ≡ false
  mutual_exclusion i j ilt jlt other same hi = elim (Bool-cases (is_holding (s.clients j).pc)) [
    | inl hj ↦ absurd (other (one_holder i j ilt jlt hi hj same))
    | inr free ↦ free
  ]
