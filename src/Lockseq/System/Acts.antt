-- ===== src/Lockseq/System/Acts.antt =====
-- A move of a client, and the lock that it holds.
use Prim.Native.Nat.{ℕ, ◌+◌, ◌*◌, ◌%◌, ◌^◌, ◌≤◌, ◌<◌}
use traxos.Base.{◌≡◌, inl, refl, ◌∙◌, Text, Bool, true, false, arith}
use mathlib.Core.Path.{subst}
use traxos.Pancy.Db.{World}
use traxos.Client.{serial_step}
use traxos.Lockseq.Client.{
  Pc, idle, locking, writing, write_delay, clearing, clear_delay, unlocking, thrown, Cstate,
  nclients, Event,
}
use traxos.Lockseq.Client.Locks.{Owned}
use traxos.Lockseq.Client.Names.{IsValueOf}
use traxos.Lockseq.Client.Moves.{
  is_working, is_resting, is_holding, is_over, Kept, Stays, Grants, Moved, retries, yields, resumes,
  rests, throws, starts, takes, goes,
}
use traxos.Lockseq.System.Invariant.{lock, HeldAt, Holds, Named, ClientInv}

pub HeldAt-Owned :
    (pc : Pc) (k x : Text) (v : ℕ) (w : World)
    → is_holding pc ≡ true
    → HeldAt pc k x v w
    → Owned k x v w
HeldAt-Owned writing k x v w h own = own
HeldAt-Owned write_delay k x v w h own = own
HeldAt-Owned clearing k x v w h own = own
HeldAt-Owned clear_delay k x v w h own = own
HeldAt-Owned pc k x v w h own = absurd (cc h)

Owned-resting :
    (pc : Pc) (k x : Text) (v : ℕ) (w : World)
    → is_resting pc ≡ true
    → Owned k x v w
    → HeldAt pc k x v w
Owned-resting write_delay k x v w h own = own
Owned-resting clear_delay k x v w h own = own
Owned-resting pc k x v w h own = absurd (cc h)

Owned-working :
    (pc : Pc) (k x : Text) (v : ℕ) (w : World)
    → is_working pc ≡ true
    → Owned k x v w
    → HeldAt pc k x v w
Owned-working writing k x v w h own = own
Owned-working clearing k x v w h own = own
Owned-working unlocking k x v w h own = inl own
Owned-working pc k x v w h own = absurd (cc h)

over-HeldAt : (pc : Pc) (k x : Text) (v : ℕ) (w : World) → is_over pc ≡ true → HeldAt pc k x v w
over-HeldAt idle k x v w h = tt
over-HeldAt (thrown e) k x v w h = tt
over-HeldAt pc k x v w h = absurd (cc h)

over-Named : (pc : Pc) (i : ℕ) (x : Text) → is_over pc ≡ true → Named pc i x
over-Named idle i x h = tt
over-Named (thrown e) i x h = tt
over-Named pc i x h = absurd (cc h)

-- In a round the value is the client's.
abbrev pub in_round : Pc → Bool
in_round idle = false
in_round (thrown e) = false
in_round pc = true

pub in_round-Named :
    (pc : Pc) (i : ℕ) (x : Text) → in_round pc ≡ true → Named pc i x → IsValueOf i x
in_round-Named idle i x h m = absurd (cc h)
in_round-Named (thrown e) i x h m = absurd (cc h)
in_round-Named pc i x h m = m

Named-of : (pc : Pc) (i : ℕ) (x : Text) → IsValueOf i x → Named pc i x
Named-of idle i x m = tt
Named-of (thrown e) i x m = tt
Named-of pc i x m = m

pub holding-in_round : (pc : Pc) → is_holding pc ≡ true → in_round pc ≡ true
holding-in_round pc h = ground arith

pub next_serial :
    (n i serial : ℕ)
    → n < 2 ^ 51
    → i < nclients
    → serial ≤ i + 4096 * n
    → (serial + serial_step) % 2 ^ 64 ≡ serial + 4096
next_serial n i serial few lt low = omega arith

module _ (n i : ℕ) (w : World) (few : n < 2 ^ 51) (lt : i < nclients) (e : Event)
    (c c' : Cstate) where
  Stays-Inv :
      ClientInv n i c w
      → Stays c c'
      → Named c'.pc i c'.value
      → Holds c'.pc c' w
      → ClientInv (n + 1) i c' w
  Stays-Inv inv st named holds = record {
    cid = st.kept.cid ∙ inv.cid;
    owner = rw (st.serial) inv.owner;
    low = let low = inv.low in let same = st.serial in omega arith;
    named = named;
    holds = holds;
  }

  Goes-Inv :
      ClientInv n i c w
      → c'.cid ≡ c.cid
      → c'.serial ≡ (c.serial + serial_step) % 2 ^ 64
      → Named c'.pc i c'.value
      → Holds c'.pc c' w
      → ClientInv (n + 1) i c' w
  Goes-Inv inv cid serial named holds =
      let next = next_serial n i c.serial few lt inv.low in
      let low = inv.low in
      let owner = inv.owner in
      record {
        cid = cid ∙ inv.cid;
        owner = omega arith;
        low = omega arith;
        named = named;
        holds = holds;
      }

  Holds-Kept :
      (pc : Pc) → Kept c c' → c'.lock_version ≡ c.lock_version → Holds pc c w → Holds pc c' w
  Holds-Kept pc kept ver h = rw (kept.gid, kept.value, ver) h

  Owned-Kept :
      Kept c c'
      → c'.lock_version ≡ c.lock_version
      → Owned (lock c) c.value c.lock_version w
      → Owned (lock c') c'.value c'.lock_version w
  Owned-Kept kept ver h = rw (kept.gid, kept.value, ver) h

  -- The client keeps its part of the invariant, where the lock is granted to it in truth.
  pub Moved-Client :
      ClientInv n i c w
      → (c.pc ≡ locking → Grants e c c'.lock_version → Owned (lock c) c.value c'.lock_version w)
      → Moved e c c'
      → ClientInv (n + 1) i c' w
  Moved-Client inv truth (retries st at same) =
      Stays-Inv inv st (rw (at, st.kept.value) inv.named)
        (rw at (Holds-Kept c.pc st.kept st.lock_version inv.holds))
  Moved-Client inv truth (yields st at to) =
      Stays-Inv inv st
        (rw to (rw (st.kept.value) (in_round-Named c.pc i c.value (rw at refl) inv.named)))
        (rw to tt)
  Moved-Client inv truth (resumes st at to) =
      Stays-Inv inv st
        (rw to (rw (st.kept.value) (in_round-Named c.pc i c.value (rw at refl) inv.named)))
        (rw to tt)
  Moved-Client inv truth (rests st at to) =
      Stays-Inv inv st
        (Named-of c'.pc i c'.value
          (rw (st.kept.value) (in_round-Named c.pc i c.value (holding-in_round c.pc at) inv.named)))
        (Owned-resting c'.pc _ _ _ w to
          (Owned-Kept st.kept st.lock_version (HeldAt-Owned c.pc _ _ _ w at inv.holds)))
  Moved-Client inv truth (throws st to why) =
      Stays-Inv inv st (over-Named c'.pc i c'.value to) (over-HeldAt c'.pc _ _ _ w to)
  Moved-Client inv truth (starts at cid serial named to) =
      Goes-Inv inv cid serial (rw to (subst (λ a. IsValueOf a c'.value) inv.cid named)) (rw to tt)
  Moved-Client inv truth (takes went at grants) =
      Goes-Inv inv went.kept.cid went.serial
        (Named-of c'.pc i c'.value
          (rw (went.kept.value) (in_round-Named c.pc i c.value (rw at refl) inv.named)))
        (Owned-working c'.pc _ _ _ w went.working
          (rw (went.kept.gid, went.kept.value) (truth at grants)))
  Moved-Client inv truth (goes went at ver) =
      Goes-Inv inv went.kept.cid went.serial
        (Named-of c'.pc i c'.value (
          rw (went.kept.value)
            (in_round-Named c.pc i c.value (holding-in_round c.pc at) inv.named)))
        (Owned-working c'.pc _ _ _ w went.working
          (Owned-Kept went.kept ver (HeldAt-Owned c.pc _ _ _ w at inv.holds)))
