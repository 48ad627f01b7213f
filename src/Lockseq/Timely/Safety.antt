-- ===== src/Lockseq/Timely/Safety.antt =====
-- The databases that clients on a timely network reach, and `check`.
use traxos.Base.{
  ℕ, ◌+◌, ◌^◌, ◌<◌, ◌≤◌, ◌≡◌, inl, refl, sym, Text, none, some, [], ◌∷◌, arith, text_ordered,
}
use mathlib.Core.Path.{subst}
use traxos.OrdMap.{OrdMap, find}
use traxos.Pancy.Msgs.{Response}
use traxos.Pancy.Db.{Vv}
use traxos.Base.{Option}
use traxos.Lockseq.{check}
use traxos.Lockseq.Keys.{make_lock_key}
use traxos.Lockseq.Groups.{slot, Slots, IsHolder, Legal, unlocked, locked}
use traxos.Lockseq.Groups.Slots.{same-Slots}
use traxos.Lockseq.Groups.Accepts.{check-Legal}
use traxos.Lockseq.Client.{
  Pc, idle, locking, lock_delay, writing, write_delay, clearing, clear_delay, unlocking, thrown,
  Cstate,
}
use traxos.Lockseq.System as System
use traxos.Lockseq.System.{Reach, started}
use traxos.Lockseq.System.Invariant.{Inv}
use traxos.Lockseq.System.Keeps.{Reach-Inv}
use traxos.Lockseq.Timely.{Timely, TimelyStep, act, serve, redirect, TimelyReach, start, later}
use traxos.Lockseq.Timely.Status.{Older, PhaseAt, Status, free, owned, TimelyInv}
use traxos.Lockseq.Timely.Moves.{acted-TimelyInv}
use traxos.Lockseq.Timely.Replies.{served-TimelyInv, redirected-TimelyInv}

TimelyStep-Step : (s t : Timely) → TimelyStep s t → System.Step s.system t.system
TimelyStep-Step s t (act i e c lt drawn now came h) = System.act i e c lt came h
TimelyStep-Step s t (serve i r lt asks came new) = System.serve r came
TimelyStep-Step s t (redirect i r leader lt asks came new) = System.redirect r leader came

TimelyReach-Reach :
    (leaders : ℕ → ℕ) (n : ℕ) (s : Timely) → TimelyReach leaders n s → Reach leaders n s.system
TimelyReach-Reach leaders k u start = System.start
TimelyReach-Reach leaders k u (later {n} {s} before last) =
    System.later (TimelyReach-Reach leaders n s before) (TimelyStep-Step s u last)

TimelyStep-TimelyInv :
    (n : ℕ) (s t : Timely)
    → n + 1 < 2 ^ 32
    → Inv n s.system
    → TimelyInv n s.system.clients s.system.world s.mail
    → TimelyStep s t
    → TimelyInv (n + 1) t.system.clients t.system.world t.mail
TimelyStep-TimelyInv n s t few inv ti (act i e c lt drawn now came h) =
    acted-TimelyInv n few s inv ti i e c lt drawn now came h
TimelyStep-TimelyInv n s t few inv ti (serve i r lt asks came new) =
    served-TimelyInv n s inv ti i r lt asks new
TimelyStep-TimelyInv n s t few inv ti (redirect i r leader lt asks came new) =
    redirected-TimelyInv n s inv ti i leader r lt

started-TimelyInv :
    (leaders : ℕ → ℕ) → TimelyInv 0 (started leaders).clients (started leaders).world (λ i. none)
unfolding find
started-TimelyInv leaders = record {
  draws = λ i lt. record {
    gid = omega arith;
    nvalues = omega arith;
    tries = omega arith;
    value = inl refl;
  };
  groups = λ g. free refl (record {
    n = 0;
    y = 99 ∷ [];
    few = omega arith;
    full = λ e. cc;
    slots = λ k lt. ground arith;
  });
  keys = tt;
}

TimelyReach-TimelyInv :
    (leaders : ℕ → ℕ) (n : ℕ) (s : Timely)
    → n < 2 ^ 32
    → TimelyReach leaders n s
    → TimelyInv n s.system.clients s.system.world s.mail
TimelyReach-TimelyInv leaders k u few start = started-TimelyInv leaders
TimelyReach-TimelyInv leaders k u few (later {n} {s} before last) =
    TimelyStep-TimelyInv n s u few
      (Reach-Inv leaders n s.system (omega arith) (TimelyReach-Reach leaders n s before))
      (TimelyReach-TimelyInv leaders n s (omega arith) before) last

module _ (m : OrdMap Text Vv) (g : ℕ) (v : Vv) (c : Cstate)
    (found : find (make_lock_key g) m ≡ some v) (value : v.value ≡ c.value)
    (holder : IsHolder v.value) where
  Older-Legal : (a b : ℕ) → a ≤ b → Older m g a c.value b → Legal m g
  Older-Legal a b le o =
      locked v a b o.n o.y found holder le o.full
        (subst (λ x. Slots m g 0 (slot a x b o.n o.y)) (sym value) o.slots)

  PhaseAt-Legal : (pc : Pc) (mail : Option Response) → PhaseAt pc m g v c mail → Legal m g
  PhaseAt-Legal idle mail p = absurd p
  PhaseAt-Legal locking mail p = Older-Legal 0 0 (omega arith) p
  PhaseAt-Legal lock_delay mail p = Older-Legal 0 0 (omega arith) p
  PhaseAt-Legal writing mail p = Older-Legal p.a p.a (omega arith) p.older
  PhaseAt-Legal write_delay mail p = Older-Legal c.n c.n (omega arith) p.1
  PhaseAt-Legal clearing mail p =
      let past = p.past in Older-Legal c.nvalues p.b (omega (arith, p.near)) p.older
  PhaseAt-Legal clear_delay mail p = Older-Legal c.nvalues c.n p.0 p.1
  PhaseAt-Legal unlocking mail p =
      locked v c.nvalues c.nvalues 0 (99 ∷ []) found holder (omega arith) (λ e. cc)
        (same-Slots m g 0 (slot c.nvalues c.value c.nvalues 0 [])
          (slot c.nvalues v.value c.nvalues 0 (99 ∷ [])) (λ j lt. ground arith) p.2)
  PhaseAt-Legal (thrown e) mail p = Older-Legal p.0 p.1 p.2 p.3

Status-Legal :
    (clients : ℕ → Cstate) (m : OrdMap Text Vv) (mail : ℕ → Option Response) (g : ℕ)
    → Status clients m mail g
    → Legal m g
Status-Legal clients m mail g (free gone o) = unlocked o.n o.y gone o.full o.slots
Status-Legal clients m mail g (owned i v o) =
    PhaseAt-Legal m g v (clients i) o.found o.value (subst (λ x. IsHolder x) (sym o.value) o.holder)
      (clients i).pc (mail i) o.phase

-- Take any state that the clients, the database and the network reach from the start in fewer than
-- 2^32 steps, where every draw is in its range, and no message outlives its try: each request is
-- served or redirected once at most, before its client gives up on it, and the response comes
-- before that or never. Requests and responses may be lost, and the clients may time out and retry
-- in every phase, or end on an exception. Then `check` accepts the database.
pub TimelyReach-check :
    (leaders : ℕ → ℕ) (n : ℕ) (s : Timely)
    → n < 2 ^ 32
    → TimelyReach leaders n s
    → check s.system.world.self ≡ none
TimelyReach-check leaders n s few reached =
    let inv = Reach-Inv leaders n s.system (omega arith) (TimelyReach-Reach leaders n s reached) in
    let t = TimelyReach-TimelyInv leaders n s few reached in
    check-Legal s.system.world.self inv.valid.sorted t.keys
      (λ g. Status-Legal s.system.clients s.system.world.db s.mail g (t.groups g))
