-- ===== src/Lockseq/Timely/Replies.antt =====
-- The groups where the database answers, or a replica redirects.
use traxos.Base.{
  ℕ, ◌+◌, ◌<◌, ◌≡◌, inl, inr, refl, sym, ap, ◌∙◌, Text, true, Option, none, some, ◌∷◌, ◌++◌, arith,
  Bool-cases, ◌==◌, text_ordered,
}
use mathlib.Core.Path.{subst}
use traxos.Base.Bytes.{codes}
use traxos.OrdMap.{OrdMap}
use traxos.Pancy.Msgs.{Request, Response, put_request, cas_request, remove_request}
use traxos.Pancy.Db.{Vv}
use traxos.Pancy.Db.Spec.{step}
use traxos.Pancy.Db.Spec.Effects.{request_key}
use traxos.Replica.{redirection}
use traxos.Lockseq.{unsigned_max}
use traxos.Lockseq.Keys.{make_lock_key, padded}
use traxos.Lockseq.Held.{group, lock_key-group, value_key-group}
use traxos.Lockseq.Groups.{IsHolder, IsKey, lock_key, value_key}
use traxos.Lockseq.Client.{
  Pc, idle, locking, lock_delay, writing, write_delay, clearing, clear_delay, unlocking, thrown,
  Cstate, nclients, request_at, request_of,
}
use traxos.Lockseq.Client.Moves.{is_holding}
use traxos.Lockseq.Client.Names.{IsValueOf, IsValueOf-ne-nil}
use traxos.Lockseq.Client.Turns.{lock_of, put_of, clear_of, unlock_of}
use traxos.Lockseq.System.{update}
use traxos.Lockseq.System.Invariant.{Inv, Named}
use traxos.Lockseq.System.Serves.{unlocking_holds}
use traxos.Lockseq.System.Acts.{HeldAt-Owned, in_round-Named, in_round, holding-in_round}
use traxos.Lockseq.Timely.{Timely}
use traxos.Lockseq.Timely.Status.{Writing, Clearing, PhaseAt, Owner, Status, TimelyInv}
use traxos.Lockseq.Timely.Found.{step-AllKeys, elsewhere-SameGroup, same-Status}
use traxos.Lockseq.Timely.Serves.{
  update_other, reply-Status, Owner-of_lock, from_pc, lock-Status, put-Status,
}
use traxos.Lockseq.Timely.Removes.{clear-Status, unlock-Status}
use traxos.Lockseq.Timely.Moves.{later-Draws}

redirected-PhaseAt :
    (pc : Pc) (m : OrdMap Text Vv) (g : ℕ) (v : Vv) (c : Cstate) (r : Request) (leader : ℕ)
    (mail : Option Response)
    → PhaseAt pc m g v c mail
    → PhaseAt pc m g v c (some (redirection r leader))
redirected-PhaseAt idle m g v c r leader mail p = p
redirected-PhaseAt locking m g v c r leader mail p = p
redirected-PhaseAt lock_delay m g v c r leader mail p = p
redirected-PhaseAt writing m g v c r leader mail p = record {
  room = p.room;
  a = p.a;
  near = p.near;
  older = p.older;
  done = λ q e. absurd cc;
}
redirected-PhaseAt write_delay m g v c r leader mail p = p
redirected-PhaseAt clearing m g v c r leader mail p = record {
  past = p.past;
  room = p.room;
  b = p.b;
  near = p.near;
  older = p.older;
  first = λ zero e. absurd cc;
  done = λ q e. absurd cc;
}
redirected-PhaseAt clear_delay m g v c r leader mail p = p
redirected-PhaseAt unlocking m g v c r leader mail p = (p.0, λ q e. cc, p.2)
redirected-PhaseAt (thrown e) m g v c r leader mail p = p

module _ (n : ℕ) (s : Timely) (inv : Inv n s.system)
    (t : TimelyInv n s.system.clients s.system.world s.mail) where
  -- What a request does, and where.
  Effect : ℕ → Request → Type 0
  Effect i r =
      IsKey (request_key r)
      × ((x : Text) × (request_key r ≡ group (s.system.clients i).gid ++ x))
      × Status s.system.clients (step r s.system.world).1.db
          (update s.mail i (some (step r s.system.world).0)) (s.system.clients i).gid

  IsValueOf-client :
      (i : ℕ) (pc : Pc)
      → i < nclients
      → (s.system.clients i).pc ≡ pc
      → in_round pc ≡ true
      → IsValueOf i (s.system.clients i).value
  IsValueOf-client i pc lt at round =
      in_round-Named pc i (s.system.clients i).value round
        (subst (λ pc. Named pc i (s.system.clients i).value) at (inv.clients i lt).named)

  small_group : (i : ℕ) → i < nclients → (s.system.clients i).gid < unsigned_max
  small_group i lt = let gid = (t.draws i lt).gid in omega arith

  -- The owner of the group, where a client holds its lock.
  holder-Owner :
      (i : ℕ) (pc : Pc)
      → i < nclients
      → (s.system.clients i).pc ≡ pc
      → is_holding pc ≡ true
      → (v : Vv) × Owner s.system.clients s.system.world.db s.mail (s.system.clients i).gid i v
  holder-Owner i pc lt at h =
      let c = s.system.clients i in
      let own =
        HeldAt-Owned c.pc (make_lock_key c.gid) c.value c.lock_version s.system.world
          (subst (λ pc. is_holding pc ≡ true) (sym at) h) (inv.clients i lt).holds in
      let (v, ver, o) =
        Owner-of_lock s.system.clients s.system.world s.mail inv.valid i lt
          (IsValueOf-client i pc lt at (holding-in_round pc h)) c.lock_version own
          (t.groups c.gid) in
      (v, o)

  locking-Effect :
      (i : ℕ)
      → i < nclients
      → (s.system.clients i).pc ≡ locking
      → Effect i (cas_request (lock_of (s.system.clients i)))
  unfolding Effect
  locking-Effect i lt at =
      let c = s.system.clients i in
      let named = IsValueOf-client i locking lt at refl in
      let holder : IsHolder c.value = elim (t.draws i lt).value [
        | inl empty ↦ absurd (IsValueOf-ne-nil i c.value named empty)
        | inr h ↦ h
      ] in
      (
        lock_key c.gid (small_group i lt) refl,
        (codes "lock", lock_key-group c.gid),
        lock-Status s.system.clients s.system.world s.mail inv.valid i lt named
            (some (step (cas_request (lock_of c)) s.system.world).0) at holder (t.groups c.gid),
      )

  writing-Effect :
      (i : ℕ)
      → i < nclients
      → (s.system.clients i).pc ≡ writing
      → Effect i (put_request (put_of (s.system.clients i)))
  unfolding Effect
  writing-Effect i lt at =
      let c = s.system.clients i in
      let named = IsValueOf-client i writing lt at refl in
      let many = (t.draws i lt).nvalues in
      let (v, o) = holder-Owner i writing lt at refl in
      let p : Writing s.system.world.db c.gid c.n c.nvalues c.value (s.mail i) =
        from_pc s.system.clients s.system.world s.mail inv.valid i lt named writing
          s.system.world.db v (s.mail i) at o.phase in
      let room = p.room in
      (
        value_key c.gid c.n (small_group i lt) (omega arith) refl,
        (118 ∷ padded c.n, value_key-group c.gid c.n),
        put-Status s.system.clients s.system.world s.mail inv.valid i lt named
            (some (step (put_request (put_of c)) s.system.world).0) v at many o,
      )

  clearing-Effect :
      (i : ℕ)
      → i < nclients
      → (s.system.clients i).pc ≡ clearing
      → s.mail i ≡ none
      → Effect i (remove_request (clear_of (s.system.clients i)))
  unfolding Effect
  clearing-Effect i lt at new =
      let c = s.system.clients i in
      let named = IsValueOf-client i clearing lt at refl in
      let (v, o) = holder-Owner i clearing lt at refl in
      let p : Clearing s.system.world.db c.gid c.n c.nvalues c.tries c.value (s.mail i) =
        from_pc s.system.clients s.system.world s.mail inv.valid i lt named clearing
          s.system.world.db v (s.mail i) at o.phase in
      let room = p.room in
      (
        value_key c.gid c.n (small_group i lt) (omega arith) refl,
        (118 ∷ padded c.n, value_key-group c.gid c.n),
        clear-Status s.system.clients s.system.world s.mail inv.valid i lt named v at new o,
      )

  unlocking-Effect :
      (i : ℕ)
      → i < nclients
      → (s.system.clients i).pc ≡ unlocking
      → Effect i (remove_request (unlock_of (s.system.clients i)))
  unfolding Effect
  unlocking-Effect i lt at =
      let c = s.system.clients i in
      let (named, holds) =
        unlocking_holds s.system.clients n s.system.world inv.valid inv.clients i lt at in
      (
        lock_key c.gid (small_group i lt) refl,
        (codes "lock", lock_key-group c.gid),
        unlock-Status s.system.clients s.system.world s.mail inv.valid i lt named
            (some (step (remove_request (unlock_of c)) s.system.world).0) at (t.draws i lt).nvalues
            holds (t.groups c.gid),
      )

  request-Effect :
      (i : ℕ) (pc : Pc) (r : Request)
      → i < nclients
      → (s.system.clients i).pc ≡ pc
      → s.mail i ≡ none
      → request_at pc (s.system.clients i) ≡ some r
      → Effect i r
  unfolding request_at
  request-Effect i locking r lt at new asks =
      let is : cas_request (lock_of (s.system.clients i)) ≡ r = ground arith in
      subst (Effect i) is (locking-Effect i lt at)
  request-Effect i writing r lt at new asks =
      let is : put_request (put_of (s.system.clients i)) ≡ r = ground arith in
      subst (Effect i) is (writing-Effect i lt at)
  request-Effect i clearing r lt at new asks =
      let is : remove_request (clear_of (s.system.clients i)) ≡ r = ground arith in
      subst (Effect i) is (clearing-Effect i lt at new)
  request-Effect i unlocking r lt at new asks =
      let is : remove_request (unlock_of (s.system.clients i)) ≡ r = ground arith in
      subst (Effect i) is (unlocking-Effect i lt at)
  request-Effect i pc r lt at new asks = absurd (ground arith)

  pub served-TimelyInv :
      (i : ℕ) (r : Request)
      → i < nclients
      → request_of (s.system.clients i) ≡ some r
      → s.mail i ≡ none
      → TimelyInv
          (n + 1)
          s.system.clients
          (step r s.system.world).1
          (update s.mail i (some (step r s.system.world).0))
  unfolding Effect
  served-TimelyInv i r lt asks new =
      let (is, (x, key), status) = request-Effect i (s.system.clients i).pc r lt refl new asks in
      record {
        draws = λ j jlt. later-Draws n (s.system.clients j) (t.draws j jlt);
        groups = λ h. elim (Bool-cases (h == (s.system.clients i).gid)) [
          | inl here ↦
              let eq : (s.system.clients i).gid ≡ h = ground arith in
              subst
                (λ h.
                  Status s.system.clients (step r s.system.world).1.db
                    (update s.mail i (some (step r s.system.world).0)) h)
                eq status
          | inr other ↦
              same-Status s.system.clients s.system.world.db (step r s.system.world).1.db s.mail
                (update s.mail i (some (step r s.system.world).0)) h
                (elsewhere-SameGroup r s.system.world (s.system.clients i).gid h x inv.valid key
                  (ground (arith, other)))
                (λ j at. elim (Bool-cases (i == j)) [
                  | inl same ↦
                      let e : j ≡ i = ground arith in
                      let there = sym at ∙ ap (λ j. (s.system.clients j).gid) e in
                      absurd (ground arith)
                  | inr far ↦ update_other s.mail i j (some (step r s.system.world).0) far
                ])
                (t.groups h)
        ];
        keys = step-AllKeys r s.system.world is t.keys;
      }

  pub redirected-TimelyInv :
      (i leader : ℕ) (r : Request)
      → i < nclients
      → TimelyInv
          (n + 1)
          s.system.clients
          s.system.world
          (update s.mail i (some (redirection r leader)))
  redirected-TimelyInv i leader r lt = record {
    draws = λ j jlt. later-Draws n (s.system.clients j) (t.draws j jlt);
    groups = λ h.
        reply-Status s.system.clients s.system.world.db s.mail i h (some (redirection r leader))
          (λ v o.
            redirected-PhaseAt (s.system.clients i).pc s.system.world.db h v (s.system.clients i) r
              leader (s.mail i) o.phase)
          (t.groups h);
    keys = t.keys;
  }
