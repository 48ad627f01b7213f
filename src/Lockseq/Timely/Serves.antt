-- ===== src/Lockseq/Timely/Serves.antt =====
-- What the answer to a client's current request does to the client's group.
use traxos.Base.{
  ℕ, ◌+◌, ◌<◌, ◌≤◌, ◌≡◌, ◌≢◌, inl, inr, refl, sym, ap, ◌∙◌, Text, false, Option, none, [], arith,
  Bool-cases, if◌then◌else◌, ◌==◌, ltb, text_ordered,
}
use mathlib.Core.Path.{subst}
use traxos.OrdMap.{OrdMap, find}
use traxos.Pancy.Msgs.{Request, Response, put_request, cas_request}
use traxos.Pancy.Db.{Vv, World}
use traxos.Pancy.Db.Spec.{step}
use traxos.Pancy.Db.Spec.Valid.{IsValid}
use traxos.Pancy.Db.Spec.Effects.{request_key}
use traxos.Lockseq.Keys.{make_lock_key, make_value_key}
use traxos.Lockseq.Groups.{value_at, value_of, slot, IsHolder}
use traxos.Lockseq.Groups.Slots.{value_keys-ne}
use traxos.Lockseq.Client.{Pc, locking, writing, Cstate, nclients, max_sequence_length}
use traxos.Lockseq.Client.Locks.{Owned}
use traxos.Lockseq.Client.Names.{
  IsValueOf, IsValueOf-ne-nil, IsValueOf-unique, value_key-ne-lock_key,
}
use traxos.Lockseq.Client.Served.{lock_key-ne}
use traxos.Lockseq.Client.Turns.{lock_of, put_of}
use traxos.Lockseq.System.{update}
use traxos.Lockseq.System.Keeps.{update_same}
use traxos.Lockseq.Timely.Status.{Older, Writing, PhaseAt, Phase, Owner, Status, free, owned}
use traxos.Lockseq.Timely.Requests.{lock_taken, lock_refused, put_done}
use traxos.Lockseq.Timely.Found.{find-step_elsewhere}

pub update_other :
    {A : Type 0} → (f : ℕ → A) (i j : ℕ) (a : A) → i == j ≡ false → update f i a j ≡ f j
update_other f i j a ne = ground arith

-- The group of a client whose response comes, where the database is the same.
pub reply-Status :
    (clients : ℕ → Cstate) (m : OrdMap Text Vv) (mail : ℕ → Option Response) (i g : ℕ)
    (x : Option Response)
    → ((v : Vv) → Owner clients m mail g i v → Phase m g v (clients i) x)
    → Status clients m mail g
    → Status clients m (update mail i x) g
reply-Status clients m mail i g x change (free gone o) = free gone o
reply-Status clients m mail i g x change (owned j v o) = elim (Bool-cases (i == j)) [
  | inl here ↦
      let eq : j ≡ i = ground arith in
      let own = subst (λ j. Owner clients m mail g j v) eq o in
      owned i v (record {
        small = own.small;
        found = own.found;
        value = own.value;
        gid = own.gid;
        named = own.named;
        holder = own.holder;
        phase = subst (λ y. Phase m g v (clients i) y) (sym (update_same mail i x)) (change v own);
      })
  | inr other ↦ owned j v (record {
    small = o.small;
    found = o.found;
    value = o.value;
    gid = o.gid;
    named = o.named;
    holder = o.holder;
    phase = subst (λ y. Phase m g v (clients j) y) (sym (update_other mail i j x other)) o.phase;
  })
]

module _ (clients : ℕ → Cstate) (w : World) (mail : ℕ → Option Response) (valid : IsValid w) (i : ℕ)
    (small : i < nclients) (named : IsValueOf i (clients i).value) where
  -- The lock has the client's value, so the client is its owner.
  pub Owner-of_lock :
      (ver : ℕ)
      → Owned (make_lock_key (clients i).gid) (clients i).value ver w
      → Status clients w.db mail (clients i).gid
      → (v : Vv) × (v.version ≡ ver) × Owner clients w.db mail (clients i).gid i v
  Owner-of_lock ver own (free gone o) =
      absurd (IsValueOf-ne-nil i (clients i).value named (ground arith))
  Owner-of_lock ver own (owned j v o) =
      let seen : v ≡ record { value = (clients i).value; version = ver } =
        ground (arith, o.found) in
      let same : (clients j).value ≡ (clients i).value = sym o.value ∙ ap (λ v. v.value) seen in
      let eq : j ≡ i =
        IsValueOf-unique j i (clients i).value (subst (IsValueOf j) same o.named) named in
      (v, ap (λ v. v.version) seen, subst (λ j. Owner clients w.db mail (clients i).gid j v) eq o)

  pub at_pc :
      (pc : Pc) (m : OrdMap Text Vv) (v : Vv) (x : Option Response)
      → (clients i).pc ≡ pc
      → PhaseAt pc m (clients i).gid v (clients i) x
      → Phase m (clients i).gid v (clients i) x
  at_pc pc m v x at p = subst (λ pc. PhaseAt pc m (clients i).gid v (clients i) x) (sym at) p

  pub from_pc :
      (pc : Pc) (m : OrdMap Text Vv) (v : Vv) (x : Option Response)
      → (clients i).pc ≡ pc
      → Phase m (clients i).gid v (clients i) x
      → PhaseAt pc m (clients i).gid v (clients i) x
  from_pc pc m v x at p = subst (λ pc. PhaseAt pc m (clients i).gid v (clients i) x) at p

  -- The owner's group after its request, which leaves it the lock.
  pub moved :
      (x : Option Response) (v : Vv) (w' : World)
      → Owner clients w.db mail (clients i).gid i v
      → find (make_lock_key (clients i).gid) w'.db ≡ find (make_lock_key (clients i).gid) w.db
      → Phase w'.db (clients i).gid v (clients i) x
      → Status clients w'.db (update mail i x) (clients i).gid
  moved x v w' o lock phase = owned i v (record {
    small = small;
    found = lock ∙ o.found;
    value = o.value;
    gid = refl;
    named = named;
    holder = o.holder;
    phase =
        subst (λ y. Phase w'.db (clients i).gid v (clients i) y) (sym (update_same mail i x)) phase;
  })

  pub lock-Status :
      (x : Option Response)
      → (clients i).pc ≡ locking
      → IsHolder (clients i).value
      → Status clients w.db mail (clients i).gid
      → Status clients
          (step (cas_request (lock_of (clients i))) w).1.db
          (update mail i x)
          (clients i).gid
  lock-Status x at holder (free gone o) =
      let w' = (step (cas_request (lock_of (clients i))) w).1 in
      let v : Vv = record { value = (clients i).value; version = w.next_version } in
      let g = (clients i).gid in
      let older : Older w'.db g 0 (clients i).value 0 = record {
        n = o.n;
        y = o.y;
        few = o.few;
        full = o.full;
        slots = λ k lt.
            ap value_of (
              find-step_elsewhere (cas_request (lock_of (clients i))) w (make_value_key g k) valid
                (value_key-ne-lock_key g k g))
            ∙ (o.slots k lt ∙ ground arith);
      } in
      owned i v (record {
        small = small;
        found = lock_taken (clients i) w valid gone;
        value = refl;
        gid = refl;
        named = named;
        holder = holder;
        phase =
            subst (λ y. Phase w'.db g v (clients i) y) (sym (update_same mail i x))
              (at_pc locking w'.db v x at older);
      })
  lock-Status x at holder (owned j v o) =
      let full : v.value ≢ [] =
        λ e. IsValueOf-ne-nil j (clients j).value o.named (sym o.value ∙ e) in
      subst (λ w'. Status clients w'.db (update mail i x) (clients i).gid)
        (sym (lock_refused (clients i) w v o.found full))
        (reply-Status clients w.db mail i (clients i).gid x
          (λ u p. at_pc locking w.db u x at (from_pc locking w.db u (mail i) at p.phase))
          (owned j v o))

  -- The values of the group after a request to the value of index `n`.
  pub beside :
      (r : Request) (k : ℕ)
      → request_key r ≡ make_value_key (clients i).gid (clients i).n
      → (clients i).n < 1000
      → k < 1000
      → k ≢ (clients i).n
      → value_at (step r w).1.db (clients i).gid k ≡ value_at w.db (clients i).gid k
  beside r k key room lt ne = ap value_of (
      find-step_elsewhere r w (make_value_key (clients i).gid k) valid
        (λ e. value_keys-ne (clients i).gid k (clients i).n ne lt room (e ∙ key)))

  pub lock_kept :
      (r : Request)
      → request_key r ≡ make_value_key (clients i).gid (clients i).n
      → find (make_lock_key (clients i).gid) (step r w).1.db
        ≡ find (make_lock_key (clients i).gid) w.db
  lock_kept r key =
      find-step_elsewhere r w (make_lock_key (clients i).gid) valid
        (λ e. lock_key-ne (clients i).gid (clients i).n (e ∙ key))

  pub put-Status :
      (x : Option Response) (v : Vv)
      → (clients i).pc ≡ writing
      → (clients i).nvalues ≤ max_sequence_length
      → Owner clients w.db mail (clients i).gid i v
      → Status clients
          (step (put_request (put_of (clients i))) w).1.db
          (update mail i x)
          (clients i).gid
  put-Status x v at many o =
      let w' = (step (put_request (put_of (clients i))) w).1 in
      let p : Writing w.db (clients i).gid (clients i).n (clients i).nvalues (clients i).value
          (mail i) =
        from_pc writing w.db v (mail i) at o.phase in
      let room = p.room in
      let near = p.near in
      let g = (clients i).gid in
      let n = (clients i).n in
      let y = (clients i).value in
      let old = p.older in
      let older : Older w'.db g (n + 1) y (n + 1) = record {
        n = old.n;
        y = old.y;
        few = old.few;
        full = old.full;
        slots = λ k lt. elim (Bool-cases (k == n)) [
          | inl here ↦
              let eq : n ≡ k = ground arith in
              subst
                (λ k.
                  value_at w'.db g k
                  ≡ (if ltb k 0 then none else slot (n + 1) y (n + 1) old.n old.y k))
                eq (put_done (clients i) w valid ∙ ground arith)
          | inr other ↦
              beside (put_request (put_of (clients i))) k refl (omega arith) lt
                (ground (arith, other))
              ∙ (old.slots k lt ∙ ground (arith, near))
        ];
      } in
      moved x v w' o (lock_kept (put_request (put_of (clients i))) refl) (
        at_pc writing w'.db v x at
          (record { room = p.room; a = n + 1; near = inr refl; older = older; done = λ r e. refl }))
