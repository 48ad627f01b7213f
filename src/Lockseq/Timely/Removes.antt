-- ===== src/Lockseq/Timely/Removes.antt =====
-- What the answer to a client's removal does to the client's group.
use traxos.Base.{
  ℕ, ◌+◌, ◌<◌, ◌≤◌, ◌≡◌, ◌≢◌, ◌⊎◌, inl, inr, refl, sym, ap, ◌∙◌, true, Option, none, some, arith,
  Option-cases, Bool-cases, if◌then◌else◌, ◌==◌, ltb, text_ordered,
}
use mathlib.Core.Path.{subst}
use traxos.OrdMap.{find}
use traxos.Pancy.Msgs.{Response, remove_request, remove_response}
use traxos.Pancy.Db.{Vv, World}
use traxos.Pancy.Db.Spec.{step}
use traxos.Pancy.Db.Spec.Valid.{IsValid}
use traxos.Pancy.Db.Spec.Effects.{is_ok}
use traxos.Pancy.Db.Spec.Runs.{Spent}
use traxos.Lockseq.Keys.{make_lock_key, make_value_key}
use traxos.Lockseq.Groups.{value_at, value_of, slot, Slots}
use traxos.Lockseq.Client.{clearing, unlocking, Cstate, nclients, max_sequence_length}
use traxos.Lockseq.Client.Locks.{Owned}
use traxos.Lockseq.Client.Names.{IsValueOf, IsValueOf-ne-nil, value_key-ne-lock_key}
use traxos.Lockseq.Client.Turns.{clear_of, unlock_of}
use traxos.Lockseq.System.{update}
use traxos.Lockseq.Timely.Status.{Older, Clearing, PhaseAt, Owner, Status, free}
use traxos.Lockseq.Timely.Requests.{remove_done, remove_ok, unlock_done, unlock_refused}
use traxos.Lockseq.Timely.Found.{find-step_elsewhere}
use traxos.Lockseq.Timely.Serves.{
  reply-Status, Owner-of_lock, at_pc, from_pc, moved, beside, lock_kept,
}

some_inj : {A : Type 0} → (a b : A) → some a ≡ some b → a ≡ b
some_inj a b e = cc

module _ (clients : ℕ → Cstate) (w : World) (mail : ℕ → Option Response) (valid : IsValid w) (i : ℕ)
    (small : i < nclients) (named : IsValueOf i (clients i).value) where
  cleared :
      (p : Clearing w.db
        (clients i).gid
        (clients i).n
        (clients i).nvalues
        (clients i).tries
        (clients i).value
        (mail i))
      → Slots
          (step (remove_request (clear_of (clients i))) w).1.db
          (clients i).gid
          0
          (slot (clients i).nvalues (clients i).value ((clients i).n + 1) p.older.n p.older.y)
  cleared p k lt =
      let g = (clients i).gid in
      let n = (clients i).n in
      let r = remove_request (clear_of (clients i)) in
      let past = p.past in
      let room = p.room in
      let near = p.near in
      let old = p.older in
      elim (Bool-cases (k == n)) [
        | inl here ↦
            let eq : n ≡ k = ground arith in
            subst
              (λ k. value_at (step r w).1.db g k ≡ (
                if ltb k 0
                then none
                else slot (clients i).nvalues (clients i).value (n + 1) old.n old.y k))
              eq (ap value_of (remove_done (clients i) w valid) ∙ ground arith)
        | inr other ↦
            beside clients w mail valid i small named r k refl (omega arith) lt
              (ground (arith, other))
            ∙ (old.slots k lt ∙ ground (arith, near))
      ]

  told :
      (p : Clearing w.db
        (clients i).gid
        (clients i).n
        (clients i).nvalues
        (clients i).tries
        (clients i).value
        (mail i))
      → mail i ≡ none
      → (r : _) → (step (remove_request (clear_of (clients i))) w).0 ≡ remove_response r
      → (clients i).tries ≡ 0
      → (is_ok r.errcode ≡ true) ⊎ (p.older.n ≤ (clients i).n)
  told p new r e zero =
      let b = p.first zero new in
      let past = p.past in
      let room = p.room in
      let slots = p.older.slots (clients i).n (omega arith) in
      elim (Bool-cases (ltb (clients i).n p.older.n)) [
        | inr end ↦ inr (ground arith)
        | inl more ↦
            elim (Option-cases (find (make_value_key (clients i).gid (clients i).n) w.db)) [
              | inl gone ↦ absurd (ground arith)
              | inr (old, found) ↦ inl (remove_ok (clients i) w old r found e)
            ]
      ]

  pub clear-Status :
      (v : Vv)
      → (clients i).pc ≡ clearing
      → mail i ≡ none
      → Owner clients w.db mail (clients i).gid i v
      → Status clients
          (step (remove_request (clear_of (clients i))) w).1.db
          (update mail i (some (step (remove_request (clear_of (clients i))) w).0))
          (clients i).gid
  clear-Status v at new o =
      let r = remove_request (clear_of (clients i)) in
      let w' = (step r w).1 in
      let x : Option Response = some (step r w).0 in
      let p : Clearing w.db (clients i).gid (clients i).n (clients i).nvalues (clients i).tries
          (clients i).value (mail i) =
        from_pc clients w mail valid i small named clearing w.db v (mail i) at o.phase in
      let older : Older w'.db (clients i).gid (clients i).nvalues (clients i).value
          ((clients i).n + 1) =
        record {
          n = p.older.n;
          y = p.older.y;
          few = p.older.few;
          full = p.older.full;
          slots = cleared p;
        } in
      let phase : PhaseAt clearing w'.db (clients i).gid v (clients i) x = record {
        past = p.past;
        room = p.room;
        b = (clients i).n + 1;
        near = inr refl;
        older = older;
        first = λ zero e. absurd cc;
        done = λ q e. (refl, told p new q (some_inj (step r w).0 (remove_response q) e));
      } in
      moved clients w mail valid i small named x v w' o
        (lock_kept clients w mail valid i small named r refl)
        (at_pc clients w mail valid i small named clearing w'.db v x at phase)

  pub unlock-Status :
      (x : Option Response)
      → (clients i).pc ≡ unlocking
      → (clients i).nvalues ≤ max_sequence_length
      → Owned (make_lock_key (clients i).gid) (clients i).value (clients i).lock_version w
        ⊎ Spent (clients i).lock_version (make_lock_key (clients i).gid) w
      → Status clients w.db mail (clients i).gid
      → Status clients
          (step (remove_request (unlock_of (clients i))) w).1.db
          (update mail i x)
          (clients i).gid
  unlock-Status x at many (inl own) st =
      let (v, ver, o) =
        Owner-of_lock clients w mail valid i small named (clients i).lock_version own st in
      let r = remove_request (unlock_of (clients i)) in
      let g = (clients i).gid in
      let p : PhaseAt unlocking w.db g v (clients i) (mail i) =
        from_pc clients w mail valid i small named unlocking w.db v (mail i) at o.phase in
      free (unlock_done (clients i) w v valid o.found ver) (record {
        n = (clients i).nvalues;
        y = (clients i).value;
        few = many;
        full = IsValueOf-ne-nil i (clients i).value named;
        slots = λ k lt.
            ap value_of
              (find-step_elsewhere r w (make_value_key g k) valid (value_key-ne-lock_key g k g))
            ∙ (p.2 k lt ∙ ground arith);
      })
  unlock-Status x at many (inr spent) st =
      let other : (old : Vv)
          → find (make_lock_key (clients i).gid) w.db ≡ some old
          → old.version ≢ (clients i).lock_version =
        λ old found e. spent.2 (ground (arith, found, e)) in
      subst (λ w'. Status clients w'.db (update mail i x) (clients i).gid)
        (sym (unlock_refused (clients i) w other))
        (reply-Status clients w.db mail i (clients i).gid x
          (λ v o. absurd (
            other v o.found
              (from_pc clients w mail valid i small named unlocking w.db v (mail i) at o.phase).0))
          st)
