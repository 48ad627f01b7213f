-- ===== src/Lockseq/Timely/Found.antt =====
-- What a request does to the entries of the database, and to each group.
use traxos.Base.{
  ℕ, ◌<◌, ◌≡◌, ◌≢◌, inl, inr, sym, ap, ◌∙◌, Text, Bool, true, false, ◌&&◌, Option, none, some, [],
  ◌∷◌, ◌++◌, arith, Option-cases, Bool-cases, if◌then◌else◌, text_ordered, text_cmp_iff, text_cmp,
  All, Ordering-cases,
}
use mathlib.Core.Path.{subst}
use traxos.OrdMap.{OrdMap, find, same, insert_or_assign, erase}
use traxos.OrdMap.Laws.{find-insert_or_assign, find-erase}
use traxos.Pancy.Msgs.{
  Request, Response, get_request, put_request, cas_request, remove_request, response_errcode,
}
use traxos.Pancy.Db.{Vv, World}
use traxos.Pancy.Db.Spec.{step, write_step, written, removed}
use traxos.Pancy.Db.Process.{mismatch}
use traxos.Pancy.Db.Spec.Valid.{IsValid}
use traxos.Pancy.Db.Spec.Effects.{request_key, is_ok}
use traxos.Lockseq.Keys.{make_lock_key, make_value_key}
use traxos.Lockseq.Held.{group}
use traxos.Lockseq.Groups.{value_at, value_of, AllKeys, IsKey}
use traxos.Lockseq.Groups.Accepts.{foreign_lock, foreign_value}
use traxos.Lockseq.Client.{
  Pc, idle, locking, lock_delay, writing, write_delay, clearing, clear_delay, unlocking, thrown,
  Cstate,
}
use traxos.Lockseq.Timely.Status.{Older, PhaseAt, Phase, Status, free, owned}

-- What stands at the key of an accepted request, where `old` stood.
abbrev stored : Request → ℕ → Option Vv → Option Vv
stored (get_request r) n old = old
stored (put_request r) n old = some (record { value = r.value; version = n })
stored (cas_request r) n old = some (record { value = r.desired; version = n })
stored (remove_request r) n old = none

pub find-step :
    (r : Request) (w : World) (j : Text)
    → IsValid w
    → find j (step r w).1.db ≡ (
        if is_ok (response_errcode (step r w).0) && same j (request_key r)
        then stored r w.next_version (find j w.db)
        else find j w.db)
unfolding step response_errcode written removed
find-step (get_request r) w j v = ground arith
find-step (put_request r) w j v = ground (
  arith,
  find-insert_or_assign j r.key (record { value = r.value; version = w.next_version }) w.db,
)
find-step (cas_request r) w j v = ground (
  arith,
  find-insert_or_assign j r.key (record { value = r.desired; version = w.next_version }) w.db,
)
find-step (remove_request r) w j v = elim (Option-cases (find r.key w.db)) [
  | inl gone ↦ ground arith
  | inr (old, found) ↦ ground (arith, find-erase j r.key w.db v.sorted)
]

pub find-step_elsewhere :
    (r : Request) (w : World) (j : Text)
    → IsValid w
    → j ≢ request_key r
    → find j (step r w).1.db ≡ find j w.db
find-step_elsewhere r w j v ne = ground (arith, find-step r w j v, text_cmp_iff j (request_key r))

insert_or_assign-AllKeys :
    (k : Text) (x : Vv) (m : OrdMap Text Vv)
    → IsKey k
    → AllKeys m
    → AllKeys (insert_or_assign k x m)
unfolding insert_or_assign
insert_or_assign-AllKeys k x [] is keys = (is, tt)
insert_or_assign-AllKeys k x ((i, w) ∷ m) is keys = elim (Ordering-cases (text_cmp k i)) [
  | inl e ↦ rw (e, AllKeys, All, insert_or_assign) (is, keys)
  | inr (inl e) ↦ rw (e, AllKeys, All, insert_or_assign) (keys.0, keys.1)
  | inr (inr e) ↦
      rw (e, AllKeys, All, insert_or_assign) (keys.0, insert_or_assign-AllKeys k x m is keys.1)
]

erase-AllKeys : (k : Text) (m : OrdMap Text Vv) → AllKeys m → AllKeys (erase k m)
unfolding erase
erase-AllKeys k [] keys = tt
erase-AllKeys k ((i, w) ∷ m) keys = elim (Ordering-cases (text_cmp k i)) [
  | inl e ↦ rw (e, AllKeys, All, erase) keys
  | inr (inl e) ↦ rw (e, AllKeys, All, erase) keys.1
  | inr (inr e) ↦ rw (e, AllKeys, All, erase) (keys.0, erase-AllKeys k m keys.1)
]

written-AllKeys :
    (key value : Text) (w : World) → IsKey key → AllKeys w.db → AllKeys (written key value w).db
unfolding written
written-AllKeys key value w is keys =
    insert_or_assign-AllKeys key (record { value = value; version = w.next_version }) w.db is keys

write_step-AllKeys :
    (refused : Bool) (serial : ℕ) (key value : Text) (w : World)
    → IsKey key
    → AllKeys w.db
    → AllKeys (write_step refused serial key value w).1.db
write_step-AllKeys true serial key value w is keys = keys
write_step-AllKeys false serial key value w is keys = written-AllKeys key value w is keys

pub step-AllKeys :
    (r : Request) (w : World) → IsKey (request_key r) → AllKeys w.db → AllKeys (step r w).1.db
unfolding step removed
step-AllKeys (get_request r) w is keys = keys
step-AllKeys (put_request r) w is keys = write_step-AllKeys _ r.serial r.key r.value w is keys
step-AllKeys (cas_request r) w is keys = write_step-AllKeys _ r.serial r.key r.desired w is keys
step-AllKeys (remove_request r) w is keys = elim (Option-cases (find r.key w.db)) [
  | inl e ↦ rw (e, step) keys
  | inr (x, e) ↦ elim (Bool-cases (mismatch r.version_match x.version)) [
    | inl out ↦ rw (e, out, step) keys
    | inr win ↦ rw (e, win, step) (erase-AllKeys r.key w.db keys)
  ]
]

-- The entries of a group are the same.
abbrev pub SameGroup : OrdMap Text Vv → OrdMap Text Vv → ℕ → Type 0
SameGroup m m' g =
    (find (make_lock_key g) m' ≡ find (make_lock_key g) m)
    × ((k : ℕ) → k < 1000 → value_at m' g k ≡ value_at m g k)

pub elsewhere-SameGroup :
    (r : Request) (w : World) (g h : ℕ) (t : Text)
    → IsValid w
    → request_key r ≡ group g ++ t
    → h ≢ g
    → SameGroup w.db (step r w).1.db h
elsewhere-SameGroup r w g h t v e ne = (
  find-step_elsewhere r w (make_lock_key h) v (foreign_lock g h (request_key r) t e ne),
  λ k small.
      ap value_of (
        find-step_elsewhere r w (make_value_key h k) v
          (foreign_value g h (request_key r) t e ne k)),
)

module _ (m m' : OrdMap Text Vv) (g : ℕ)
    (kept : (k : ℕ) → k < 1000 → value_at m' g k ≡ value_at m g k) where
  abbrev kept_older : (a : ℕ) (x : Text) (b : ℕ) → Older m g a x b → Older m' g a x b
  kept_older a x b o = record {
    n = o.n;
    y = o.y;
    few = o.few;
    full = o.full;
    slots = λ k small. kept k small ∙ o.slots k small;
  }

  pub same-PhaseAt :
      (pc : Pc) (v : Vv) (c : Cstate) (mail : Option Response)
      → PhaseAt pc m g v c mail
      → PhaseAt pc m' g v c mail
  same-PhaseAt idle v c mail p = p
  same-PhaseAt locking v c mail p = kept_older 0 c.value 0 p
  same-PhaseAt lock_delay v c mail p = kept_older 0 c.value 0 p
  same-PhaseAt writing v c mail p = record {
    room = p.room;
    a = p.a;
    near = p.near;
    older = kept_older p.a c.value p.a p.older;
    done = p.done;
  }
  same-PhaseAt write_delay v c mail p = (p.0, kept_older c.n c.value c.n p.1)
  same-PhaseAt clearing v c mail p = record {
    past = p.past;
    room = p.room;
    b = p.b;
    near = p.near;
    older = kept_older c.nvalues c.value p.b p.older;
    first = p.first;
    done = p.done;
  }
  same-PhaseAt clear_delay v c mail p = (p.0, kept_older c.nvalues c.value c.n p.1)
  same-PhaseAt unlocking v c mail p = (p.0, p.1, λ k small. kept k small ∙ p.2 k small)
  same-PhaseAt (thrown e) v c mail p = (p.0, p.1, p.2, kept_older p.0 c.value p.1 p.3)

-- A group that a step of another does not touch.
pub same-Status :
    (clients : ℕ → Cstate) (m m' : OrdMap Text Vv) (mail mail' : ℕ → Option Response) (g : ℕ)
    → SameGroup m m' g
    → ((j : ℕ) → (clients j).gid ≡ g → mail' j ≡ mail j)
    → Status clients m mail g
    → Status clients m' mail' g
same-Status clients m m' mail mail' g kept quiet (free gone o) =
    free (kept.0 ∙ gone) (kept_older m m' g kept.1 0 [] 0 o)
same-Status clients m m' mail mail' g kept quiet (owned j v o) = owned j v (record {
  small = o.small;
  found = kept.0 ∙ o.found;
  value = o.value;
  gid = o.gid;
  named = o.named;
  holder = o.holder;
  phase =
      subst (λ x. Phase m' g v (clients j) x) (sym (quiet j o.gid))
        (same-PhaseAt m m' g kept.1 (clients j).pc v (clients j) (mail j) o.phase);
})
