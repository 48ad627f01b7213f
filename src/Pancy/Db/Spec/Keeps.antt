-- ===== src/Pancy/Db/Spec/Keeps.antt =====
-- The invariant of the database under requests.
use traxos.Base.{
  ℕ, zero, suc, ◌+◌, ◌≤◌, ◌≡◌, Text, some, List, [], ◌∷◌, take, length-take-le, arith, text_ordered,
  Bool, true, false, inl, inr, Bool-cases, Option-cases,
}
use traxos.OrdMap.{find}
use traxos.OrdMap.Laws.{insert_or_assign-IsSorted, erase-IsSorted}
use traxos.OrdMap.Values.{
  AllValues, find-AllValues, insert_or_assign-AllValues, erase-AllValues, AllValues-mono,
}
use traxos.Pancy.Msgs.{Request, get_request, put_request, cas_request, remove_request}
use traxos.Pancy.Db.{Vv, RecentRemove, World}
use traxos.Pancy.Db.Process.{mismatch}
use traxos.Pancy.Db.Spec.{written, removed, write_step, step}
use traxos.Pancy.Db.Spec.Valid.{VersionBelow, RemovesBelow, IsValid}

RemovesBelow-mono :
    (n m : ℕ) (rs : List RecentRemove) → n ≤ m → RemovesBelow n rs → RemovesBelow m rs
RemovesBelow-mono n m [] h b = tt
RemovesBelow-mono n m (r ∷ rs) h b = (omega arith, b.1, b.2, b.3)

take-RemovesBelow :
    (k n : ℕ) (rs : List RecentRemove) → RemovesBelow n rs → RemovesBelow n (take k rs)
take-RemovesBelow zero n rs b = tt
take-RemovesBelow (suc k) n [] b = tt
take-RemovesBelow (suc k) n (r ∷ rs) b =
    (b.0, b.1, b.2, take-RemovesBelow k r.remove_version rs b.3)

VersionBelow-next : (w : World) → IsValid w → AllValues (VersionBelow (w.next_version + 1)) w.db
VersionBelow-next w v =
    AllValues-mono (VersionBelow w.next_version) (VersionBelow (w.next_version + 1)) w.db
      (λ x h. omega arith) v.versions

written-IsValid : (key value : Text) (w : World) → IsValid w → IsValid (written key value w)
unfolding written
written-IsValid key value w v = record {
  static = v.static;
  positive = omega arith;
  sorted = insert_or_assign-IsSorted key _ w.db v.sorted;
  versions =
      insert_or_assign-AllValues (VersionBelow (w.next_version + 1)) key _ w.db
        (v.positive, omega arith) (VersionBelow-next w v);
  removes = RemovesBelow-mono _ _ w.recent_removes (omega arith) v.removes;
  few = v.few;
}

removed-IsValid :
    (key : Text) (old : Vv) (w : World)
    → find key w.db ≡ some old
    → IsValid w
    → IsValid (removed key old w)
unfolding removed
removed-IsValid key old w found v =
    let fits = find-AllValues (VersionBelow w.next_version) key w.db old v.versions found in
    record {
      static = v.static;
      positive = omega arith;
      sorted = erase-IsSorted key w.db v.sorted;
      versions =
          erase-AllValues (VersionBelow (w.next_version + 1)) key w.db (VersionBelow-next w v);
      removes = (
        omega arith,
        fits.0,
        fits.1,
        take-RemovesBelow 99 w.next_version w.recent_removes v.removes,
      );
      few = omega (arith, length-take-le 99 w.recent_removes);
    }

write_step-IsValid :
    (refused : Bool) (serial : ℕ) (key value : Text) (w : World)
    → IsValid w
    → IsValid (write_step refused serial key value w).1
write_step-IsValid true serial key value w v = v
write_step-IsValid false serial key value w v = written-IsValid key value w v

pub step-IsValid : (r : Request) (w : World) → IsValid w → IsValid (step r w).1
unfolding step
step-IsValid (get_request r) w v = v
step-IsValid (put_request r) w v = write_step-IsValid _ r.serial r.key r.value w v
step-IsValid (cas_request r) w v = write_step-IsValid _ r.serial r.key r.desired w v
step-IsValid (remove_request r) w v = elim (Option-cases (find r.key w.db)) [
  | inl e ↦ rw (e, step) v
  | inr (x, e) ↦ elim (Bool-cases (mismatch r.version_match x.version)) [
    | inl m ↦ rw (e, m, step) v
    | inr m ↦ rw (e, m, step) (removed-IsValid r.key x w e v)
  ]
]
