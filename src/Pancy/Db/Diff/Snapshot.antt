-- ===== src/Pancy/Db/Diff/Snapshot.antt =====
-- `diff` of pset4/pancydb.cc on a database and an earlier state of it.
use traxos.Base.{
  ℕ, ◌+◌, ◌≤◌, ◌<◌, ◌≡◌, ◌⊎◌, inl, inr, refl, Text, Bool, true, false, Option, none, some, List, [],
  ◌∷◌, text_ordered, arith,
}
use traxos.Base.Int.{ℤ, pos, ltb_ℤ, leb_ℤ}
use traxos.OrdMap.{find}
use traxos.OrdMap.Values.{find-AllValues}
use traxos.Pancy.Msgs.{Request}
use traxos.Pancy.Db.{Vv, RecentRemove, World, version_limit}
use traxos.Pancy.Db.Spec.Valid.{VersionBelow, RemovesBelow, IsValid}
use traxos.Pancy.Db.Spec.Runs.{steps, steps-IsValid}
use traxos.Pancy.Db.Diff.{
  find_recent_remove, min_version, back, removes_complete, differ, diff_newer, diff,
}
use traxos.Pancy.Db.Diff.Exact.{back-some, differ_self}
use traxos.Pancy.Db.Diff.Pointwise.{clash, Agrees, diff_loop-Agrees}
use traxos.Pancy.Db.Diff.Follows.{
  AllAfter, IsFull, IsGone, latest, Follows, Follows-refl, steps-Follows,
}

-- A lower bound of the window: every version from `n` on is inside.
abbrev Starts : ℤ → ℕ → Type 0
Starts min n = (x : ℕ) → n ≤ x → (leb_ℤ min (pos x) ≡ true) × (ltb_ℤ (pos x) min ≡ false)

min_version-Starts :
    (next skew n : ℕ)
    → next < version_limit
    → skew ≤ version_limit
    → next ≤ n + skew
    → Starts (min_version next skew) n
unfolding min_version
min_version-Starts next skew n room small near x h = ground arith

after_start : (min : ℤ) (n x : ℕ) → Starts min n → n < x → leb_ℤ (pos x) min ≡ false
after_start min n x starts h = ground (arith, starts n (omega arith))

back-AllAfter :
    (n : ℕ) (rs : List RecentRemove) (r : RecentRemove)
    → AllAfter n rs
    → back rs ≡ some r
    → n < r.remove_version
unfolding back
back-AllAfter n [] r a e = cc
back-AllAfter n (x ∷ []) r a e = ground arith
back-AllAfter n (x ∷ y ∷ rs) r a e = back-AllAfter n (y ∷ rs) r a.1 e

removes_complete_full :
    (n : ℕ) (min : ℤ) (rs : List RecentRemove)
    → Starts min n
    → IsFull n rs
    → removes_complete rs min ≡ false
unfolding removes_complete
removes_complete_full n min rs starts (full, after) =
    let (r, e) = back-some rs (omega arith) in
    let late = after_start min n r.remove_version starts (back-AllAfter n rs r after e) in
    ground arith

find_recent_remove-latest :
    (min : ℤ) (k : Text) (rs : List RecentRemove) (r : RecentRemove)
    → latest k rs ≡ some r
    → leb_ℤ min (pos r.remove_version) ≡ true
    → find_recent_remove rs k min ≡ some r.vv
unfolding find_recent_remove latest
find_recent_remove-latest min k [] r e h = cc
find_recent_remove-latest min k (x ∷ rs) r e h =
    ground (arith, find_recent_remove-latest min k rs r)

find_recent_remove-none :
    (min : ℤ) (k : Text) (rs : List RecentRemove)
    → latest k rs ≡ none
    → find_recent_remove rs k min ≡ none
unfolding find_recent_remove latest
find_recent_remove-none min k [] e = refl
find_recent_remove-none min k (x ∷ rs) e = ground (arith, find_recent_remove-none min k rs)

find_recent_remove-lt :
    (n : ℕ) (min : ℤ) (k : Text) (rs : List RecentRemove) (v : Vv)
    → RemovesBelow n rs
    → find_recent_remove rs k min ≡ some v
    → v.version < n
unfolding find_recent_remove
find_recent_remove-lt n min k [] v b e = cc
find_recent_remove-lt n min k (x ∷ rs) v b e =
    ground (arith, find_recent_remove-lt x.remove_version min k rs v b.3)

-- A value from inside the window, against an older one, or the same value, is no error.
differ_newer :
    (complete : Bool) (min : ℤ) (n : ℕ) (v w : Vv)
    → Starts min n
    → n ≤ v.version
    → w.version < n
    → differ complete min (some v) (some w) ≡ false
unfolding differ
differ_newer complete min n v w starts h k = ground (arith, starts v.version h)

module _ (b a : World) (vb : IsValid b) (f : Follows b a) (min : ℤ)
    (starts : Starts min b.next_version) where
  abbrev complete : Bool
  complete = removes_complete a.recent_removes min

  old_version : (k : Text) (w : Vv) → find k b.db ≡ some w → w.version < b.next_version
  old_version k w e = (find-AllValues (VersionBelow b.next_version) k b.db w vb.versions e).1

  added :
      (k : Text) (v : Vv) (o : Option Vv)
      → find_recent_remove b.recent_removes k min ≡ o
      → b.next_version ≤ v.version
      → differ complete min (some v) o ≡ false
  added k v none e h = unfold differ in ground (arith, starts v.version h)
  added k v (some x) e h =
      differ_newer complete min b.next_version v x starts h
        (find_recent_remove-lt b.next_version min k b.recent_removes x vb.removes e)

  gone :
      (k : Text) (w : Vv) (o : Option RecentRemove)
      → find k b.db ≡ some w
      → latest k a.recent_removes ≡ o
      → IsGone b.next_version w o a.recent_removes
      → differ complete min (find_recent_remove a.recent_removes k min) (some w) ≡ false
  unfolding differ
  gone k w none e l full =
      rw (find_recent_remove-none min k a.recent_removes l, differ)
        (removes_complete_full b.next_version min a.recent_removes starts full)
  gone k w (some r) e l (late, value) =
      rw (find_recent_remove-latest min k a.recent_removes r l (starts r.remove_version late).0)
        (elim value [
          | inl new ↦ differ_newer complete min b.next_version r.vv w starts new (old_version k w e)
          | inr same ↦ rw same (differ_self complete min w)
        ])

  both :
      (k : Text) (v w : Vv)
      → find k b.db ≡ some w
      → (b.next_version ≤ v.version) ⊎ (find k b.db ≡ some v)
      → differ complete min (some v) (some w) ≡ false
  both k v w e (inl new) =
      differ_newer complete min b.next_version v w starts new (old_version k w e)
  both k v w e (inr same) = let eq : v ≡ w = cc in rw eq (differ_self complete min w)

  no_clash :
      (k : Text) (oa ob : Option Vv)
      → find k a.db ≡ oa
      → find k b.db ≡ ob
      → clash a.recent_removes b.recent_removes complete min k oa ob ≡ false
  unfolding clash
  no_clash k none none ea eb = refl
  no_clash k none (some w) ea eb = gone k w _ eb refl (f.gone k w eb ea)
  no_clash k (some v) none ea eb = elim (f.kept k v ea) [
    | inl new ↦ added k v _ refl new
    | inr same ↦ absurd (cc)
  ]
  no_clash k (some v) (some w) ea eb = both k v w eb (f.kept k v ea)

-- A database that is a later state of a valid `b`, by any requests that made no more than `skew`
-- versions and stayed below the version limit, is accepted by `diff` against `b`, for any skew up
-- to that limit.
pub diff_snapshot :
    (rs : List Request) (b : World) (skew : ℕ)
    → IsValid b
    → (steps rs b).next_version < version_limit
    → skew ≤ version_limit
    → (steps rs b).next_version ≤ b.next_version + skew
    → diff (steps rs b).self b.self skew ≡ none
unfolding diff diff_newer
diff_snapshot rs b skew vb room small near =
    let a = steps rs b in
    let va = steps-IsValid rs b vb in
    let f = steps-Follows rs b b vb (Follows-refl b) in
    let min = min_version a.next_version skew in
    let starts = min_version-Starts a.next_version skew b.next_version room small near in
    let agrees : Agrees a.recent_removes b.recent_removes (removes_complete a.recent_removes min)
        min a.db b.db =
      λ k. no_clash b a vb f min starts k _ _ refl refl in
    let found =
      diff_loop-Agrees a.recent_removes b.recent_removes _ min a.db b.db va.sorted vb.sorted
        agrees in
    ground (arith, f.grown)
