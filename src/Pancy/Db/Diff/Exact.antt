-- ===== src/Pancy/Db/Diff/Exact.antt =====
-- `diff` of pset4/pancydb.cc where no skew is allowed.
use traxos.Base.{
  ℕ, ◌≤◌, ◌<◌, ◌≡◌, ◌↔◌, refl, sym, Text, Bool, true, false, ltb, none, some, List, [], ◌∷◌, length,
  Bool-cases, inl, inr, text_cmp_iff, text_eq_iff, text_ordered, arith,
}
use traxos.Base.Int.{ℤ, pos}
use traxos.OrdMap.{OrdMap}
use traxos.OrdMap.Values.{AllValues}
use traxos.Pancy.Db.{Vv, RecentRemove, PancyDb, World, version_limit}
use traxos.Pancy.Db.Spec.Valid.{VersionBelow, RemovesBelow, IsValid}
use traxos.Pancy.Db.Diff.{
  find_recent_remove, min_version, back, removes_complete, differ, diff_loop, diff_newer, diff,
}

min_version_none : (n : ℕ) → n < version_limit → min_version n 0 ≡ pos n
unfolding min_version
min_version_none n h = ground arith

-- Removals older than the window are not found.
find_recent_remove_old :
    (m n : ℕ) (rs : List RecentRemove) (key : Text)
    → m ≤ n
    → RemovesBelow m rs
    → find_recent_remove rs key (pos n) ≡ none
unfolding find_recent_remove
find_recent_remove_old m n [] key h b = refl
find_recent_remove_old m n (r ∷ rs) key h b =
    let older = find_recent_remove_old r.remove_version n rs key (omega arith) b.3 in ground arith

back-RemovesBelow :
    (n : ℕ) (rs : List RecentRemove) (r : RecentRemove)
    → RemovesBelow n rs
    → back rs ≡ some r
    → r.remove_version < n
unfolding back
back-RemovesBelow n [] r b e = cc
back-RemovesBelow n (x ∷ []) r b e = ground arith
back-RemovesBelow n (x ∷ y ∷ rs) r b e =
    let lower = back-RemovesBelow x.remove_version (y ∷ rs) r b.3 e in omega arith

pub back-some : (rs : List RecentRemove) → 0 < length rs → (r : RecentRemove) × (back rs ≡ some r)
unfolding back
back-some [] h = absurd (omega arith)
back-some (x ∷ []) h = (x, refl)
back-some (x ∷ y ∷ rs) h = back-some (y ∷ rs) (omega arith)

removes_complete_now :
    (n : ℕ) (rs : List RecentRemove) → RemovesBelow n rs → removes_complete rs (pos n) ≡ true
unfolding removes_complete
removes_complete_now n [] b = refl
removes_complete_now n (x ∷ rs) b =
    let (r, e) = back-some (x ∷ rs) (omega arith) in
    let lower = back-RemovesBelow n (x ∷ rs) r b e in ground arith

pub differ_self :
    (complete : Bool) (min : ℤ) (v : Vv) → differ complete min (some v) (some v) ≡ false
unfolding differ
differ_self complete min v = ground (arith, text_eq_iff v.value v.value)

differ_exact :
    (n : ℕ) (v w : Vv) → v.version < n → differ true (pos n) (some v) (some w) ≡ false → v ≡ w
unfolding differ
differ_exact n v w h e = ground (arith, text_eq_iff v.value w.value)

module _ (ar br : List RecentRemove) where
  diff_loop_self :
      (complete : Bool) (min : ℤ) (a : OrdMap Text Vv) → diff_loop ar br complete min a a ≡ none
  unfolding diff_loop
  diff_loop_self complete min [] = refl
  diff_loop_self complete min ((i, v) ∷ a) =
      rw ((text_cmp_iff i i).1 refl, diff_loop, differ_self complete min v)
        (diff_loop_self complete min a)

  diff_loop_exact :
      (n m : ℕ) (a b : OrdMap Text Vv)
      → m ≤ n
      → RemovesBelow n ar
      → RemovesBelow m br
      → AllValues (VersionBelow n) a
      → diff_loop ar br true (pos n) a b ≡ none
      → a ≡ b
  unfolding diff_loop
  diff_loop_exact n m [] [] h ra rb va e = refl
  diff_loop_exact n m ((i, v) ∷ a) [] h ra rb va e =
      ground (arith, find_recent_remove_old m n br i h rb)
  diff_loop_exact n m [] ((j, w) ∷ b) h ra rb va e =
      ground (arith, find_recent_remove_old n n ar j (omega arith) ra)
  diff_loop_exact n m ((i, v) ∷ a) ((j, w) ∷ b) h ra rb va e = ground (
    arith,
    find_recent_remove_old m n br i h rb,
    find_recent_remove_old n n ar j (omega arith) ra,
    text_cmp_iff i j,
    differ_exact n v w va.0.1,
    diff_loop_exact n m a b h ra rb va.1,
  )

diff_newer_eq :
    (a b : World)
    → IsValid a
    → IsValid b
    → a.next_version < version_limit
    → b.next_version ≤ a.next_version
    → diff_newer a.self b.self 0 ≡ none
    → a.db ≡ b.db
unfolding diff_newer
diff_newer_eq a b va vb room newer e =
    diff_loop_exact a.recent_removes b.recent_removes a.next_version b.next_version a.db b.db newer
      va.removes vb.removes va.versions
      (rw
        (
          min_version_none a.next_version room,
          removes_complete_now a.next_version a.recent_removes va.removes,
        )
        at e)

diff_newer_self : (a b : PancyDb) (skew : ℕ) → a.db ≡ b.db → diff_newer a b skew ≡ none
unfolding diff_newer
diff_newer_self a b skew e = rw (← e) (diff_loop_self a.recent_removes b.recent_removes _ _ a.db)

-- Of two valid databases below the version limit, `diff` with no skew finds nothing exactly when
-- the two have the same keys, values and versions, whichever of the two is newer.
pub diff_exact :
    (a b : World)
    → IsValid a
    → IsValid b
    → a.next_version < version_limit
    → b.next_version < version_limit
    → (diff a.self b.self 0 ≡ none) ↔ (a.db ≡ b.db)
unfolding diff
diff_exact a b va vb room room' = elim (Bool-cases (ltb a.next_version b.next_version)) [
  | inl older ↦ rw older (
    λ e. sym (diff_newer_eq b a vb va room' (ground arith) e),
    λ e. diff_newer_self b.self a.self 0 (sym e),
  )
  | inr newer ↦
      rw newer (diff_newer_eq a b va vb room (ground arith), diff_newer_self a.self b.self 0)
]
