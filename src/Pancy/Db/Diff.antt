-- ===== src/Pancy/Db/Diff.antt =====
-- `pancydb::diff` of pset4/pancydb.cc: whether two databases agree up to a number of versions.
pub mod Exact
pub mod Pointwise
pub mod Follows
pub mod Snapshot
use traxos.Base.{
  ℕ, ◌+◌, ◌-◌, ◌%◌, ◌^◌, Text, Bool, true, false, not, ◌&&◌, ◌||◌, ◌==◌, if◌then◌else◌, ltb, Option,
  none, some, List, [], ◌∷◌, length, Ordering, text_cmp, text_eq,
}
use traxos.Base.Int.{ℤ, pos, int64_of, ltb_ℤ, leb_ℤ}
use traxos.OrdMap.{OrdMap}
use traxos.Pancy.Db.{Vv, RecentRemove, PancyDb, max_recent_removes}

-- The value of the latest removal of `key` that is no older than `min_version`.
pub find_recent_remove : List RecentRemove → Text → ℤ → Option Vv
find_recent_remove [] key min_version = none
find_recent_remove (rr ∷ rs) key min_version =
    let rest = find_recent_remove rs key min_version in
    if text_eq rr.key key && leb_ℤ min_version (pos rr.remove_version) then some rr.vv else rest

-- `next_version_ - version_skew`: an unsigned 64-bit difference, read as an `int64_t`.
pub min_version : ℕ → ℕ → ℤ
min_version next skew = int64_of ((next + 2 ^ 64 - skew) % 2 ^ 64)

pub back : List RecentRemove → Option RecentRemove
back [] = none
back (rr ∷ []) = some rr
back (rr ∷ rr' ∷ rs) = back (rr' ∷ rs)

pub removes_complete : List RecentRemove → ℤ → Bool
unfolding back
removes_complete rs min_version =
    ltb (length rs) max_recent_removes
    || elim (back rs) [ none ↦ false | some rr ↦ leb_ℤ (pos rr.remove_version) min_version ]

-- Whether the versions found on the two sides are an error. `none` is the null pointer.
pub differ : Bool → ℤ → Option Vv → Option Vv → Bool
differ complete min none b = complete
differ complete min (some a) none = not (leb_ℤ min (pos a.version))
differ complete min (some a) (some b) =
    ltb a.version b.version
    || (ltb b.version a.version && ltb_ℤ (pos a.version) min)
    || (a.version == b.version && not (text_eq a.value b.value))

-- The loop, over what is left of the two maps; `ar` and `br` are the two lists of removals.
module _ (ar br : List RecentRemove) (complete : Bool) (min : ℤ) where
  pub diff_loop : OrdMap Text Vv → OrdMap Text Vv → Option Text
  unfolding differ
  diff_loop [] [] = none
  diff_loop ((i, v) ∷ a) [] =
      let rest = diff_loop a [] in
      if differ complete min (some v) (find_recent_remove br i min) then some i else rest
  diff_loop [] ((j, w) ∷ b) =
      let rest = diff_loop [] b in
      if differ complete min (find_recent_remove ar j min) (some w) then some j else rest
  diff_loop ((i, v) ∷ a) ((j, w) ∷ b) = elim (text_cmp i j) [
    | Ordering.lt ↦
        let rest = diff_loop a ((j, w) ∷ b) in
        if differ complete min (some v) (find_recent_remove br i min) then some i else rest
    | Ordering.eq ↦
        let rest = diff_loop a b in if differ complete min (some v) (some w) then some i else rest
    | Ordering.gt ↦
        let rest = diff_loop ((i, v) ∷ a) b in
        if differ complete min (find_recent_remove ar j min) (some w) then some j else rest
  ]

-- `a` is the newer of the two.
pub diff_newer : PancyDb → PancyDb → ℕ → Option Text
diff_newer a b skew =
    let min = min_version a.next_version skew in
    diff_loop a.recent_removes b.recent_removes (removes_complete a.recent_removes min) min a.db
      b.db

pub diff : PancyDb → PancyDb → ℕ → Option Text
unfolding diff_newer
diff a b skew =
    if ltb a.next_version b.next_version then diff_newer b a skew else diff_newer a b skew
