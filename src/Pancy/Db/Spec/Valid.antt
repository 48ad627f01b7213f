-- ===== src/Pancy/Db/Spec/Valid.antt =====
-- The invariant of the database: keys in order, every stored version positive and below the next,
-- removals in order of time, at most a hundred of them, and the shared static untouched.
use traxos.Base.{ℕ, ◌≤◌, ◌<◌, ◌≡◌, refl, List, [], ◌∷◌, length, arith, text_ordered}
use traxos.OrdMap.{IsSorted}
use traxos.OrdMap.Values.{AllValues}
use traxos.Pancy.Db.{Vv, absent, RecentRemove, World, init, max_recent_removes}

abbrev pub VersionBelow : ℕ → Vv → Type 0
VersionBelow n v = (0 < v.version) × (v.version < n)

-- The removals from the latest on, all below the version `n`.
abbrev pub RemovesBelow : ℕ → List RecentRemove → Type 0
RemovesBelow n [] = Unit
RemovesBelow n (r ∷ rs) =
    (r.remove_version < n)
    × (0 < r.vv.version)
    × (r.vv.version < r.remove_version)
    × RemovesBelow r.remove_version rs

pub record IsValid (w : World) : Type 0 where
  pub static : w.nonexistent_vv ≡ absent
  pub positive : 0 < w.next_version
  pub sorted : IsSorted w.db
  pub versions : AllValues (VersionBelow w.next_version) w.db
  pub removes : RemovesBelow w.next_version w.recent_removes
  pub few : length w.recent_removes ≤ max_recent_removes

pub init-IsValid : IsValid init
init-IsValid = record {
  static = refl;
  positive = omega arith;
  sorted = tt;
  versions = tt;
  removes = tt;
  few = omega arith;
}
