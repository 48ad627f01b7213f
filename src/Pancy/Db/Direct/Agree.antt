-- ===== src/Pancy/Db/Direct/Agree.antt =====
-- The direct API of pset4/pancydb.hh against the specification of the database.
use traxos.Base.{
  ◌+◌, ◌<◌, ◌≡◌, Text, none, some, true, false, arith, text_ordered, Option-cases, inl, inr,
}
use traxos.OrdMap.{find, emplace, assign}
use traxos.OrdMap.Laws.{emplace-insert_or_assign, assign-insert_or_assign, emplace_present}
use traxos.OrdMap.Values.{find-AllValues}
use traxos.Pancy.Db.{Vv, World, version_limit}
use traxos.Pancy.Db.Process.Refine.{bump-bumped, with_db, do_remove-removed}
use traxos.Pancy.Db.Spec.{written, removed}
use traxos.Pancy.Db.Spec.Valid.{VersionBelow, IsValid}
use traxos.Pancy.Db.Direct.{get, put, remove}

-- On a valid database `get` finds a key exactly when the map has it, since no stored version is the
-- nonexistent one.
pub get-find : (key : Text) (w : World) → IsValid w → get key w ≡ some (find key w.db, w)
unfolding get
get-find key w v = elim (Option-cases (find key w.db)) [
  | inl gone ↦ ground (arith, v.static)
  | inr (old, found) ↦
      let fits = find-AllValues (VersionBelow w.next_version) key w.db old v.versions found in
      ground (arith, fits)
]

-- With room for one more version, `put` writes as an accepted put request does.
pub put-written :
    (key value : Text) (w : World)
    → w.next_version + 1 < version_limit
    → put key value w ≡ some (tt, written key value w)
unfolding put written
put-written key value w room =
    let new : Vv = record { value = value; version = w.next_version } in
    elim (Option-cases (find key w.db)) [
      | inl gone ↦ ground (
        arith,
        bump-bumped (with_db w (emplace key new w.db)) room,
        emplace-insert_or_assign key new w.db gone,
      )
      | inr (old, found) ↦ ground (
        arith,
        emplace_present key new w.db old found,
        bump-bumped (with_db w (assign key new w.db)) room,
        assign-insert_or_assign key new w.db old found,
      )
    ]

-- With room for one more version, `remove` tells whether the key was there, and removes as an
-- accepted remove request does.
pub remove-removed :
    (key : Text) (w : World)
    → w.next_version + 1 < version_limit
    → remove key w
      ≡ elim (find key w.db) [ none ↦ some (false, w) | some old ↦ some (true, removed key old w) ]
unfolding remove
remove-removed key w room = elim (Option-cases (find key w.db)) [
  | inl gone ↦ ground arith
  | inr (old, found) ↦ ground (arith, do_remove-removed key old w found room)
]
