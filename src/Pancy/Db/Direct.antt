-- ===== src/Pancy/Db/Direct.antt =====
-- The direct API of pset4/pancydb.hh, against the message API.
pub mod Agree
use traxos.Base.{ℕ, Text, Option, none, some, Bool, true, false, ◌==◌, text_ordered}
use traxos.OrdMap.{find}
use traxos.Pancy.Msgs.{nonexistent_version}
use traxos.Pancy.Db.{
  Vv, Exec, ◌>>=◌, ◌>>◌, pure, VvPtr, deref, store, next, bump, find_vvptr, emplace_vvptr,
  do_remove,
}

pub version : Text → Exec ℕ
unfolding find_vvptr deref
version key = do vvp ← find_vvptr key; v ← deref vvp; pure v.version

pub exists : Text → Exec Bool
exists key w = some (elim (find key w.db) [ none ↦ false | some _ ↦ true ], w)

pub get : Text → Exec (Option Vv)
unfolding find_vvptr deref
get key = do
  vvp ← find_vvptr key
  v ← deref vvp
  pure (elim (v.version == nonexistent_version) [ true ↦ none | false ↦ some v ])

-- The write of `put` to a value that was there already.
overwrite : Bool → Text → VvPtr → Exec (Unit {0})
unfolding next store
overwrite true value vvp w = some (tt, w)
overwrite false value vvp w = (do n ← next; store vvp (record { value = value; version = n })) w

pub put : Text → Text → Exec (Unit {0})
unfolding emplace_vvptr overwrite
put key value = do (vvp, inserted) ← emplace_vvptr key value; overwrite inserted value vvp; bump

pub remove : Text → Exec Bool
remove key w = elim (find key w.db) [
  | none ↦ some (false, w)
  | some _ ↦ (do do_remove key; pure true) w
]
