-- ===== src/Pancy/Db/Process.antt =====
-- The message API of pset4/pancydb.cc: one handler for each kind of request.
pub mod Refine
pub mod Accepts
pub mod Service
use traxos.Base.{
  ℕ, Text, Bool, true, false, not, ◌||◌, [], ◌==◌, text_eq, Option, none, some, text_ordered,
}
use traxos.Base.Int.{ℤ, pos, negsuc}
use traxos.OrdMap.{find}
use traxos.Pancy.Msgs.{
  nonexistent_version, ok, not_found, no_match, response_header, GetRequest, GetResponse,
  PutRequest, CasRequest, RemoveRequest, ModResponse, Request, get_request, put_request,
  cas_request, remove_request, Response, get_response, put_response, cas_response, remove_response,
}
use traxos.Pancy.Db.{
  Vv, World, Exec, ◌>>=◌, ◌>>◌, pure, branch, VvPtr, null, nonexistent, entry, is_null, deref,
  store, next, bump, find_vvptr, emplace_vvptr, do_remove,
}

-- `version_match >= 0 && version_match != version`
abbrev pub mismatch : ℤ → ℕ → Bool
mismatch (pos m) version = not (m == version)
mismatch (negsuc m) version = false

-- The two returns of `process(const get_request&)`.
get_missing : ℕ → Exec GetResponse
get_missing serial =
    pure (record {
      base = response_header serial not_found;
      value = [];
      version = nonexistent_version;
    })

get_value : ℕ → VvPtr → Exec GetResponse
get_value serial vvp = do
  v ← deref vvp
  pure (record { base = response_header serial ok; value = v.value; version = v.version })

process_get : GetRequest → Exec GetResponse
unfolding is_null find_vvptr
process_get req = do
  vvp ← find_vvptr req.key
  branch (is_null vvp) (get_missing req.serial) (get_value req.serial vvp)

mod_no_match : ℕ → VvPtr → Exec ModResponse
unfolding deref
mod_no_match serial vvp = do
  v ← deref vvp
  pure (record {
    base = response_header serial no_match;
    actual = v.value;
    previous_version = v.version;
    version = v.version;
  })

mod_ok : ℕ → ℕ → VvPtr → Exec ModResponse
unfolding deref
mod_ok serial previous_version vvp = do
  v ← deref vvp
  pure (record {
    base = response_header serial ok;
    actual = [];
    previous_version = previous_version;
    version = v.version;
  })

-- The tail that `put` and `cas` share: write a new value at `key`, whose `vv` is `*vvp`.
write_value : ℕ → Text → Text → VvPtr → Exec ModResponse
unfolding deref store next emplace_vvptr mod_ok
write_value serial key value vvp = do
  v ← deref vvp
  branch (v.version == nonexistent_version)
      (do (vvp', _) ← emplace_vvptr key value; bump; mod_ok serial nonexistent_version vvp')
      (do
        version ← next
        store vvp (record { value = value; version = version })
        bump
        mod_ok serial v.version vvp)

process_put : PutRequest → Exec ModResponse
unfolding find_vvptr deref mod_no_match write_value
process_put req = do
  vvp ← find_vvptr req.key
  v ← deref vvp
  branch (mismatch req.version_match v.version) (mod_no_match req.serial vvp)
      (write_value req.serial req.key req.value vvp)

process_cas : CasRequest → Exec ModResponse
unfolding find_vvptr deref mod_no_match write_value
process_cas req = do
  vvp ← find_vvptr req.key
  v ← deref vvp
  branch (not (text_eq req.expected v.value) || mismatch req.version_match v.version)
      (mod_no_match req.serial vvp) (write_value req.serial req.key req.desired vvp)

-- The iterator is `find` of the key, and `&it->second` the entry of the key.
process_remove : RemoveRequest → Exec ModResponse
unfolding mod_no_match mod_ok
process_remove req w = elim (find req.key w.db) [
  | none ↦
      pure
        (record {
          base = response_header req.serial not_found;
          actual = [];
          previous_version = nonexistent_version;
          version = nonexistent_version;
        })
        w
  | some v ↦
      branch (mismatch req.version_match v.version) (mod_no_match req.serial (entry req.key))
        (do do_remove req.key; mod_ok req.serial v.version nonexistent) w
]

pub process_req : Request → Exec Response
unfolding process_get process_put process_cas process_remove
process_req (get_request r) = do resp ← process_get r; pure (get_response resp)
process_req (put_request r) = do resp ← process_put r; pure (put_response resp)
process_req (cas_request r) = do resp ← process_cas r; pure (cas_response resp)
process_req (remove_request r) = do resp ← process_remove r; pure (remove_response resp)
