-- ===== src/Pancy/Db/Spec.antt =====
-- What the database promises, with no pointers: each request as one step on a sorted map.
pub mod Valid
pub mod Keeps
pub mod Effects
pub mod Runs
use mathlib.Core.Option
use traxos.Base.{
  ℕ, ◌+◌, Text, Bool, not, ◌||◌, [], ◌∷◌, if◌then◌else◌, text_eq, none, some, take, text_ordered,
}
use traxos.OrdMap.{find, insert_or_assign, erase}
use traxos.Pancy.Msgs.{
  nonexistent_version, Errc, ok, not_found, no_match, response_header, ModResponse, Request,
  get_request, put_request, cas_request, remove_request, Response, get_response, put_response,
  cas_response, remove_response,
}
use traxos.Pancy.Db.{Vv, absent, World, max_recent_removes}
use traxos.Pancy.Db.Process.{mismatch}

-- The versioned value that a client sees at a key.
abbrev pub view : World → Text → Vv
view w k = Option.get_or (find k w.db) absent

abbrev pub modified : ℕ → Errc → Text → ℕ → ℕ → ModResponse
modified serial errcode actual previous_version version = record {
  base = response_header serial errcode;
  actual = actual;
  previous_version = previous_version;
  version = version;
}

unfoldable pub written : Text → Text → World → World
written key value w = record w {
  self = record (w.self) {
    next_version = w.next_version + 1;
    db = insert_or_assign key (record { value = value; version = w.next_version }) w.db;
  };
}

unfoldable pub removed : Text → Vv → World → World
removed key v w = record w {
  self = record {
    next_version = w.next_version + 1;
    db = erase key w.db;
    recent_removes =
        take max_recent_removes
          (record { key = key; vv = v; remove_version = w.next_version } ∷ w.recent_removes);
  };
}

-- A write that is refused if `refused`, and else puts the value under a new version.
abbrev pub write_step : Bool → ℕ → Text → Text → World → ModResponse × World
write_step refused serial key value w =
    let v = view w key in
    if refused
    then (modified serial no_match v.value v.version v.version, w)
    else (modified serial ok [] v.version w.next_version, written key value w)

unfoldable pub step : Request → World → Response × World
unfolding written removed
step (get_request r) w =
    let v = view w r.key in
    (
      get_response
          (record { base = response_header r.serial ok; value = v.value; version = v.version }),
      w,
    )
step (put_request r) w =
    let (resp, w') =
      write_step (mismatch r.version_match (view w r.key).version) r.serial r.key r.value w in
    (put_response resp, w')
step (cas_request r) w =
    let v = view w r.key in
    let (resp, w') =
      write_step (not (text_eq r.expected v.value) || mismatch r.version_match v.version) r.serial
        r.key r.desired w in
    (cas_response resp, w')
step (remove_request r) w = elim (find r.key w.db) [
  | none ↦ (remove_response (modified r.serial not_found [] 0 0), w)
  | some v ↦
      if mismatch r.version_match v.version
      then (remove_response (modified r.serial no_match v.value v.version v.version), w)
      else (
        remove_response (modified r.serial ok [] v.version nonexistent_version),
        removed r.key v w,
      )
]
