-- ===== src/Pancy/Db/Process/Refine.antt =====
-- The handlers of pset4/pancydb.cc against the specification of the database.
use traxos.Base.{
  ℕ, zero, suc, ◌+◌, ◌≤◌, ◌<◌, ◌≡◌, refl, Text, none, some, List, [], ◌∷◌, length, take, arith,
  text_ordered, take_of_length-le, length-pop_back, take-pop_back, pop_back, text_cmp_iff, sym,
  lt→ltb, false, inl, inr, Bool-cases, Option-cases, ltb,
}
use traxos.OrdMap.{OrdMap, find, emplace, assign}
use traxos.OrdMap.Laws.{emplace-insert_or_assign, assign-insert_or_assign, find-insert_or_assign}
use traxos.OrdMap.Values.{find-AllValues}
use traxos.Pancy.Msgs.{
  ok, no_match, response_header, Request, get_request, put_request, cas_request, remove_request,
}
use traxos.Pancy.Db.{
  Vv, RecentRemove, World, VvPtr, nonexistent, entry, max_recent_removes, version_limit, deref,
  evict, do_remove, is_null, bump,
}
use traxos.Pancy.Db.Process.{get_value, mod_no_match, write_value, process_req}
use traxos.Pancy.Db.Spec.{view, modified, written, removed, step}
use traxos.Pancy.Db.Spec.Valid.{VersionBelow, IsValid}

-- The eviction loop keeps the first hundred, given its list's length as fuel.
evict-take :
    (fuel : ℕ) (rs : List RecentRemove)
    → length rs ≤ fuel
    → evict fuel rs ≡ take max_recent_removes rs
unfolding evict
evict-take zero [] h = refl
evict-take zero (r ∷ rs) h = absurd (omega arith)
evict-take (suc fuel) rs h = elim (Bool-cases (ltb max_recent_removes (length rs))) [
  | inl more ↦
      rw (more, evict-take fuel (pop_back rs) (omega (arith, length-pop_back rs)))
        (take-pop_back 100 rs (ground arith))
  | inr done ↦ rw done (sym (take_of_length-le 100 rs (ground arith)))
]

-- The pointer that `find_vvptr` returns.
abbrev pointer : Text → World → VvPtr
pointer key w = elim (find key w.db) [ none ↦ nonexistent | some _ ↦ entry key ]

pointer_ne_null : (key : Text) (w : World) → is_null (pointer key w) ≡ false
unfolding is_null
pointer_ne_null key w = ground arith

deref-pointer :
    (key : Text) (w : World) → IsValid w → deref (pointer key w) w ≡ some (view w key, w)
unfolding deref
deref-pointer key w v = ground (arith, v.static)

get_value-pointer :
    (serial : ℕ) (key : Text) (w : World)
    → IsValid w
    → get_value serial (pointer key w) w
      ≡ some (
        record {
          base = response_header serial ok;
          value = (view w key).value;
          version = (view w key).version;
        },
        w,
      )
unfolding get_value
get_value-pointer serial key w v = ground (arith, deref-pointer key w v)

mod_no_match-pointer :
    (serial : ℕ) (key : Text) (w : World)
    → IsValid w
    → mod_no_match serial (pointer key w) w
      ≡ some
          (modified serial no_match (view w key).value (view w key).version (view w key).version, w)
unfolding mod_no_match
mod_no_match-pointer serial key w v = ground (arith, v.static)

abbrev bumped : World → World
bumped w = record w { self = record (w.self) { next_version = w.next_version + 1 } }

pub bump-bumped : (w : World) → w.next_version + 1 < version_limit → bump w ≡ some (tt, bumped w)
unfolding bump
bump-bumped w room = rw (lt→ltb _ _ room)

abbrev pub with_db : World → OrdMap Text Vv → World
with_db w m = record w { self = record (w.self) { db = m } }

write_value-pointer :
    (serial : ℕ) (key value : Text) (w : World)
    → IsValid w
    → w.next_version + 1 < version_limit
    → write_value serial key value (pointer key w) w
      ≡ some (modified serial ok [] (view w key).version w.next_version, written key value w)
unfolding write_value written
write_value-pointer serial key value w v room =
    let new : Vv = record { value = value; version = w.next_version } in
    elim (Option-cases (find key w.db)) [
      | inl gone ↦ ground (
        arith,
        v.static,
        bump-bumped (with_db w (emplace key new w.db)) room,
        emplace-insert_or_assign key new w.db gone,
        find-insert_or_assign key key new w.db,
        text_cmp_iff key key,
      )
      | inr (old, found) ↦
          let fits = find-AllValues (VersionBelow w.next_version) key w.db old v.versions found in
          ground (
            arith,
            fits,
            bump-bumped (with_db w (assign key new w.db)) room,
            assign-insert_or_assign key new w.db old found,
            find-insert_or_assign key key new w.db,
            text_cmp_iff key key,
          )
    ]

pub do_remove-removed :
    (key : Text) (old : Vv) (w : World)
    → find key w.db ≡ some old
    → w.next_version + 1 < version_limit
    → do_remove key w ≡ some (tt, removed key old w)
unfolding do_remove removed
do_remove-removed key old w found room =
    let r : RecentRemove = record { key = key; vv = old; remove_version = w.next_version } in
    let rs = r ∷ w.recent_removes in
    let w' : World = record w {
      self = record (w.self) { recent_removes = evict (length rs) rs };
    } in
    ground (arith, found, evict-take (length rs) rs (omega arith), bump-bumped w' room)

-- On a valid database with room for one more version every request returns: no pointer is read
-- outside its object and no version overflows. The response and the database are those of `step`.
pub process_req-step :
    (r : Request) (w : World)
    → IsValid w
    → w.next_version + 1 < version_limit
    → process_req r w ≡ some (step r w)
unfolding process_req step
process_req-step (get_request r) w v room =
    ground (arith, pointer_ne_null r.key w, get_value-pointer r.serial r.key w v)
process_req-step (put_request r) w v room = ground (
  arith,
  deref-pointer r.key w v,
  mod_no_match-pointer r.serial r.key w v,
  write_value-pointer r.serial r.key r.value w v room,
)
process_req-step (cas_request r) w v room = ground (
  arith,
  deref-pointer r.key w v,
  mod_no_match-pointer r.serial r.key w v,
  write_value-pointer r.serial r.key r.desired w v room,
)
process_req-step (remove_request r) w v room = elim (Option-cases (find r.key w.db)) [
  | inl gone ↦ ground arith
  | inr (old, found) ↦ ground (arith, v.static, do_remove-removed r.key old w found room)
]
