-- ===== src/Pancy/Db/Spec/Effects.antt =====
-- What a request does to what clients see: the value at each key, and the versions.
use traxos.Base.{
  ℕ, ◌+◌, ◌≤◌, ◌≡◌, refl, Text, arith, Bool, true, false, ◌&&◌, if◌then◌else◌, text_ordered,
  text_cmp_iff, Option-cases, inl, inr,
}
use traxos.OrdMap.{find, same}
use traxos.OrdMap.Laws.{find-insert_or_assign, find-erase}
use traxos.Pancy.Msgs.{
  Errc, ok, Request, get_request, put_request, cas_request, remove_request, response_errcode,
  request_serial, response_serial,
}
use traxos.Pancy.Db.{Vv, absent, World}
use traxos.Pancy.Db.Spec.{view, written, removed, step}
use traxos.Pancy.Db.Spec.Valid.{IsValid}

-- The key that a request names.
abbrev pub request_key : Request → Text
request_key (get_request r) = r.key
request_key (put_request r) = r.key
request_key (cas_request r) = r.key
request_key (remove_request r) = r.key

-- What an accepted request leaves at its key, where it found `old`, under the version `n`.
abbrev pub outcome : Request → ℕ → Vv → Vv
outcome (get_request r) n old = old
outcome (put_request r) n old = record { value = r.value; version = n }
outcome (cas_request r) n old = record { value = r.desired; version = n }
outcome (remove_request r) n old = absent

abbrev pub is_ok : Errc → Bool
is_ok ok = true
is_ok _ = false

view-written :
    (j key value : Text) (w : World)
    → view (written key value w) j
      ≡ (if same j key then record { value = value; version = w.next_version } else view w j)
unfolding written
view-written j key value w = ground (
  arith,
  text_cmp_iff j key,
  find-insert_or_assign j key (record { value = value; version = w.next_version }) w.db,
)

view-removed :
    (j key : Text) (old : Vv) (w : World)
    → IsValid w
    → view (removed key old w) j ≡ (if same j key then absent else view w j)
unfolding removed
view-removed j key old w v = ground (arith, find-erase j key w.db v.sorted)

-- One step changes what is seen at one key at most: that of the request, if it was accepted.
pub view-step :
    (r : Request) (w : World) (j : Text)
    → IsValid w
    → view (step r w).1 j ≡ (
        if is_ok (response_errcode (step r w).0) && same j (request_key r)
        then outcome r w.next_version (view w j)
        else view w j)
unfolding step response_errcode
view-step (get_request r) w j v = ground arith
view-step (put_request r) w j v = ground (arith, view-written j r.key r.value w)
view-step (cas_request r) w j v = ground (arith, view-written j r.key r.desired w)
view-step (remove_request r) w j v = elim (Option-cases (find r.key w.db)) [
  | inl gone ↦ ground arith
  | inr (old, found) ↦ ground (arith, view-removed j r.key old w v)
]

pub serial-step : (r : Request) (w : World) → response_serial (step r w).0 ≡ request_serial r
unfolding step request_serial response_serial
serial-step (get_request r) w = refl
serial-step (put_request r) w = ground arith
serial-step (cas_request r) w = ground arith
serial-step (remove_request r) w = ground arith

-- A request that is not accepted changes nothing.
pub step_refused :
    (r : Request) (w : World) → is_ok (response_errcode (step r w).0) ≡ false → (step r w).1 ≡ w
unfolding step response_errcode
step_refused (get_request r) w h = refl
step_refused (put_request r) w h = ground arith
step_refused (cas_request r) w h = ground arith
step_refused (remove_request r) w h = ground arith

-- Versions are handed out one at a time.
pub next_version-step :
    (r : Request) (w : World)
    → (w.next_version ≤ (step r w).1.next_version)
      × ((step r w).1.next_version ≤ w.next_version + 1)
unfolding step written removed
next_version-step (get_request r) w = omega arith
next_version-step (put_request r) w = ground arith
next_version-step (cas_request r) w = ground arith
next_version-step (remove_request r) w = ground arith
