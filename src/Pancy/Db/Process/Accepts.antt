-- ===== src/Pancy/Db/Process/Accepts.antt =====
-- Which requests `pancydb::process_req` of pset4/pancydb.cc answers with `errc::ok`.
use traxos.Base.{
  ℕ, Text, ◌+◌, ◌<◌, ◌≡◌, inl, inr, refl, Bool, true, false, not, ◌||◌, some, text_eq_iff,
  text_ordered, arith, Bool-cases, Option-cases,
}
use mathlib.Core.Logic.{◌↔◌}
use mathlib.Core.Path.{subst}
use traxos.Base.Int.{ℤ, pos, negsuc}
use traxos.OrdMap.{find}
use traxos.Pancy.Msgs.{
  ok, Request, get_request, put_request, cas_request, remove_request, Response, response_errcode,
}
use traxos.Pancy.Db.{Vv, World, version_limit}
use traxos.Pancy.Db.Spec.{view, write_step, step}
use traxos.Pancy.Db.Spec.Valid.{IsValid}
use traxos.Pancy.Db.Process.{mismatch, process_req}
use traxos.Pancy.Db.Process.Refine.{process_req-step}

-- The version that a request asks for: the version itself, or a negative number for any.
abbrev pub Asks : ℤ → ℕ → Type 0
Asks (pos m) version = m ≡ version
Asks (negsuc m) version = Unit

-- A put asks for a version, a swap for a value too, and a removal for a key that is there.
abbrev pub Admits : World → Request → Type 0
Admits w (get_request r) = Unit
Admits w (put_request r) = Asks r.version_match (view w r.key).version
Admits w (cas_request r) =
    (r.expected ≡ (view w r.key).value) × Asks r.version_match (view w r.key).version
Admits w (remove_request r) = (v : Vv) × (find r.key w.db ≡ some v) × Asks r.version_match v.version

mismatch-Asks : (z : ℤ) (version : ℕ) → (mismatch z version ≡ false) ↔ Asks z version
mismatch-Asks (pos m) version = ground arith
mismatch-Asks (negsuc m) version = ground arith

write_step-ok :
    (refused : Bool) (serial : ℕ) (key value : Text) (w : World) (P : Type 0)
    → (refused ≡ false) ↔ P
    → ((write_step refused serial key value w).0.base.errcode ≡ ok) ↔ P
write_step-ok true serial key value w P iff =
    (λ e. absurd cc, λ p. let never = iff.1 p in absurd cc)
write_step-ok false serial key value w P iff = (λ e. iff.0 refl, λ p. refl)

refused-or :
    (same refused : Bool) (P Q : Type 0)
    → (same ≡ true) ↔ P
    → (refused ≡ false) ↔ Q
    → ((not same || refused) ≡ false) ↔ (P × Q)
refused-or true true P Q p q = (λ e. absurd cc, λ x. q.1 x.1)
refused-or true false P Q p q = (λ e. (p.0 refl, q.0 refl), λ x. refl)
refused-or false refused P Q p q = (λ e. absurd cc, λ x. let never = p.1 x.0 in absurd cc)

step-Admits : (req : Request) (w : World) → (response_errcode (step req w).0 ≡ ok) ↔ Admits w req
unfolding step response_errcode
step-Admits (get_request r) w = (λ e. tt, λ a. refl)
step-Admits (put_request r) w =
    write_step-ok _ r.serial r.key r.value w _
      (mismatch-Asks r.version_match (view w r.key).version)
step-Admits (cas_request r) w =
    let asks = mismatch-Asks r.version_match (view w r.key).version in
    let same = text_eq_iff r.expected (view w r.key).value in
    write_step-ok _ r.serial r.key r.desired w _ (refused-or _ _ _ _ same asks)
step-Admits (remove_request r) w = elim (Option-cases (find r.key w.db)) [
  | inl gone ↦ (λ e. absurd (ground arith), λ a. absurd (let (v, found, asks) = a in cc))
  | inr (v, found) ↦
      let asks = mismatch-Asks r.version_match v.version in
      elim (Bool-cases (mismatch r.version_match v.version)) [
        | inl refused ↦ (
          λ e. absurd (ground arith),
          λ a.
              let (x, found', asked) = a in
              let same : x ≡ v = cc in
              let never = asks.1 (subst (λ (y : Vv). Asks r.version_match y.version) same asked) in
              absurd cc,
        )
        | inr fits ↦ (λ e. (v, found, asks.0 fits), λ a. ground arith)
      ]
]

-- On a valid database with room for one more version every request returns, and is answered with
-- `ok` exactly in these cases: a get always; a put where the version that it asks for is the one at
-- its key, 0 where the key is absent, or is negative; a swap where the version is so and the value
-- that it expects is the one at its key, empty where the key is absent; a removal where its key is
-- there and the version is so.
pub process_req-Admits :
    (req : Request) (w : World)
    → IsValid w
    → w.next_version + 1 < version_limit
    → (resp : Response) × (w' : World) × (process_req req w ≡ some (resp, w'))
      × ((response_errcode resp ≡ ok) ↔ Admits w req)
process_req-Admits req w v room =
    ((step req w).0, (step req w).1, process_req-step req w v room, step-Admits req w)
