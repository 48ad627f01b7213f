-- ===== src/Lockseq/Client/Locks.antt =====
-- An owned lock, and a version that is spent, while the database answers one request.
use traxos.Base.{
  ℕ, ◌<◌, ◌≡◌, ◌≢◌, ◌⊎◌, inl, inr, refl, Text, Bool, true, false, [], some, arith, text_ordered,
  text_cmp_iff, text_eq, Option-cases, Bool-cases, ◌==◌, not, ◌||◌,
}
use traxos.Base.Int.{pos}
use traxos.OrdMap.{find}
use traxos.OrdMap.Values.{find-AllValues}
use traxos.Pancy.Msgs.{
  Request, get_request, put_request, cas_request, remove_request, CasRequest, RemoveRequest, ok,
  no_match, ModResponse, cas_response, response_errcode,
}
use traxos.Pancy.Db.{Vv, World}
use traxos.Pancy.Db.Process.{mismatch}
use traxos.Pancy.Db.Spec.{view, modified, step}
use traxos.Pancy.Db.Spec.Valid.{VersionBelow, IsValid}
use traxos.Pancy.Db.Spec.Effects.{is_ok, view-step, next_version-step}
use traxos.Pancy.Db.Spec.Runs.{Spent, accepted, remove_spent, other_key, swap_excluded}

-- The value `x` stands at `k` under the version `n`.
abbrev pub Owned : Text → Text → ℕ → World → Type 0
Owned k x n w = view w k ≡ record { value = x; version = n }

-- What is asked of a request so that it leaves an owned lock alone.
abbrev pub Spares : Text → ℕ → Request → Type 0
Spares k n (get_request r) = Unit
Spares k n (put_request r) = r.key ≢ k
Spares k n (cas_request r) = (r.key ≢ k) ⊎ (r.expected ≡ [])
Spares k n (remove_request r) = (r.key ≢ k) ⊎ ((m : ℕ) × (r.version_match ≡ pos m) × (m ≢ n))

-- The version of a value that is seen was handed out.
pub Owned-bounds :
    (k x : Text) (n : ℕ) (w : World)
    → IsValid w
    → x ≢ []
    → Owned k x n w
    → (0 < n) × (n < w.next_version)
Owned-bounds k x n w v full own = elim (Option-cases (find k w.db)) [
  | inl gone ↦ absurd (ground arith)
  | inr (old, found) ↦
      let fits = find-AllValues (VersionBelow w.next_version) k w.db old v.versions found in
      ground arith
]

is_read : Request → Bool
is_read (get_request r) = true
is_read r = false

refused-Owned :
    (k x : Text) (n : ℕ) (r : Request) (w : World)
    → IsValid w
    → accepted k r w ≡ false
    → Owned k x n w
    → Owned k x n (step r w).1
unfolding accepted
refused-Owned k x n r w v out own = ground (arith, view-step r w k v)

pub step-Owned :
    (k x : Text) (n : ℕ) (r : Request) (w : World)
    → IsValid w
    → x ≢ []
    → Spares k n r
    → Owned k x n w
    → Owned k x n (step r w).1
unfolding accepted
step-Owned k x n (get_request r) w v full h own = ground (arith, view-step (get_request r) w k v)
step-Owned k x n (put_request r) w v full h own =
    refused-Owned k x n (put_request r) w v (other_key k (put_request r) w h) own
step-Owned k x n (cas_request r) w v full (inl h) own =
    refused-Owned k x n (cas_request r) w v (other_key k (cas_request r) w h) own
step-Owned k x n (cas_request r) w v full (inr h) own =
    refused-Owned k x n (cas_request r) w v
      (ground (arith, swap_excluded r w, text_cmp_iff k r.key)) own
step-Owned k x n (remove_request r) w v full (inl h) own =
    refused-Owned k x n (remove_request r) w v (other_key k (remove_request r) w h) own
step-Owned k x n (remove_request r) w v full (inr (m, e, ne)) own =
    refused-Owned k x n (remove_request r) w v
      (ground (arith, remove_spent r m w e, text_cmp_iff k r.key)) own

accepted-Spent :
    (k : Text) (n : ℕ) (r : Request) (w : World)
    → IsValid w
    → is_read r ≡ false
    → accepted k r w ≡ true
    → 0 < n
    → n < w.next_version
    → Spent n k (step r w).1
unfolding accepted is_read
accepted-Spent k n (get_request r) w v write win positive below = absurd cc
accepted-Spent k n r w v write win positive below =
    ground (arith, view-step r w k v, next_version-step r w)

-- Whatever the request, the version stays or is spent.
pub step-Owned-or-Spent :
    (k x : Text) (n : ℕ) (r : Request) (w : World)
    → IsValid w
    → x ≢ []
    → Owned k x n w
    → Owned k x n (step r w).1 ⊎ Spent n k (step r w).1
unfolding is_read
step-Owned-or-Spent k x n (get_request r) w v full own =
    inl (step-Owned k x n (get_request r) w v full tt own)
step-Owned-or-Spent k x n r w v full own =
    let (positive, below) = Owned-bounds k x n w v full own in
    elim (Bool-cases (accepted k r w)) [
      | inl win ↦ inr (accepted-Spent k n r w v refl win positive below)
      | inr out ↦ inl (refused-Owned k x n r w v out own)
    ]

removal_accepted :
    (r : RemoveRequest) (n : ℕ) (w : World) (old : Vv)
    → r.version_match ≡ pos n
    → find r.key w.db ≡ some old
    → old.version ≡ n
    → accepted r.key (remove_request r) w ≡ true
unfolding accepted step response_errcode
removal_accepted r n w old e found eq = ground (arith, text_cmp_iff r.key r.key)

-- A removal by the version `n` leaves it spent.
pub remove-Spent :
    (r : RemoveRequest) (n : ℕ) (w : World)
    → IsValid w
    → r.version_match ≡ pos n
    → 0 < n
    → n < w.next_version
    → Spent n r.key (step (remove_request r) w).1
unfolding step is_read
remove-Spent r n w v e positive below =
    let grows = next_version-step (remove_request r) w in
    let seen = view-step (remove_request r) w r.key v in
    elim (Option-cases (find r.key w.db)) [
      | inl gone ↦ (positive, ground arith, ground arith)
      | inr (old, found) ↦ elim (Bool-cases (old.version == n)) [
        | inl match ↦
            accepted-Spent r.key n (remove_request r) w v refl
              (removal_accepted r n w old e found (ground arith)) positive below
        | inr other ↦ (positive, ground arith, ground arith)
      ]
    ]

-- What the answer to a swap that asks for the lock tells: the value that is named as actual, or the
-- desired one where it is `ok`, stands at the key under the answer's version.
pub cas-Owned :
    (r : CasRequest) (w : World) (resp : ModResponse)
    → IsValid w
    → r.expected ≡ []
    → r.desired ≢ []
    → (step (cas_request r) w).0 ≡ cas_response resp
    → (is_ok resp.errcode ≡ true) ⊎ (resp.actual ≡ r.desired)
    → Owned r.key r.desired resp.version (step (cas_request r) w).1
unfolding step response_errcode
cas-Owned r w resp v e full said told =
    let old = view w r.key in
    let seen = view-step (cas_request r) w r.key v in
    elim (Bool-cases (not (text_eq r.expected old.value) || mismatch r.version_match old.version)) [
      | inl out ↦
          let answer : modified r.serial no_match old.value old.version old.version ≡ resp =
            ground arith in
          ground arith
      | inr win ↦
          let answer : modified r.serial ok [] old.version w.next_version ≡ resp = ground arith in
          ground (arith, text_cmp_iff r.key r.key)
    ]
