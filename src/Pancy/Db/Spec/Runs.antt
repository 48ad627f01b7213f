-- ===== src/Pancy/Db/Spec/Runs.antt =====
-- Sequences of requests, the versions that they spend, and the locks that they take.
use traxos.Base.{
  ℕ, ◌+◌, ◌≤◌, ◌<◌, ◌≡◌, ◌≢◌, refl, Text, List, [], ◌∷◌, arith, Bool, true, false, ◌&&◌, ◌⊎◌,
  if◌then◌else◌, text_eq_iff, text_ordered, text_cmp_iff, Bool-cases, Option-cases, inl, inr, All,
}
use traxos.Base.Int.{pos}
use traxos.OrdMap.{find, same}
use traxos.Pancy.Msgs.{
  Request, CasRequest, RemoveRequest, get_request, put_request, cas_request, remove_request,
  Response, response_errcode,
}
use traxos.Pancy.Db.{World}
use traxos.Pancy.Db.Spec.{view, step}
use traxos.Pancy.Db.Spec.Valid.{IsValid}
use traxos.Pancy.Db.Spec.Keeps.{step-IsValid}
use traxos.Pancy.Db.Spec.Effects.{request_key, is_ok, view-step, next_version-step, step_refused}

-- The state after a sequence of requests, and the answers to it.
unfoldable pub steps : List Request → World → World
steps [] w = w
steps (r ∷ rs) w = steps rs (step r w).1

unfoldable pub answers : List Request → World → List Response
answers [] w = []
answers (r ∷ rs) w = (step r w).0 ∷ answers rs (step r w).1

pub steps-IsValid : (rs : List Request) (w : World) → IsValid w → IsValid (steps rs w)
unfolding steps
steps-IsValid [] w v = v
steps-IsValid (r ∷ rs) w v = steps-IsValid rs (step r w).1 (step-IsValid r w v)

-- `n` was handed out already, and is not the version at `k`.
abbrev pub Spent : ℕ → Text → World → Type 0
Spent n k w = (0 < n) × (n < w.next_version) × ((view w k).version ≢ n)

pub step-Spent :
    (n : ℕ) (k : Text) (r : Request) (w : World) → IsValid w → Spent n k w → Spent n k (step r w).1
step-Spent n k (get_request r) w v h =
    ground (arith, view-step (get_request r) w k v, next_version-step (get_request r) w)
step-Spent n k r w v h = ground (arith, view-step r w k v, next_version-step r w)

steps-Spent :
    (n : ℕ) (k : Text) (rs : List Request) (w : World)
    → IsValid w
    → Spent n k w
    → Spent n k (steps rs w)
unfolding steps
steps-Spent n k [] w v h = h
steps-Spent n k (r ∷ rs) w v h =
    steps-Spent n k rs (step r w).1 (step-IsValid r w v) (step-Spent n k r w v h)

pub remove_spent :
    (r : RemoveRequest) (n : ℕ) (w : World)
    → r.version_match ≡ pos n
    → (view w r.key).version ≢ n
    → is_ok (response_errcode (step (remove_request r) w).0) ≡ false
unfolding step response_errcode
remove_spent r n w e h = elim (Option-cases (find r.key w.db)) [
  | inl gone ↦ ground arith
  | inr (old, found) ↦ rw (found, step, e) (ground arith)
]

-- Once a version is spent at a key, whatever requests follow, an unlock of the key by that version is
-- refused, and leaves the database as it is: a late unlock cannot release another client's lock.
pub stale_unlock :
    (r : RemoveRequest) (n : ℕ) (rs : List Request) (w : World)
    → IsValid w
    → Spent n r.key w
    → r.version_match ≡ pos n
    → (is_ok (response_errcode (step (remove_request r) (steps rs w)).0) ≡ false)
      × ((step (remove_request r) (steps rs w)).1 ≡ steps rs w)
stale_unlock r n rs w v h e =
    let refused = remove_spent r n (steps rs w) e (steps-Spent n r.key rs w v h).2 in
    (refused, step_refused (remove_request r) (steps rs w) refused)

-- A request that, if it names `k`, tries to lock it: a swap from nothing to something.
abbrev pub IsAttempt : Text → Request → Type 0
IsAttempt k (cas_request r) = (r.key ≢ k) ⊎ ((r.expected ≡ []) × (r.desired ≢ []))
IsAttempt k r = request_key r ≢ k

-- How many requests on `k` are accepted.
unfoldable pub wins : Text → List Request → World → ℕ
wins k [] w = 0
wins k (r ∷ rs) w =
    (if same k (request_key r) && is_ok (response_errcode (step r w).0) then 1 else 0)
    + wins k rs (step r w).1

abbrev Held : Text → World → Type 0
Held k w = (view w k).value ≢ []

pub swap_excluded :
    (r : CasRequest) (w : World)
    → r.expected ≢ (view w r.key).value
    → is_ok (response_errcode (step (cas_request r) w).0) ≡ false
unfolding step response_errcode
swap_excluded r w h = ground (arith, text_eq_iff r.expected (view w r.key).value)

unfoldable pub accepted : Text → Request → World → Bool
accepted k r w = same k (request_key r) && is_ok (response_errcode (step r w).0)

pub other_key : (k : Text) (r : Request) (w : World) → request_key r ≢ k → accepted k r w ≡ false
unfolding accepted
other_key k r w h = ground (arith, text_cmp_iff k (request_key r))

not-accepted-Held :
    (k : Text) (r : Request) (w : World) → IsAttempt k r → Held k w → accepted k r w ≡ false
not-accepted-Held k (get_request r) w a h = other_key k (get_request r) w a
not-accepted-Held k (put_request r) w a h = other_key k (put_request r) w a
not-accepted-Held k (remove_request r) w a h = other_key k (remove_request r) w a
not-accepted-Held k (cas_request r) w (inl a) h = other_key k (cas_request r) w a
not-accepted-Held k (cas_request r) w (inr a) h =
    unfold accepted in ground (arith, swap_excluded r w, text_cmp_iff k r.key)

step-Held :
    (k : Text) (r : Request) (w : World)
    → IsValid w
    → accepted k r w ≡ false
    → Held k w
    → Held k (step r w).1
unfolding accepted
step-Held k r w v c h = ground (arith, view-step r w k v)

wins-Held :
    (k : Text) (rs : List Request) (w : World)
    → IsValid w
    → All (IsAttempt k) rs
    → Held k w
    → wins k rs w ≡ 0
unfolding wins accepted
wins-Held k [] w v a h = refl
wins-Held k (r ∷ rs) w v a h =
    let c = not-accepted-Held k r w a.0 h in
    let h' = step-Held k r w v c h in
    ground (arith, c, wins-Held k rs (step r w).1 (step-IsValid r w v) a.1 h')

attempt_wins :
    (k : Text) (r : Request) (w : World)
    → IsValid w
    → IsAttempt k r
    → accepted k r w ≡ true
    → Held k (step r w).1
unfolding accepted
attempt_wins k (cas_request r) w v (inr a) c = ground (arith, view-step (cas_request r) w k v)
attempt_wins k (cas_request r) w v (inl a) c = cc (other_key k (cas_request r) w a)
attempt_wins k (get_request r) w v a c = cc (other_key k (get_request r) w a)
attempt_wins k (put_request r) w v a c = cc (other_key k (put_request r) w a)
attempt_wins k (remove_request r) w v a c = cc (other_key k (remove_request r) w a)

-- Of any sequence of requests in which those on `k` all try to lock it, at most one of those on `k`
-- is accepted.
pub wins-le-one :
    (k : Text) (rs : List Request) (w : World) → IsValid w → All (IsAttempt k) rs → wins k rs w ≤ 1
unfolding wins accepted
wins-le-one k [] w v a = omega arith
wins-le-one k (r ∷ rs) w v a =
    let v' = step-IsValid r w v in
    elim (Bool-cases (accepted k r w)) [
      | inl c ↦ ground (arith, c, wins-Held k rs (step r w).1 v' a.1 (attempt_wins k r w v a.0 c))
      | inr c ↦ ground (arith, c, wins-le-one k rs (step r w).1 v' a.1)
    ]
