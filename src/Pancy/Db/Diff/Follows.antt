-- ===== src/Pancy/Db/Diff/Follows.antt =====
-- How a database stands to an earlier state of itself, and how requests move it.
use traxos.Base.{
  ℕ, zero, suc, ◌≤◌, ◌<◌, ◌≡◌, ◌≢◌, ◌⊎◌, inl, inr, refl, Text, Bool, true, false, if◌then◌else◌,
  Option, none, some, List, [], ◌∷◌, take, length, All, take-All, text_eq, text_eq_iff,
  text_cmp_iff, text_ordered, arith, Bool-cases, Option-cases,
}
use traxos.OrdMap.{find}
use traxos.OrdMap.Laws.{find-insert_or_assign, find-erase}
use traxos.Pancy.Db.{Vv, RecentRemove, World}
use traxos.Pancy.Db.Spec.{written, removed, write_step, step}
use traxos.Pancy.Db.Process.{mismatch}
use traxos.Pancy.Db.Spec.Keeps.{step-IsValid}
use traxos.Pancy.Db.Spec.Runs.{steps}
use traxos.Pancy.Msgs.{Request, get_request, put_request, cas_request, remove_request}
use traxos.Pancy.Db.Spec.Valid.{RemovesBelow, IsValid}

-- The latest removal of a key that is on the list.
unfoldable pub latest : Text → List RecentRemove → Option RecentRemove
latest k [] = none
latest k (r ∷ rs) = if text_eq r.key k then some r else latest k rs

abbrev pub AllAfter : ℕ → List RecentRemove → Type 0
AllAfter n = All (λ r. n < r.remove_version)

-- The list is full of removals after the version `n`.
abbrev pub IsFull : ℕ → List RecentRemove → Type 0
IsFull n rs = (length rs ≡ 100) × AllAfter n rs

latest-RemovesBelow :
    (k : Text) (n : ℕ) (rs : List RecentRemove) (r : RecentRemove)
    → RemovesBelow n rs
    → latest k rs ≡ some r
    → r.remove_version < n
unfolding latest
latest-RemovesBelow k n [] r b e = cc
latest-RemovesBelow k n (x ∷ rs) r b e = elim (Bool-cases (text_eq x.key k)) [
  | inl here ↦ ground arith
  | inr there ↦
      let lower = latest-RemovesBelow k x.remove_version rs r b.3 (ground arith) in omega arith
]

latest-take-none :
    (k : Text) (m : ℕ) (rs : List RecentRemove) → latest k rs ≡ none → latest k (take m rs) ≡ none
unfolding latest
latest-take-none k zero rs e = refl
latest-take-none k (suc m) [] e = refl
latest-take-none k (suc m) (x ∷ rs) e = ground (arith, latest-take-none k m rs)

-- Cutting the list keeps the latest removal of `k`, or leaves later removals alone, as many as fit.
latest-take :
    (k : Text) (m n : ℕ) (rs : List RecentRemove) (r : RecentRemove)
    → RemovesBelow n rs
    → latest k rs ≡ some r
    → (latest k (take m rs) ≡ some r)
      ⊎ ((latest k (take m rs) ≡ none)
          × (length (take m rs) ≡ m)
          × AllAfter r.remove_version (take m rs))
unfolding latest
latest-take k zero n rs r b e = inr (refl, refl, tt)
latest-take k (suc m) n [] r b e = absurd (cc)
latest-take k (suc m) n (x ∷ rs) r b e = elim (Bool-cases (text_eq x.key k)) [
  | inl here ↦ inl (ground arith)
  | inr there ↦
      let e' : latest k rs ≡ some r = ground arith in
      elim (latest-take k m x.remove_version rs r b.3 e') [
        | inl kept ↦ inl (ground arith)
        | inr (lost, full, after) ↦
            inr (
              ground arith,
              omega arith,
              (latest-RemovesBelow k x.remove_version rs r b.3 e', after),
            )
      ]
]

AllAfter-mono : (m n : ℕ) (rs : List RecentRemove) → m ≤ n → AllAfter n rs → AllAfter m rs
AllAfter-mono m n [] h a = tt
AllAfter-mono m n (r ∷ rs) h a = (omega arith, AllAfter-mono m n rs h a.1)

length-take_full : (m : ℕ) (rs : List RecentRemove) → m ≤ length rs → length (take m rs) ≡ m
length-take_full zero rs h = refl
length-take_full (suc m) [] h = absurd (omega arith)
length-take_full (suc m) (r ∷ rs) h = omega (arith, length-take_full m rs (omega arith))

-- Where the key of `v` is gone: its latest removal is on the list, from after the version `n`, or
-- the list is full of removals after `n`.
abbrev pub IsGone : ℕ → Vv → Option RecentRemove → List RecentRemove → Type 0
IsGone n v none rs = IsFull n rs
IsGone n v (some r) rs = (n ≤ r.remove_version) × ((n ≤ r.vv.version) ⊎ (r.vv ≡ v))

-- `a` is a later state of `b`.
pub record Follows (b a : World) : Type 0 where
  pub grown : b.next_version ≤ a.next_version
  pub kept :
      (k : Text) (v : Vv)
      → find k a.db ≡ some v
      → (b.next_version ≤ v.version) ⊎ (find k b.db ≡ some v)
  pub gone :
      (k : Text) (v : Vv)
      → find k b.db ≡ some v
      → find k a.db ≡ none
      → IsGone b.next_version v (latest k a.recent_removes) a.recent_removes

pub Follows-refl : (w : World) → Follows w w
Follows-refl w = record {
  grown = omega arith;
  kept = λ k v e. inr e;
  gone = λ k v e f. absurd (cc (e, f));
}

written-Follows : (b a : World) (key value : Text) → Follows b a → Follows b (written key value a)
unfolding written
written-Follows b a key value f = record {
  grown = omega (arith, f.grown);
  kept = λ k v e. ground (arith, f.grown, f.kept k v, find-insert_or_assign k key (new a) a.db);
  gone = λ k v e g. f.gone k v e (ground (arith, find-insert_or_assign k key (new a) a.db));
}
  where
    new : World → Vv
    new a = record { value = value; version = a.next_version }

full_lt :
    (n m : ℕ) (rs : List RecentRemove) → 0 < length rs → AllAfter n rs → RemovesBelow m rs → n < m
full_lt n m [] h a b = absurd (omega arith)
full_lt n m (r ∷ rs) h a b = omega arith

latest-push_ne :
    (k : Text) (r : RecentRemove) (rs : List RecentRemove)
    → r.key ≢ k
    → latest k (r ∷ rs) ≡ latest k rs
unfolding latest
latest-push_ne k r rs other = ground (arith, text_eq_iff r.key k)

-- A removal of another key leaves what is known of `k`.
push-IsGone :
    (n m : ℕ) (v : Vv) (k : Text) (r : RecentRemove) (rs : List RecentRemove)
    (o : Option RecentRemove)
    → RemovesBelow m rs
    → m ≤ r.remove_version
    → r.key ≢ k
    → latest k rs ≡ o
    → IsGone n v o rs
    → IsGone n v (latest k (take 100 (r ∷ rs))) (take 100 (r ∷ rs))
push-IsGone n m v k r rs none b h other e (full, after) =
    rw (latest-push_ne k r (take 99 rs) other, latest-take-none k 99 rs e)
      (
        omega (arith, length-take_full 99 rs (omega arith)),
        (
          omega (arith, full_lt n m rs (omega arith) after b),
          take-All (λ r. n < r.remove_version) 99 rs after,
        ),
      )
push-IsGone n m v k r rs (some x) b h other e g =
    let early = latest-RemovesBelow k m rs x b e in
    elim (latest-take k 99 m rs x b e) [
      | inl found ↦ rw (latest-push_ne k r (take 99 rs) other, found) g
      | inr (lost, full, after) ↦
          rw (latest-push_ne k r (take 99 rs) other, lost)
            (omega arith, (omega arith, AllAfter-mono n x.remove_version (take 99 rs) g.0 after))
    ]

latest-push_eq :
    (k : Text) (r : RecentRemove) (rs : List RecentRemove) → r.key ≡ k → latest k (r ∷ rs) ≡ some r
unfolding latest
latest-push_eq k r rs here = ground (arith, text_eq_iff r.key k)

write_step-Follows :
    (refused : Bool) (serial : ℕ) (key value : Text) (b a : World)
    → Follows b a
    → Follows b (write_step refused serial key value a).1
write_step-Follows true serial key value b a f = f
write_step-Follows false serial key value b a f = written-Follows b a key value f

removed-Follows :
    (b a : World) (key : Text) (old : Vv)
    → IsValid a
    → find key a.db ≡ some old
    → Follows b a
    → Follows b (removed key old a)
unfolding removed
removed-Follows b a key old va found f = record {
  grown = omega (arith, f.grown);
  kept = λ k v e. f.kept k v (ground (arith, find-erase k key a.db va.sorted));
  gone = λ k v e g. elim (Bool-cases (text_eq key k)) [
    | inl here ↦
        rw (latest-push_eq k r (take 99 a.recent_removes) ((text_eq_iff key k).0 here))
          (f.grown, removed_value k v e ((text_eq_iff key k).0 here))
    | inr there ↦
        let other : key ≢ k = ground (arith, text_eq_iff key k) in
        push-IsGone b.next_version a.next_version v k r a.recent_removes _ va.removes (omega arith)
          other refl
          (f.gone k v e (ground (arith, find-erase k key a.db va.sorted, text_cmp_iff k key)))
  ];
}
  where
    r : RecentRemove
    r = record { key = key; vv = old; remove_version = a.next_version }

    removed_value :
        (k : Text) (v : Vv)
        → find k b.db ≡ some v
        → key ≡ k
        → (b.next_version ≤ old.version) ⊎ (old ≡ v)
    removed_value k v e here = elim (f.kept k old (rw (← here) found)) [
      | inl new ↦ inl new
      | inr same ↦ inr (cc)
    ]

step-Follows : (r : Request) (b a : World) → IsValid a → Follows b a → Follows b (step r a).1
unfolding step
step-Follows (get_request r) b a va f = f
step-Follows (put_request r) b a va f = write_step-Follows _ r.serial r.key r.value b a f
step-Follows (cas_request r) b a va f = write_step-Follows _ r.serial r.key r.desired b a f
step-Follows (remove_request r) b a va f = elim (Option-cases (find r.key a.db)) [
  | inl gone ↦ rw (gone, step) f
  | inr (old, found) ↦ elim (Bool-cases (mismatch r.version_match old.version)) [
    | inl refused ↦ rw (found, refused, step) f
    | inr done ↦ rw (found, done, step) (removed-Follows b a r.key old va found f)
  ]
]

pub steps-Follows :
    (rs : List Request) (b a : World) → IsValid a → Follows b a → Follows b (steps rs a)
unfolding steps
steps-Follows [] b a va f = f
steps-Follows (r ∷ rs) b a va f =
    steps-Follows rs b (step r a).1 (step-IsValid r a va) (step-Follows r b a va f)
