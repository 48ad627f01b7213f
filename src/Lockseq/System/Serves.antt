-- ===== src/Lockseq/System/Serves.antt =====
-- The locks and the requests, where the database answers a request.
use Prim.Native.Nat.{ℕ, ◌<◌}
use traxos.Base.{
  ◌≡◌, ◌≢◌, ◌⊎◌, inl, inr, refl, sym, ◌∙◌, ap, Text, List, [], ◌∷◌, All, arith, text_eq,
  text_eq_iff, Bool-cases,
}
use mathlib.Core.Path.{subst}
use traxos.Pancy.Msgs.{
  Request, get_request, put_request, cas_request, remove_request, request_serial,
}
use traxos.Pancy.Db.{World}
use traxos.Pancy.Db.Spec.{step}
use traxos.Pancy.Db.Spec.Valid.{IsValid}
use traxos.Pancy.Db.Spec.Runs.{Spent, step-Spent}
use traxos.Lockseq.Client.{
  Pc, writing, write_delay, clearing, clear_delay, unlocking, Cstate, nclients,
}
use traxos.Lockseq.Client.Locks.{Owned, Spares, step-Owned, step-Owned-or-Spent}
use traxos.Lockseq.Client.Names.{
  IsValueOf, IsValueOf-ne-nil, IsValueOf-unique, value_key-ne-lock_key,
}
use traxos.Lockseq.System.{Member}
use traxos.Lockseq.System.Invariant.{
  lock, Holds, Named, ClientInv, IsValueKey, Kind, owner_of, sender, RequestInv,
}

pub Member-All {κ} :
    {A : Type 0} (P : A → Type κ) (a : A) (xs : List A) → All P xs → Member a xs → P a
Member-All P a [] h m = absurd m
Member-All P a (x ∷ xs) h (inl e) = subst P (sym e) h.0
Member-All P a (x ∷ xs) h (inr m) = Member-All P a xs h.1 m

IsValueKey-ne-lock : (k : Text) (c : Cstate) → IsValueKey k → k ≢ lock c
IsValueKey-ne-lock k c (g, m, e) h = value_key-ne-lock_key g m c.gid (sym e ∙ h)

-- A version that is spent at the key of a removal, against one that is owned.
spent_spares :
    (key k x : Text) (m v : ℕ) (w : World) → Spent m key w → Owned k x v w → (key ≢ k) ⊎ (m ≢ v)
spent_spares key k x m v w spent own = elim (Bool-cases (text_eq key k)) [
  | inl same ↦
      let e = (text_eq_iff key k).0 same in
      let there : Owned key x v w = rw e own in inr (λ q. spent.2 (ground arith))
  | inr other ↦ inl (λ q. cc (other, (text_eq_iff key k).1 q))
]

module _ (clients : ℕ → Cstate) (n : ℕ) (w : World) (v : IsValid w)
    (inv : (i : ℕ) → i < nclients → ClientInv n i (clients i) w) where
  pub unlocking_holds :
      (i : ℕ)
      → i < nclients
      → (clients i).pc ≡ unlocking
      → IsValueOf i (clients i).value
        × (Owned (lock (clients i)) (clients i).value (clients i).lock_version w
            ⊎ Spent (clients i).lock_version (lock (clients i)) w)
  unlocking_holds i lt at =
      let c = inv i lt in
      (
        subst (λ pc. Named pc i (clients i).value) at c.named,
        subst (λ pc. Holds pc (clients i) w) at c.holds,
      )

  -- Two clients do not own one lock.
  pub owners :
      (i j : ℕ) (k x y : Text) (m u : ℕ)
      → IsValueOf i x
      → IsValueOf j y
      → Owned k x m w
      → Owned k y u w
      → i ≡ j
  owners i j k x y m u p q own own' =
      let same : y ≡ x = ap (λ v. v.value) (sym own' ∙ own) in
      IsValueOf-unique i j x p (subst (IsValueOf j) same q)

  -- A request that was sent spares each lock but the one that its sender is giving back.
  spares :
      (r : Request) (i j : ℕ) (u : ℕ)
      → i < nclients
      → Kind r (clients i) w
      → IsValueOf j (clients j).value
      → (clients j).pc ≢ unlocking
      → Owned (lock (clients j)) (clients j).value u w
      → Spares (lock (clients j)) u r
  spares (get_request r) i j u lt kind named busy own = tt
  spares (put_request r) i j u lt kind named busy own = IsValueKey-ne-lock r.key (clients j) kind
  spares (cas_request r) i j u lt kind named busy own = inr kind
  spares (remove_request r) i j u lt (inl key) named busy own =
      inl (IsValueKey-ne-lock r.key (clients j) key)
  spares (remove_request r) i j u lt (inr (m, e, inl spent)) named busy own =
      elim (spent_spares r.key (lock (clients j)) (clients j).value m u w spent own) [
        | inl other ↦ inl other
        | inr old ↦ inr (m, e, old)
      ]
  spares (remove_request r) i j u lt (inr (m, e, inr (at, key, ver))) named busy own =
      let (named_i, held) = unlocking_holds i lt at in
      elim held [
        | inr spent ↦
            let spent' : Spent m r.key w = rw (← key, ← ver) spent in
            elim (spent_spares r.key (lock (clients j)) (clients j).value m u w spent' own) [
              | inl other ↦ inl other
              | inr old ↦ inr (m, e, old)
            ]
        | inl owned ↦ elim (Bool-cases (text_eq r.key (lock (clients j)))) [
          | inr other ↦ inl (λ q. cc (other, (text_eq_iff r.key (lock (clients j))).1 q))
          | inl same ↦
              let there = key ∙ (text_eq_iff r.key (lock (clients j))).0 same in
              let owned' =
                subst (λ k. Owned k (clients i).value (clients i).lock_version w) there owned in
              let one = owners i j (lock (clients j)) _ _ _ u named_i named owned' own in
              absurd (busy (subst (λ a. (clients a).pc ≡ unlocking) one at))
        ]
      ]

  pub serve-Owned :
      (r : Request) (j u : ℕ) (pc : Pc)
      → RequestInv clients w r
      → (clients j).pc ≡ pc
      → pc ≢ unlocking
      → IsValueOf j (clients j).value
      → Owned (lock (clients j)) (clients j).value u w
      → Owned (lock (clients j)) (clients j).value u (step r w).1
  serve-Owned r j u pc q at busy named own =
      step-Owned (lock (clients j)) (clients j).value u r w v
        (IsValueOf-ne-nil j (clients j).value named)
        (spares r (owner_of (request_serial r)) j u q.owner q.kind named (λ e. busy (sym at ∙ e))
          own)
        own

  -- What a client holds it holds after any request that was sent.
  Holds-after :
      (r : Request) (j : ℕ) (pc : Pc)
      → RequestInv clients w r
      → (clients j).pc ≡ pc
      → Named pc j (clients j).value
      → Holds pc (clients j) w
      → Holds pc (clients j) (step r w).1
  Holds-after r j writing q at named own =
      serve-Owned r j (clients j).lock_version writing q at (λ e. cc) named own
  Holds-after r j write_delay q at named own =
      serve-Owned r j (clients j).lock_version write_delay q at (λ e. cc) named own
  Holds-after r j clearing q at named own =
      serve-Owned r j (clients j).lock_version clearing q at (λ e. cc) named own
  Holds-after r j clear_delay q at named own =
      serve-Owned r j (clients j).lock_version clear_delay q at (λ e. cc) named own
  Holds-after r j unlocking q at named (inl own) =
      step-Owned-or-Spent (lock (clients j)) (clients j).value (clients j).lock_version r w v
        (IsValueOf-ne-nil j (clients j).value named) own
  Holds-after r j unlocking q at named (inr spent) =
      inr (step-Spent (clients j).lock_version (lock (clients j)) r w v spent)
  Holds-after r j pc q at named h = tt

  pub serve-Client :
      (r : Request) (j : ℕ)
      → RequestInv clients w r
      → j < nclients
      → ClientInv n j (clients j) (step r w).1
  serve-Client r j q lt =
      let c = inv j lt in
      record {
        cid = c.cid;
        owner = c.owner;
        low = c.low;
        named = c.named;
        holds = Holds-after r j (clients j).pc q refl c.named c.holds;
      }

  -- The requests that were sent before.
  Kind-after : (r s : Request) (c : Cstate) → Kind s c w → Kind s c (step r w).1
  Kind-after r (get_request s) c k = tt
  Kind-after r (put_request s) c k = k
  Kind-after r (cas_request s) c k = k
  Kind-after r (remove_request s) c (inl k) = inl k
  Kind-after r (remove_request s) c (inr (m, e, inl spent)) =
      inr (m, e, inl (step-Spent m s.key r w v spent))
  Kind-after r (remove_request s) c (inr (m, e, inr u)) = inr (m, e, inr u)

  pub serve-Request : (r s : Request) → RequestInv clients w s → RequestInv clients (step r w).1 s
  serve-Request r s q = record {
    owner = q.owner;
    known = record {
      past = q.past;
      current = q.current;
      kind = Kind-after r s (sender clients s) q.kind;
    };
  }
