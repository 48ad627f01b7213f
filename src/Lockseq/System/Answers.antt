-- ===== src/Lockseq/System/Answers.antt =====
-- The responses, where the database answers a request: what they say of the lock that is asked for,
-- or given back.
use Prim.Native.Nat.{ℕ, ◌≤◌, ◌<◌}
use traxos.Base.{
  text_ordered, ◌≡◌, ◌≢◌, ◌⊎◌, inl, inr, refl, sym, ◌∙◌, Text, true, false, none, some, [], arith,
  Bool-cases, Option-cases,
}
use mathlib.Core.Path.{subst}
use traxos.Base.Int.{pos}
use traxos.Pancy.Msgs.{
  ok, not_found, no_match, nonexistent_version, CasRequest, RemoveRequest, ModResponse, Request,
  get_request, put_request, cas_request, remove_request, request_serial, Response, cas_response,
  remove_response, response_serial,
}
use traxos.Pancy.Db.{World}
use traxos.Pancy.Db.Spec.{modified, step}
use traxos.Pancy.Db.Spec.Valid.{IsValid}
use traxos.Pancy.Db.Spec.Effects.{serial-step}
use traxos.Pancy.Db.Spec.Runs.{Spent, step-Spent}
use traxos.Lockseq.Client.{Pc, locking, lock_delay, unlocking, Cstate, nclients, request_at}
use traxos.Lockseq.Client.Locks.{Owned, Owned-bounds, remove-Spent, cas-Owned}
use traxos.Lockseq.Client.Names.{IsValueOf, IsValueOf-ne-nil}
use traxos.OrdMap.{find}
use traxos.Pancy.Db.Process.{mismatch}
use traxos.Lockseq.System.Serves.{serve-Owned, unlocking_holds}
use traxos.Lockseq.System.Invariant.{
  lock, Named, ClientInv, asked_at, asked, owner_of, RequestInv, is_locking, Tells, ResponseInv,
}

module _ (clients : ℕ → Cstate) (n : ℕ) (w : World) (v : IsValid w)
    (inv : (i : ℕ) → i < nclients → ClientInv n i (clients i) w) where
  locking_busy : (pc : Pc) → is_locking pc ≡ true → pc ≢ unlocking
  locking_busy pc h e = let eq : false ≡ true = subst (λ p. is_locking p ≡ true) e h in cc

  locking-Named : (pc : Pc) (i : ℕ) (x : Text) → is_locking pc ≡ true → Named pc i x → IsValueOf i x
  locking-Named locking i x h m = m
  locking-Named lock_delay i x h m = m
  locking-Named pc i x h m = absurd (cc h)

  -- The responses that were sent before.
  Tells-after :
      (r : Request) (m : Response) (j : ℕ)
      → RequestInv clients w r
      → j < nclients
      → Tells m (clients j) w
      → Tells m (clients j) (step r w).1
  Tells-after r (cas_response m) j q lt tells = λ at said.
      let named = locking-Named (clients j).pc j (clients j).value at (inv j lt).named in
      serve-Owned clients n w v inv r j m.version (clients j).pc q refl
        (locking_busy (clients j).pc at) named (tells at said)
  Tells-after r (remove_response m) j q lt tells =
      λ at. step-Spent (clients j).lock_version (lock (clients j)) r w v (tells at)
  Tells-after r m j q lt tells = tt

  pub serve-Response :
      (r : Request) (m : Response)
      → RequestInv clients w r
      → ResponseInv clients w m
      → ResponseInv clients (step r w).1 m
  serve-Response r m q h = record {
    owner = h.owner;
    known = record {
      past = h.past;
      tells = λ e. Tells-after r m (owner_of (response_serial m)) q h.owner (h.tells e);
    };
  }

  asked_lock :
      (pc : Pc) (c : Cstate) (r : Request)
      → is_locking pc ≡ true
      → (asked_at pc c ≡ some r) ⊎ (asked_at pc c ≡ none)
      → request_at locking c ≡ some r
  unfolding request_at
  asked_lock locking c r h (inl e) = e
  asked_lock lock_delay c r h (inl e) = e
  asked_lock locking c r h (inr e) = absurd (ground arith)
  asked_lock lock_delay c r h (inr e) = absurd (ground arith)
  asked_lock pc c r h e = absurd (cc h)

  cas-Tells :
      (r : CasRequest) (resp : ModResponse) (j : ℕ)
      → j < nclients
      → (asked (clients j) ≡ some (cas_request r)) ⊎ (asked (clients j) ≡ none)
      → (step (cas_request r) w).0 ≡ cas_response resp
      → Tells (cas_response resp) (clients j) (step (cas_request r) w).1
  unfolding request_at
  cas-Tells r resp j lt now answer at said =
      let c = clients j in
      let named = locking-Named c.pc j c.value at (inv j lt).named in
      let mine = asked_lock c.pc c (cas_request r) at now in
      let key : r.key ≡ lock c = ground arith in
      let expected : r.expected ≡ [] = ground arith in
      let desired : r.desired ≡ c.value = ground arith in
      let own =
        cas-Owned r w resp v expected (λ e. IsValueOf-ne-nil j c.value named (sym desired ∙ e))
          answer (elim said [ inl won ↦ inl won | inr own ↦ inr (own ∙ sym desired) ]) in
      subst (λ k. Owned k c.value resp.version (step (cas_request r) w).1) key
        (subst (λ x. Owned r.key x resp.version (step (cas_request r) w).1) desired own)

  given_back :
      (j : ℕ)
      → j < nclients
      → (clients j).pc ≡ unlocking
      → (0 < (clients j).lock_version) × ((clients j).lock_version < w.next_version)
  given_back j lt at =
      let (named, held) = unlocking_holds clients n w v inv j lt at in
      elim held [
        | inl own ↦
            Owned-bounds (lock (clients j)) (clients j).value (clients j).lock_version w v
              (IsValueOf-ne-nil j (clients j).value named) own
        | inr spent ↦ (spent.0, spent.1)
      ]

  asked_unlock :
      (pc : Pc) (c : Cstate) (r : Request)
      → pc ≡ unlocking
      → (asked_at pc c ≡ some r) ⊎ (asked_at pc c ≡ none)
      → request_at unlocking c ≡ some r
  unfolding request_at
  asked_unlock pc c r at (inl e) = subst (λ p. asked_at p c ≡ some r) at e
  asked_unlock pc c r at (inr e) =
      let gone = subst (λ p. asked_at p c ≡ none) at e in absurd (ground arith)

  remove-Tells :
      (r : RemoveRequest) (resp : ModResponse) (j : ℕ)
      → j < nclients
      → (asked (clients j) ≡ some (remove_request r)) ⊎ (asked (clients j) ≡ none)
      → Tells (remove_response resp) (clients j) (step (remove_request r) w).1
  unfolding request_at
  remove-Tells r resp j lt now at =
      let c = clients j in
      let mine = asked_unlock c.pc c (remove_request r) at now in
      let key : r.key ≡ lock c = ground arith in
      let version : r.version_match ≡ pos c.lock_version = ground arith in
      let (positive, below) = given_back j lt at in
      subst (λ k. Spent c.lock_version k (step (remove_request r) w).1) key
        (remove-Spent r c.lock_version w v version positive below)

  removal_answer :
      (r : RemoveRequest)
      → (resp : ModResponse) × ((step (remove_request r) w).0 ≡ remove_response resp)
  unfolding step
  removal_answer r = elim (Option-cases (find r.key w.db)) [
    | inl gone ↦ (modified r.serial not_found [] 0 0, ground arith)
    | inr (old, found) ↦ elim (Bool-cases (mismatch r.version_match old.version)) [
      | inl out ↦ (modified r.serial no_match old.value old.version old.version, ground arith)
      | inr win ↦ (modified r.serial ok [] old.version nonexistent_version, ground arith)
    ]
  ]

  answer-Tells :
      (r : Request) (j : ℕ)
      → j < nclients
      → (asked (clients j) ≡ some r) ⊎ (asked (clients j) ≡ none)
      → Tells (step r w).0 (clients j) (step r w).1
  unfolding step
  answer-Tells (get_request r) j lt now = tt
  answer-Tells (put_request r) j lt now = tt
  answer-Tells (cas_request r) j lt now = cas-Tells r _ j lt now refl
  answer-Tells (remove_request r) j lt now =
      let (resp, e) = removal_answer r in
      subst (λ m. Tells m (clients j) (step (remove_request r) w).1) (sym e)
        (remove-Tells r resp j lt now)

  -- Of a response with the serial `k`.
  abbrev Says : Response → World → ℕ → Type 0
  Says m w' k =
      (owner_of k < nclients)
      × (k ≤ (clients (owner_of k)).serial)
      × (k ≡ (clients (owner_of k)).serial → Tells m (clients (owner_of k)) w')

  pub serve-answer :
      (r : Request) → RequestInv clients w r → ResponseInv clients (step r w).1 (step r w).0
  serve-answer r q =
      let says = subst (Says (step r w).0 (step r w).1) (sym (serial-step r w)) (
        q.owner,
        q.past,
        λ e. answer-Tells r (owner_of (request_serial r)) q.owner (q.current e),
      ) in
      record { owner = says.0; known = record { past = says.1; tells = says.2 } }
