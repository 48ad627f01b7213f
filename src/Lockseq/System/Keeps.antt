-- ===== src/Lockseq/System/Keeps.antt =====
-- The invariant over the steps of the clients, the database and the network.
use Prim.Native.Nat.{ℕ, ◌+◌, ◌^◌, ◌<◌}
use traxos.Base.{
  ◌≡◌, inl, inr, refl, sym, ◌∙◌, ap, Option, none, some, ◌∷◌, ◌++◌, All, All-mono, ◌==◌, arith,
  Bool-cases,
}
use mathlib.Core.Path.{subst}
use traxos.Pancy.Msgs.{
  Request, request_serial, Response, cas_response, remove_response, response_serial,
}
use traxos.Pancy.Db.{World}
use traxos.Pancy.Db.Spec.{step}
use traxos.Pancy.Db.Spec.Valid.{init-IsValid}
use traxos.Pancy.Db.Spec.Keeps.{step-IsValid}
use traxos.Pancy.Db.Spec.Runs.{Spent}
use traxos.Replica.{redirection}
use traxos.Lockseq.Client.{locking, unlocking, Cstate, nclients, request_of, Event, answer}
use traxos.Lockseq.Client.Locks.{Owned}
use traxos.Lockseq.Client.Moves.{Grants, Removes, Moved}
use traxos.Lockseq.Client.Advances.{advance-Moved}
use traxos.Lockseq.System.{
  System, update, Member, sent, Arrives, Step, act, serve, redirect, started, Reach, start, later,
}
use traxos.Lockseq.System.Invariant.{
  lock, ClientInv, owner_of, RequestOf, RequestInv, is_locking, Tells, ResponseOf, ResponseInv, Inv,
}
use traxos.Lockseq.System.Serves.{Member-All, serve-Client, serve-Request}
use traxos.Lockseq.System.Answers.{serve-Response, serve-answer}
use traxos.Lockseq.System.Acts.{Moved-Client}
use traxos.Lockseq.System.Sends.{
  request_of-RequestOf, request_of-owner, Moved-RequestOf, Moved-ResponseOf,
}

pub update-elim {ℓ κ} :
    {A : Type ℓ} (P : A → Type κ) (f : ℕ → A) (i : ℕ) (a : A) (j : ℕ)
    → (i ≡ j → P a)
    → P (f j)
    → P (update f i a j)
update-elim P f i a j new old = elim (Bool-cases (i == j)) [
  | inl same ↦ rw same (new (ground arith))
  | inr other ↦ rw other old
]

pub update_same {ℓ} : {A : Type ℓ} (f : ℕ → A) (i : ℕ) (a : A) → update f i a i ≡ a
update_same f i a = ground arith

low_client : (n i : ℕ) (c : Cstate) (w : World) → ClientInv n i c w → ClientInv (n + 1) i c w
low_client n i c w inv =
    let low = inv.low in
    record {
      cid = inv.cid;
      owner = inv.owner;
      low = omega arith;
      named = inv.named;
      holds = inv.holds;
    }

-- What the response to a client's request says is the truth.
heard :
    (clients : ℕ → Cstate) (w : World) (m : Response) (i : ℕ)
    → ResponseInv clients w m
    → owner_of (clients i).serial ≡ i
    → response_serial m ≡ (clients i).serial
    → Tells m (clients i) w
heard clients w m i h own s =
    let to : owner_of (response_serial m) ≡ i = ap owner_of s ∙ own in
    subst (λ j. response_serial m ≡ (clients j).serial → Tells m (clients j) w) to h.tells s

module _ (n : ℕ) (few : n < 2 ^ 51) (s : System) (inv : Inv n s) where
  arrived :
      (m : Response) (i : ℕ)
      → i < nclients
      → Member m s.responses
      → response_serial m ≡ (s.clients i).serial
      → Tells m (s.clients i) s.world
  arrived m i lt came same =
      heard s.clients s.world m i
        (Member-All (ResponseInv s.clients s.world) m s.responses inv.responses came)
        (inv.clients i lt).owner same

  pub granted :
      (i : ℕ) (e : Event) (v : ℕ)
      → i < nclients
      → Arrives e s
      → (s.clients i).pc ≡ locking
      → Grants e (s.clients i) v
      → Owned (lock (s.clients i)) (s.clients i).value v s.world
  unfolding response_serial
  granted i (answer (cas_response m) drawn) v lt came at (same, said, ver) =
      rw ver (arrived (cas_response m) i lt came same (ap is_locking at) said)
  granted i e v lt came at g = absurd g

  removed :
      (i : ℕ) (e : Event)
      → i < nclients
      → Arrives e s
      → Removes e (s.clients i)
      → (s.clients i).pc ≡ unlocking
      → Spent (s.clients i).lock_version (lock (s.clients i)) s.world
  unfolding response_serial
  removed i (answer (remove_response m) drawn) lt came g at =
      arrived (remove_response m) i lt came g at
  removed i e lt came g at = absurd g

  module _ (i : ℕ) (lt : i < nclients) (e : Event) (c' : Cstate) (came : Arrives e s)
      (moved : Moved e (s.clients i) c') where
    acted_client : (j : ℕ) → j < nclients → ClientInv (n + 1) j (update s.clients i c' j) s.world
    acted_client j jlt =
        update-elim (λ c. ClientInv (n + 1) j c s.world) s.clients i c' j
          (λ same.
            subst (λ k. ClientInv (n + 1) k c' s.world) same
              (Moved-Client n i s.world few lt e (s.clients i) c' (inv.clients i lt)
                (λ at g. granted i e c'.lock_version lt came at g) moved))
          (low_client n j (s.clients j) s.world (inv.clients j jlt))

    acted_request :
        (r : Request)
        → RequestInv s.clients s.world r
        → RequestInv (update s.clients i c') s.world r
    acted_request r q = record {
      owner = q.owner;
      known =
          update-elim (λ c. RequestOf c s.world r) s.clients i c' (owner_of (request_serial r))
            (λ same.
              Moved-RequestOf n i s.world few lt e (s.clients i) c' (inv.clients i lt) r
                (λ g at. removed i e lt came g at) moved
                (subst (λ k. RequestOf (s.clients k) s.world r) (sym same) q.known))
            q.known;
    }

    acted_response :
        (m : Response)
        → ResponseInv s.clients s.world m
        → ResponseInv (update s.clients i c') s.world m
    acted_response m h = record {
      owner = h.owner;
      known =
          update-elim (λ c. ResponseOf c s.world m) s.clients i c' (owner_of (response_serial m))
            (λ same.
              Moved-ResponseOf n i s.world few lt e (s.clients i) c' (inv.clients i lt) m moved
                (subst (λ k. ResponseOf (s.clients k) s.world m) (sym same) h.known))
            h.known;
    }

    new_request :
        (r : Request) → request_of c' ≡ some r → RequestInv (update s.clients i c') s.world r
    new_request r asks =
        let own : owner_of (request_serial r) ≡ i =
          request_of-owner c' r asks
          ∙ (Moved-Client n i s.world few lt e (s.clients i) c' (inv.clients i lt)
              (λ at g. granted i e c'.lock_version lt came at g) moved).owner in
        record {
          owner = rw own lt;
          known =
              subst (λ k. RequestOf (update s.clients i c' k) s.world r) (sym own)
                (subst (λ c. RequestOf c s.world r) (sym (update_same s.clients i c'))
                  (request_of-RequestOf c' s.world r asks));
        }

    acted_requests :
        (asks : Option Request)
        → request_of c' ≡ asks
        → All (RequestInv (update s.clients i c') s.world) (sent asks ++ s.requests)
    acted_requests none eq =
        All-mono (RequestInv s.clients s.world) (RequestInv (update s.clients i c') s.world)
          acted_request s.requests inv.requests
    acted_requests (some r) eq = (
      new_request r eq,
      All-mono (RequestInv s.clients s.world) (RequestInv (update s.clients i c') s.world)
          acted_request s.requests inv.requests,
    )

    acted-Inv : Inv (n + 1) (record s {
      clients = update s.clients i c';
      requests = sent (request_of c') ++ s.requests;
    })
    acted-Inv = record {
      valid = inv.valid;
      clients = acted_client;
      requests = acted_requests (request_of c') refl;
      responses =
          All-mono (ResponseInv s.clients s.world) (ResponseInv (update s.clients i c') s.world)
            acted_response s.responses inv.responses;
    }

  asked_by : (r : Request) → Member r s.requests → RequestInv s.clients s.world r
  asked_by r came = Member-All (RequestInv s.clients s.world) r s.requests inv.requests came

  served-Inv :
      (r : Request)
      → Member r s.requests
      → Inv
          (n + 1)
          (record s { world = (step r s.world).1; responses = (step r s.world).0 ∷ s.responses })
  served-Inv r came =
      let q = asked_by r came in
      record {
        valid = step-IsValid r s.world inv.valid;
        clients = λ j lt.
            low_client n j (s.clients j) (step r s.world).1
              (serve-Client s.clients n s.world inv.valid inv.clients r j q lt);
        requests =
            All-mono (RequestInv s.clients s.world) (RequestInv s.clients (step r s.world).1)
              (serve-Request s.clients n s.world inv.valid inv.clients r) s.requests inv.requests;
        responses = (
          serve-answer s.clients n s.world inv.valid inv.clients r q,
          All-mono (ResponseInv s.clients s.world) (ResponseInv s.clients (step r s.world).1)
              (λ m. serve-Response s.clients n s.world inv.valid inv.clients r m q) s.responses
              inv.responses,
        );
      }

  redirected-Inv :
      (r : Request) (leader : ℕ)
      → Member r s.requests
      → Inv (n + 1) (record s { responses = redirection r leader ∷ s.responses })
  unfolding response_serial
  redirected-Inv r leader came =
      let q = asked_by r came in
      record {
        valid = inv.valid;
        clients = λ j lt. low_client n j (s.clients j) s.world (inv.clients j lt);
        requests = inv.requests;
        responses = (
          record { owner = q.owner; known = record { past = q.past; tells = λ e. tt } },
          inv.responses,
        );
      }

  pub Step-Inv : (t : System) → Step s t → Inv (n + 1) t
  Step-Inv t (act i e c lt came moves) =
      acted-Inv i lt e c came (advance-Moved e (s.clients i) c moves)
  Step-Inv t (serve r came) = served-Inv r came
  Step-Inv t (redirect r leader came) = redirected-Inv r leader came

started-Inv : (leaders : ℕ → ℕ) → Inv 0 (started leaders)
started-Inv leaders = record {
  valid = init-IsValid;
  clients =
      λ i lt. record { cid = refl; owner = omega arith; low = omega arith; named = tt; holds = tt };
  requests = tt;
  responses = tt;
}

pub Reach-Inv : (leaders : ℕ → ℕ) (n : ℕ) (s : System) → n < 2 ^ 51 → Reach leaders n s → Inv n s
Reach-Inv leaders k u few start = started-Inv leaders
Reach-Inv leaders k u few (later {n} {s} before last) =
    Step-Inv n (omega arith) s (Reach-Inv leaders n s (omega arith) before) u last
