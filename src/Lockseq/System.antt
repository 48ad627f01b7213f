-- ===== src/Lockseq/System.antt =====
-- The clients of pset4/lockseq_model.cc, the database that answers them, and a network that keeps every
-- message: it may deliver it late, more than once, out of order, or never.
pub mod Invariant
pub mod Serves
pub mod Answers
pub mod Acts
pub mod Sends
pub mod Keeps
pub mod Safety
pub mod Answered
use Prim.Native.Nat.{ℕ, ◌+◌, ◌<◌}
use traxos.Base.{◌==◌, ◌≡◌, ◌⊎◌, if◌then◌else◌, Option, none, some, List, [], ◌∷◌, ◌++◌}
use traxos.Pancy.Msgs.{Request, Response}
use traxos.Pancy.Db.{World, init}
use traxos.Pancy.Db.Spec.{step}
use traxos.Replica.{redirection}
use traxos.Lockseq.Client.{
  Cstate, fresh, nclients, request_of, Event, begin, answer, timeout, delay, advance,
}

abbrev pub update {ℓ} : {A : Type ℓ} → (ℕ → A) → ℕ → A → ℕ → A
update f i a j = if i == j then a else f j

abbrev pub Member : {A : Type 0} → A → List A → Type 0
Member a [] = ⊥
Member a (x ∷ xs) = (a ≡ x) ⊎ Member a xs

pub record System : Type 0 where
  pub clients : ℕ → Cstate
  pub world : World
  pub requests : List Request
  pub responses : List Response

-- What a client sends when it comes to wait for a response.
abbrev pub sent : Option Request → List Request
sent none = []
sent (some r) = r ∷ []

-- The message of an answer is one that was sent.
abbrev pub Arrives : Event → System → Type 0
Arrives (answer msg drawn) s = Member msg s.responses
Arrives e s = Unit

pub data Step (s : System) : System → Type 0 where
  act :
      (i : ℕ) (e : Event) (c : Cstate)
      → i < nclients
      → Arrives e s
      → advance e (s.clients i) ≡ some c
      → Step s (record s {
        clients = update s.clients i c;
        requests = sent (request_of c) ++ s.requests;
      })
  serve :
      (r : Request)
      → Member r s.requests
      → Step s
          (record s { world = (step r s.world).1; responses = (step r s.world).0 ∷ s.responses })
  redirect :
      (r : Request) (leader : ℕ)
      → Member r s.requests
      → Step s (record s { responses = redirection r leader ∷ s.responses })

-- The clients as they start, with the leaders that they draw, and an empty database.
abbrev pub started : (ℕ → ℕ) → System
started leaders = record {
  clients = λ i. fresh i (leaders i);
  world = init;
  requests = [];
  responses = [];
}

-- The states after `n` steps.
pub data Reach (leaders : ℕ → ℕ) : ℕ → System → Type 0 where
  start : Reach leaders 0 (started leaders)
  later : {n : ℕ} {s t : System} → Reach leaders n s → Step s t → Reach leaders (n + 1) t
