-- ===== src/Lockseq/Timely.antt =====
-- The clients of pset4/lockseq_model.cc on a network where no message outlives the try that it belongs
-- to: a request is served once at most, before the client gives up on it, and its response comes
-- then or never.
pub mod Status
pub mod Acts
pub mod Events
pub mod Ranges
pub mod Found
pub mod Requests
pub mod Serves
pub mod Removes
pub mod Moves
pub mod Replies
pub mod Safety
mod Tests
use traxos.Base.{ℕ, ◌+◌, ◌≤◌, ◌<◌, ◌≡◌, Text, Option, none, some, ◌∷◌, ◌++◌, length}
use traxos.Pancy.Msgs.{Request, Response}
use traxos.Pancy.Db.Spec.{step}
use traxos.Replica.{redirection}
use traxos.Lockseq.Client.{
  Cstate, nclients, ngroups, max_sequence_length, request_of, Event, begin, answer, timeout, delay,
  advance,
}
use traxos.Lockseq.System.{System, update, Member, Arrives, sent, started}

-- The clients, the database and the messages, and the response to each client's current try.
pub record Timely : Type 0 where
  pub system : System
  pub mail : ℕ → Option Response

-- The ranges of the draws: `uniform(0U, ngroups_ - 1)`, `uniform_hex(7)` and
-- `uniform(1U, max_sequence_length_)`.
abbrev pub Drawn : Event → Type 0
Drawn (begin gid hex nvalues) =
    (gid < ngroups) × (length hex ≡ 7) × (1 ≤ nvalues) × (nvalues ≤ max_sequence_length)
Drawn e = Unit

-- The message of an answer is the one for the current try.
abbrev pub InTime : Event → Option Response → Type 0
InTime (answer msg drawn) mail = mail ≡ some msg
InTime e mail = Unit

pub data TimelyStep (s : Timely) : Timely → Type 0 where
  act :
      (i : ℕ) (e : Event) (c : Cstate)
      → i < nclients
      → Drawn e
      → InTime e (s.mail i)
      → Arrives e s.system
      → advance e (s.system.clients i) ≡ some c
      → TimelyStep s (record {
        system = record (s.system) {
          clients = update s.system.clients i c;
          requests = sent (request_of c) ++ s.system.requests;
        };
        mail = update s.mail i none;
      })
  serve :
      (i : ℕ) (r : Request)
      → i < nclients
      → request_of (s.system.clients i) ≡ some r
      → Member r s.system.requests
      → s.mail i ≡ none
      → TimelyStep s (record {
        system = record (s.system) {
          world = (step r s.system.world).1;
          responses = (step r s.system.world).0 ∷ s.system.responses;
        };
        mail = update s.mail i (some (step r s.system.world).0);
      })
  redirect :
      (i : ℕ) (r : Request) (leader : ℕ)
      → i < nclients
      → request_of (s.system.clients i) ≡ some r
      → Member r s.system.requests
      → s.mail i ≡ none
      → TimelyStep s (record {
        system = record (s.system) { responses = redirection r leader ∷ s.system.responses };
        mail = update s.mail i (some (redirection r leader));
      })

pub data TimelyReach (leaders : ℕ → ℕ) : ℕ → Timely → Type 0 where
  start : TimelyReach leaders 0 (record { system = started leaders; mail = λ i. none })
  later :
      {n : ℕ} {s t : Timely}
      → TimelyReach leaders n s
      → TimelyStep s t
      → TimelyReach leaders (n + 1) t
