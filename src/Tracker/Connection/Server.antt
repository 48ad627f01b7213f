-- ===== src/Tracker/Connection/Server.antt =====
-- `run_server` and the loop of `handle_connection` in pset4/tracker.cc: connections that are accepted at
-- any time, with one tracker state. Between two waits a coroutine runs alone, so what happens is a
-- sequence.
pub mod Requests
pub mod Known
use traxos.Base.{
  ℕ, zero, suc, ◌≡◌, ◌≢◌, inl, inr, refl, sym, ◌∙◌, ap, Text, Bool, true, false, ◌&&◌,
  if◌then◌else◌, Option, none, some, List, [], ◌∷◌, ◌++◌, text_eq, text_eq_iff, Ordered, arith,
  Bool-cases, Option-cases,
}
use mathlib.Core.Path.{subst}
use traxos.Base.Bytes.{codes}
use traxos.OrdMap.{same}
use traxos.Tracker.Types.{AnnounceRequest, Peer, TrackerState}
use traxos.Tracker.State.{is_stopped, make_peer}
use traxos.Tracker.State.Laws.{IsValid, peer_at, peer_at-apply_announce}
use traxos.Tracker.Connection.{HttpRequest, HttpResponse, handle_request}
use traxos.Tracker.Connection.Laws.{
  announce_of, failure_of, announce_success, announce_failure, other_path, handle_request-IsValid,
}

-- For each connection that was accepted its peer's address, if the system has it; `none` where its
-- loop has ended.
abbrev pub Connections : Type 0
Connections = List (Option (Option ℕ))

pub record Server : Type 0 where
  pub tracker_state : TrackerState
  pub connections : Connections

-- `tcp_accept`, or `receive` on a connection: a request, with what `should_keep_alive` tells after it
-- is answered, or none where the peer closed or the parser failed.
pub data Happening : Type 0 where
  accept : (connection_ip : Option ℕ) → Happening
  receive : (i : ℕ) (req : Option HttpRequest) (keep_alive : Bool) → Happening

pub connection : ℕ → Connections → Option (Option ℕ)
connection i [] = none
connection zero (c ∷ cs) = c
connection (suc i) (c ∷ cs) = connection i cs

pub close : ℕ → Connections → Connections
close i [] = []
close zero (c ∷ cs) = none ∷ cs
close (suc i) (c ∷ cs) = c ∷ close i cs

-- The end of the round: `while (hp.should_keep_alive())`
abbrev pub after_round : ℕ → Bool → Connections → Connections
after_round i keep_alive cs = if keep_alive then cs else close i cs

-- The connections after something happens, and the request that is handled.
abbrev pub round_of : Happening → Connections → Option (Option ℕ × HttpRequest) × Connections
round_of (accept ip) cs = (none, cs ++ (some ip ∷ []))
round_of (receive i req keep_alive) cs = elim (connection i cs) [
  | none ↦ (none, cs)
  | some ip ↦ elim req [
    | none ↦ (none, close i cs)
    | some http ↦ (some (ip, http), after_round i keep_alive cs)
  ]
]

module _ ⦃o : Ordered Text⦄ where
  -- What is sent, and the server after it.
  pub happens : Happening → Server → Option HttpResponse × Server
  happens h s =
      let (round, cs) = round_of h s.connections in
      elim round [
        | none ↦ (none, record s { connections = cs })
        | some (ip, http) ↦
            let (res, state) = handle_request ip s.tracker_state http in
            (some res, record { tracker_state = state; connections = cs })
      ]

  pub run_server : List Happening → Server → List HttpResponse × Server
  unfolding happens
  run_server [] s = ([], s)
  run_server (h ∷ hs) s =
      let (res, s') = happens h s in
      let (rest, s'') = run_server hs s' in
      elim res [ none ↦ (rest, s'') | some r ↦ (r ∷ rest, s'') ]
