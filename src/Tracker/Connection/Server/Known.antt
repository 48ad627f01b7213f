-- ===== src/Tracker/Connection/Server/Known.antt =====
-- The peers that the server knows after any sequence of requests on any connections.
use traxos.Base.{
  ℕ, zero, suc, ◌≡◌, ◌≢◌, inl, inr, refl, sym, ◌∙◌, ap, Text, Bool, true, false, ◌&&◌,
  if◌then◌else◌, Option, none, some, List, [], ◌∷◌, ◌++◌, text_eq, text_eq_iff, Ordered, arith,
  Bool-cases, Option-cases,
}
use mathlib.Core.Option
use traxos.Base.Bytes.{codes}
use traxos.OrdMap.{same}
use traxos.Tracker.Types.{AnnounceRequest, Peer, TrackerState}
use traxos.Tracker.State.{apply_announce}
use traxos.Tracker.State.Told.{told}
use traxos.Tracker.Http.Params.{fresh, parse_announce_request}
use traxos.Tracker.State.Laws.{IsValid, peer_at, peer_at-apply_announce}
use traxos.Tracker.Connection.{HttpRequest, with_address, handle_request}
use traxos.Tracker.Connection.Laws.{
  announce_of, failure_of, announce_success, announce_failure, other_path, handle_request-IsValid,
}
use traxos.Tracker.Connection.Server.Requests.{
  Live, none_live, becomes, requests, Agrees, accept-Agrees, close-Agrees, gone-Agrees,
  round-Agrees, requests_gone, requests_read,
}
use traxos.Tracker.Connection.Server.{
  Server, Happening, accept, receive, connection, close, after_round, happens, run_server,
}

abbrev pub is_empty : Text → Bool
is_empty [] = true
is_empty (c ∷ cs) = false

empty_nil : (t : Text) → is_empty t ≡ true → t ≡ []
empty_nil [] e = refl
empty_nil (c ∷ cs) e = absurd cc

full-ne-nil : (t : Text) → is_empty t ≡ false → t ≢ []
full-ne-nil [] e = absurd cc
full-ne-nil (c ∷ cs) e = λ q. cc

-- The parameters of a query, with the address of the connection where they give none.
abbrev pub announced : Option ℕ → HttpRequest → AnnounceRequest
announced ip http =
    let req = (parse_announce_request http.params (fresh, [])).0 in
    elim req.ip [ zero ↦ record req { ip = Option.get_or ip 0 } | suc known ↦ req ]

announced_address :
    (ip : Option ℕ) (req : AnnounceRequest) (n : ℕ)
    → req.ip ≡ n
    → (elim n [ zero ↦ record req { ip = Option.get_or ip 0 } | suc known ↦ req ])
      ≡ with_address ip req
unfolding with_address
announced_address none req zero e = ap (λ k. record req { ip = k }) (sym e)
announced_address none req (suc n) e = refl
announced_address (some ip) req zero e = ground arith
announced_address (some ip) req (suc n) e = ground arith

announced_lem : (ip : Option ℕ) (http : HttpRequest) → announce_of ip http ≡ announced ip http
announced_lem ip http =
    sym (announced_address ip (parse_announce_request http.params (fresh, [])).0 _ refl)

module _ ⦃o : Ordered Text⦄ where
  -- An announce of the peer `p` for the torrent `h`, with valid parameters.
  abbrev pub is_announce_of : Text → Text → Option ℕ × HttpRequest → Bool
  is_announce_of h p r =
      text_eq r.1.path (codes "/announce")
      && is_empty (failure_of r.1)
      && same h (announced r.0 r.1).info_hash
      && same p (announced r.0 r.1).peer_id

  -- What the requests tell of a peer: its last announce, unless that is a stop.
  abbrev pub known : Text → Text → List (Option ℕ × HttpRequest) → Option Peer → Option Peer
  known h p [] old = old
  known h p (r ∷ rs) old =
      known h p rs (if is_announce_of h p r then told (announced r.0 r.1) else old)

  peer_at-handle_request :
      (h p : Text) (ip : Option ℕ) (state : TrackerState) (http : HttpRequest)
      → IsValid state
      → peer_at h p (handle_request ip state http).1
        ≡ known h p ((ip, http) ∷ []) (peer_at h p state)
  peer_at-handle_request h p ip state http v =
      let a = announced ip http in
      elim (Bool-cases (text_eq http.path (codes "/announce"))) [
        | inr other ↦
            let path : http.path ≢ codes "/announce" =
              λ e. cc (other, (text_eq_iff http.path (codes "/announce")).1 e) in
            let same_state = (other_path ip state http path).0 in
            ap (peer_at h p) same_state ∙ ground arith
        | inl here ↦
            let path = (text_eq_iff http.path (codes "/announce")).0 here in
            elim (Bool-cases (is_empty (failure_of http))) [
              | inl valid ↦
                  let done =
                    announce_success ip state http path (empty_nil (failure_of http) valid) in
                  ap (λ x. peer_at h p x.1) done
                  ∙ (ap (λ req. peer_at h p (apply_announce state req)) (announced_lem ip http)
                      ∙ (peer_at-apply_announce state a h p v ∙ ground arith))
              | inr invalid ↦
                  let kept =
                    announce_failure ip state http path (full-ne-nil (failure_of http) invalid) in
                  ap (λ x. peer_at h p x.1) kept ∙ ground arith
            ]
      ]

  run_none :
      (s : Server) (h p : Text)
      → peer_at h p (run_server [] s).1.tracker_state ≡ peer_at h p s.tracker_state
  unfolding run_server
  run_none s h p = refl

  run_next :
      (x : Happening) (xs : List Happening) (s : Server)
      → (run_server (x ∷ xs) s).1 ≡ (run_server xs (happens x s).1).1
  unfolding run_server
  run_next x xs s = elim (Option-cases (happens x s).0) [
    | inl gone ↦ ground arith
    | inr (r, sent) ↦ ground arith
  ]

  abbrev Knows : Text → Text → Server → Option Peer → Type 0
  Knows h p s o = peer_at h p s.tracker_state ≡ o

  happens-Knows :
      (h p : Text) (x : Happening) (xs : List Happening) (s s' : Server) (o : Option Peer)
      → (happens x s).1 ≡ s'
      → Knows h p (run_server xs s').1 o
      → Knows h p (run_server (x ∷ xs) s).1 o
  happens-Knows h p x xs s s' o e known_then =
      ap (λ t. peer_at h p t.tracker_state) (run_next x xs s ∙ ap (λ q. (run_server xs q).1) e)
      ∙ known_then

  run-Knows :
      (h p : Text) (hs : List Happening) (s : Server) (count : ℕ) (live : Live)
      → IsValid s.tracker_state
      → Agrees s.connections count live
      → Knows h p
          (run_server hs s).1
          (known h p (requests hs count live) (peer_at h p s.tracker_state))
  unfolding happens
  run-Knows h p [] s count live v a = run_none s h p
  run-Knows h p (accept ip ∷ xs) s count live v a =
      let s' : Server = record s { connections = s.connections ++ (some ip ∷ []) } in
      happens-Knows h p (accept ip) xs s s' _ refl
        (run-Knows h p xs s' _ _ v (accept-Agrees ip s.connections count live a))
  run-Knows h p (receive i none keep_alive ∷ xs) s count live v a =
      elim (Option-cases (connection i s.connections)) [
        | inl gone ↦
            happens-Knows h p (receive i none keep_alive) xs s s _ (ground arith)
              (run-Knows h p xs s _ _ v (gone-Agrees i s.connections count live gone a))
        | inr (ip, here) ↦
            let s' : Server = record s { connections = close i s.connections } in
            happens-Knows h p (receive i none keep_alive) xs s s' _ (ground arith)
              (run-Knows h p xs s' _ _ v (close-Agrees i s.connections count live a))
      ]
  run-Knows h p (receive i (some http) keep_alive ∷ xs) s count live v a =
      elim (Option-cases (connection i s.connections)) [
        | inl gone ↦
            let none_live_there = sym (a.each i) ∙ gone in
            happens-Knows h p (receive i (some http) keep_alive) xs s s _ (ground arith) (
              run-Knows h p xs s _ _ v a
              ∙ ap (λ rs. known h p rs (peer_at h p s.tracker_state))
                  (sym (requests_gone i http keep_alive xs count live none_live_there)))
        | inr (ip, here) ↦
            let cs = after_round i keep_alive s.connections in
            let live' = if keep_alive then live else becomes i none live in
            let state = (handle_request ip s.tracker_state http).1 in
            let s' : Server = record { tracker_state = state; connections = cs } in
            let one = peer_at-handle_request h p ip s.tracker_state http v in
            let rest =
              run-Knows h p xs s' count live' (handle_request-IsValid ip s.tracker_state http v)
                (round-Agrees i keep_alive s.connections count live a) in
            let read = requests_read i http keep_alive xs count live ip (sym (a.each i) ∙ here) in
            happens-Knows h p (receive i (some http) keep_alive) xs s s' _ (ground arith) (
              rest
              ∙ (ap (known h p (requests xs count live')) one
                  ∙ ap (λ rs. known h p rs (peer_at h p s.tracker_state)) (sym read)))
      ]

  -- Take a server that starts with a state whose maps are in order and no connection, and any
  -- sequence of connections that are accepted, requests that are read on them, and connections that
  -- end. What the server then knows of a peer of a torrent is what the last announce of that peer
  -- for that torrent tells, of those with valid parameters that came on an open connection: nothing
  -- if it stopped, and else its port, its counters and its address, which is the one that the
  -- connection was accepted with where the query gives none. Without such an announce it knows what
  -- it knew before.
  pub run_server-known :
      (h p : Text) (hs : List Happening) (state : TrackerState)
      → IsValid state
      → peer_at h p
          (run_server hs (record { tracker_state = state; connections = [] })).1.tracker_state
        ≡ known h p (requests hs 0 none_live) (peer_at h p state)
  unfolding connection
  run_server-known h p hs state v =
      run-Knows h p hs (record { tracker_state = state; connections = [] }) 0 none_live v
        (record { counted = refl; each = λ i. refl })
