-- ===== src/Tracker/Http/Replies/Listed.antt =====
-- Which peers `tracker_success_response` of pset4/tracker/http.cc lists.
use mathlib.Core.List.{append_assoc, append-nil}
use traxos.Base.{
  ℕ, zero, suc, ◌+◌, ◌≡◌, ◌⊎◌, refl, sym, Text, if◌then◌else◌, List, [], ◌∷◌, ◌++◌, take, text_eq,
  Ordered, arith, Bool-cases, inl, inr,
}
use traxos.Base.Int.{ℤ, pos, negsuc}
use traxos.Base.Bytes.{codes}
use traxos.Tracker.Types.{AnnounceRequest, Peer, Peers, TrackerState}
use traxos.Tracker.State.Laws.{peers_of}
use traxos.Tracker.Http.Replies.{peer_entry, peers_loop, list_peers, tracker_success_response}

pub others : Text → Peers → List Peer
others own [] = []
others own ((peer_id, peer) ∷ peers) =
    let rest = others own peers in if text_eq peer_id own then rest else peer ∷ rest

-- A negative number of wanted peers is no limit.
abbrev pub at_most : ℤ → List Peer → List Peer
at_most (pos n) peers = take n peers
at_most (negsuc n) peers = peers

unfoldable pub entries : List Peer → Text
entries [] = []
entries (peer ∷ peers) = peer_entry peer ++ entries peers

loop_limited :
    (req : AnnounceRequest) (peers : Peers) (count n left : ℕ) (body : Text)
    → req.numwant ≡ pos n
    → n ≡ count + left
    → peers_loop req peers count body ≡ body ++ entries (take left (others req.peer_id peers))
unfolding peers_loop others entries
loop_limited req [] count n zero body w e = sym (append-nil body)
loop_limited req [] count n (suc left) body w e = sym (append-nil body)
loop_limited req ((i, peer) ∷ peers) count n zero body w e =
    elim (Bool-cases (text_eq i req.peer_id)) [
      | inl own ↦ ground (arith, own, loop_limited req peers count n zero body w e)
      | inr other ↦ ground (arith, append-nil body)
    ]
loop_limited req ((i, peer) ∷ peers) count n (suc left) body w e =
    elim (Bool-cases (text_eq i req.peer_id)) [
      | inl own ↦ ground (arith, own, loop_limited req peers count n (suc left) body w e)
      | inr other ↦ ground (
        arith,
        loop_limited req peers (count + 1) n left (body ++ peer_entry peer) w (omega arith),
        append_assoc body (peer_entry peer) (entries (take left (others req.peer_id peers))),
      )
    ]

loop_unlimited :
    (req : AnnounceRequest) (peers : Peers) (count n : ℕ) (body : Text)
    → req.numwant ≡ negsuc n
    → peers_loop req peers count body ≡ body ++ entries (others req.peer_id peers)
unfolding peers_loop others entries
loop_unlimited req [] count n body w = sym (append-nil body)
loop_unlimited req ((i, peer) ∷ peers) count n body w = ground (
  arith,
  loop_unlimited req peers count n body w,
  loop_unlimited req peers (count + 1) n (body ++ peer_entry peer) w,
  append_assoc body (peer_entry peer) (entries (others req.peer_id peers)),
)

ℤ-cases : (z : ℤ) → ((n : ℕ) × (z ≡ pos n)) ⊎ ((n : ℕ) × (z ≡ negsuc n))
ℤ-cases (pos n) = inl (n, refl)
ℤ-cases (negsuc n) = inr (n, refl)

peers_loop-entries :
    (req : AnnounceRequest) (peers : Peers) (body : Text)
    → peers_loop req peers 0 body ≡ body ++ entries (at_most req.numwant (others req.peer_id peers))
peers_loop-entries req peers body = elim (ℤ-cases req.numwant) [
  | inl (n, w) ↦ ground (arith, w, loop_limited req peers 0 n n body w (omega arith))
  | inr (n, w) ↦ ground (arith, w, loop_unlimited req peers 0 n body w)
]

module _ ⦃o : Ordered Text⦄ where
  list_peers-peers_loop :
      (state : TrackerState) (req : AnnounceRequest) (body : Text)
      → list_peers state req body ≡ peers_loop req (peers_of req.info_hash state) 0 body
  unfolding list_peers peers_loop
  list_peers-peers_loop state req body = ground arith

  -- The reply to an announce is a dictionary of the interval and of the list of the torrent's peers
  -- but the asking one, in the order of their ids: of all of them where the number of wanted peers
  -- is negative, and else of the first so many.
  pub success_response-entries :
      (state : TrackerState) (req : AnnounceRequest)
      → tracker_success_response state req
        ≡ codes "d8:intervali100e5:peersl"
          ++ (entries (at_most req.numwant (others req.peer_id (peers_of req.info_hash state)))
              ++ codes "ee")
  unfolding tracker_success_response
  success_response-entries state req =
      let peers = peers_of req.info_hash state in
      rw (list_peers-peers_loop, peers_loop-entries)
        (append_assoc (codes "d8:intervali100e5:peersl") _ (codes "ee"))
