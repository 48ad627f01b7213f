-- ===== src/Tracker/Http/Replies.antt =====
-- `tracker_success_response` and `tracker_debug_response` of pset4/tracker/http.cc.
pub mod Listed
pub mod Bencode
use Prim.Native.Nat.{bit_and}
use traxos.Base.{
  ℕ, zero, suc, ◌+◌, ◌-◌, ◌/◌, ◌^◌, Text, Bool, true, false, if◌then◌else◌, ◌==◌, ltb, Option, none,
  some, List, [], ◌∷◌, ◌++◌, length, text_eq, Ordered,
}
use traxos.Base.Int.{ℤ, pos, negsuc}
use traxos.Base.Bytes.{codes, decimal}
use traxos.OrdMap.{OrdMap, find}
use traxos.Tracker.Types.{AnnounceRequest, Peer, Peers, TrackerState}
use traxos.Tracker.State.{make_info_hash, make_peer_id}
use traxos.Tracker.Http.Ipv4.{format_ipv4}

-- `count == numwant`, of an `int32_t` that counts up from 0
reached : ℕ → ℤ → Bool
reached count (pos n) = count == n
reached count (negsuc n) = false

-- The dictionary of one peer.
pub peer_entry : Peer → Text
peer_entry peer =
    let ip = format_ipv4 peer.ip in
    codes "d2:ip"
    ++ (decimal (length ip)
        ++ (codes ":" ++ (ip ++ (codes "4:porti" ++ (decimal peer.port ++ codes "ee")))))

-- The loop over the peers of the torrent, from a count and a body on.
pub peers_loop : AnnounceRequest → Peers → ℕ → Text → Text
unfolding reached
peers_loop req [] count body = body
peers_loop req ((peer_id, peer) ∷ peers) count body =
    let skipped = peers_loop req peers count body in
    let listed = peers_loop req peers (count + 1) (body ++ peer_entry peer) in
    if text_eq peer_id (make_peer_id req.peer_id)
    then skipped
    else if reached count req.numwant
    then body
    else listed

module _ ⦃o : Ordered Text⦄ where
  -- The body, with the peers listed where the torrent is known.
  list_peers : TrackerState → AnnounceRequest → Text → Text
  list_peers state req body = elim (find (make_info_hash req.info_hash) state.torrents) [
    | none ↦ body
    | some peers ↦ peers_loop req peers 0 body
  ]

  pub tracker_success_response : TrackerState → AnnounceRequest → Text
  tracker_success_response state req =
      list_peers state req (codes "d8:intervali100e5:peersl") ++ codes "ee"

-- A digit of `"0123456789abcdef"`.
hex_digit : ℕ → ℕ
hex_digit n = if ltb n 10 then 48 + n else 87 + n

hex_bytes : Text → Text
unfolding hex_digit
hex_bytes [] = []
hex_bytes (byte ∷ bytes) = hex_digit (byte / 2 ^ 4) ∷ hex_digit (bit_and byte 0xf) ∷ hex_bytes bytes

debug_peers : Peers → Text
debug_peers [] = []
debug_peers ((peer_id, peer) ∷ peers) =
    (codes "  peer_id "
      ++ (hex_bytes peer_id
          ++ (codes " ip "
              ++ (format_ipv4 peer.ip
                  ++ (codes " port "
                      ++ (decimal peer.port
                          ++ (codes " left "
                              ++ (decimal peer.left
                                  ++ (codes " complete "
                                      ++ ((if peer.complete then codes "yes" else codes "no")
                                          ++ (10 ∷ [])))))))))))
    ++ debug_peers peers

debug_torrents : OrdMap Text Peers → Text
debug_torrents [] = []
debug_torrents ((info_hash, peers) ∷ torrents) =
    (codes "info_hash "
      ++ (hex_bytes info_hash ++ (codes " peers: " ++ (decimal (length peers) ++ (10 ∷ [])))))
    ++ (debug_peers peers ++ debug_torrents torrents)

pub tracker_debug_response : TrackerState → Text
unfolding debug_peers debug_torrents
tracker_debug_response state =
    (codes "torrents: " ++ (decimal (length state.torrents) ++ (10 ∷ [])))
    ++ debug_torrents state.torrents
