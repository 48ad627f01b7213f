-- ===== src/Tracker/State/Laws.antt =====
-- What the tracker knows of a peer after an announce.
use mathlib.Core.Option
use traxos.Base.{
  ◌≡◌, Text, ◌&&◌, if◌then◌else◌, Option, none, some, [], Ordered, arith, Option-cases, Bool-cases,
  inl, inr,
}
use traxos.OrdMap.{find, same, insert_or_assign, IsSorted}
use traxos.OrdMap.Laws.{
  find-insert_or_assign, find-erase, find-emplace_self, assign-emplace, insert_or_assign-IsSorted,
  erase-IsSorted,
}
use traxos.OrdMap.Values.{AllValues, find-AllValues, insert_or_assign-AllValues}
use traxos.Tracker.Types.{AnnounceRequest, Peer, Peers, TrackerState}
use traxos.Tracker.State.Told.{told, told_lem}
use traxos.Tracker.State.{is_stopped, make_peer, announce_peers, apply_announce}

module _ ⦃o : Ordered Text⦄ where
  -- The peers of a torrent, and one of them.
  abbrev pub peers_of : Text → TrackerState → Peers
  peers_of h state = Option.get_or (find h state.torrents) []

  abbrev pub peer_at : Text → Text → TrackerState → Option Peer
  peer_at h p state = find p (peers_of h state)

  -- The torrents and the peers of each are in the order of their keys.
  pub record IsValid (state : TrackerState) : Type 0 where
    pub sorted : IsSorted state.torrents
    pub peers : AllValues IsSorted state.torrents

  -- An announce is one write of the announced torrent's peers.
  apply_announce-assign :
      (state : TrackerState) (req : AnnounceRequest)
      → (apply_announce state req).torrents
        ≡ insert_or_assign req.info_hash
            (announce_peers req (peers_of req.info_hash state))
            state.torrents
  unfolding apply_announce
  apply_announce-assign state req = rw (find-emplace_self, assign-emplace)

  find-announce_peers :
      (req : AnnounceRequest) (peers : Peers) (p : Text)
      → IsSorted peers
      → find p (announce_peers req peers) ≡ (
          if same p req.peer_id
          then (if is_stopped req.event then none else some (make_peer req))
          else find p peers)
  unfolding announce_peers
  find-announce_peers req peers p s = elim (Bool-cases (is_stopped req.event)) [
    | inl stop ↦ rw (stop, announce_peers) (find-erase p req.peer_id peers s)
    | inr go ↦ rw (go, announce_peers) (find-insert_or_assign p req.peer_id (make_peer req) peers)
  ]

  announce_peers-IsSorted :
      (req : AnnounceRequest) (peers : Peers) → IsSorted peers → IsSorted (announce_peers req peers)
  unfolding announce_peers
  announce_peers-IsSorted req peers s = elim (Bool-cases (is_stopped req.event)) [
    | inl stop ↦ rw (stop, announce_peers) (erase-IsSorted req.peer_id peers s)
    | inr go ↦
        rw (go, announce_peers) (insert_or_assign-IsSorted req.peer_id (make_peer req) peers s)
  ]

  peers_of-IsSorted :
      (h : Text) (state : TrackerState) → IsValid state → IsSorted (peers_of h state)
  peers_of-IsSorted h state v = elim (Option-cases (find h state.torrents)) [
    | inl gone ↦ rw gone tt
    | inr (peers, found) ↦ rw found (find-AllValues IsSorted h state.torrents peers v.peers found)
  ]

  -- An announce keeps the torrents, and the peers of each, in the order of their keys.
  pub apply_announce-IsValid :
      (state : TrackerState) (req : AnnounceRequest)
      → IsValid state
      → IsValid (apply_announce state req)
  apply_announce-IsValid state req v = record {
    sorted =
        rw (apply_announce-assign state req)
          (insert_or_assign-IsSorted req.info_hash _ state.torrents v.sorted);
    peers = rw (apply_announce-assign state req) (
        insert_or_assign-AllValues IsSorted req.info_hash _ state.torrents
          (announce_peers-IsSorted req _ (peers_of-IsSorted req.info_hash state v)) v.peers);
  }

  -- After an announce to a state whose maps are in order, the announced peer is unknown if it
  -- stopped, and else known with the announced address, port and counters, as complete where the
  -- event was `completed` or nothing is left; every other peer of every torrent is known as before.
  pub peer_at-apply_announce :
      (state : TrackerState) (req : AnnounceRequest) (h p : Text)
      → IsValid state
      → peer_at h p (apply_announce state req)
        ≡ (if same h req.info_hash && same p req.peer_id then told req else peer_at h p state)
  peer_at-apply_announce state req h p v =
      let here =
        find-announce_peers req (peers_of req.info_hash state) p
          (peers_of-IsSorted req.info_hash state v) in
      rw (apply_announce-assign state req, find-insert_or_assign)
        (ground (arith, here, told_lem req, o.cmp_iff h req.info_hash))

  -- An announce leaves its torrent in the table, also a stop that takes out the last peer.
  pub torrent-apply_announce :
      (state : TrackerState) (req : AnnounceRequest)
      → find req.info_hash (apply_announce state req).torrents
        ≡ some (announce_peers req (peers_of req.info_hash state))
  torrent-apply_announce state req =
      rw (apply_announce-assign state req, find-insert_or_assign)
        (ground (arith, o.cmp_iff req.info_hash req.info_hash))
