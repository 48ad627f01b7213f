-- ===== src/Tracker/State.antt =====
-- pset4/tracker/state.cc: what an announce does to the torrents.
pub mod Told
pub mod Laws
use mathlib.Core.Option
use traxos.Base.{Text, Bool, true, false, ◌||◌, ◌==◌, [], Ordered}
use traxos.OrdMap.{find, emplace, assign, insert_or_assign, erase}
use traxos.Tracker.Types.{
  Event, started, stopped, completed, AnnounceRequest, Peer, Peers, TrackerState,
}

-- `make_info_hash` and `make_peer_id` copy the bytes.
abbrev pub make_info_hash : Text → Text
make_info_hash bytes = bytes

abbrev pub make_peer_id : Text → Text
make_peer_id bytes = bytes

pub is_stopped : Event → Bool
is_stopped stopped = true
is_stopped e = false

is_completed : Event → Bool
is_completed completed = true
is_completed e = false

pub make_peer : AnnounceRequest → Peer
unfolding is_completed
make_peer req = record {
  peer_id = make_peer_id req.peer_id;
  ip = req.ip;
  port = req.port;
  uploaded = req.uploaded;
  downloaded = req.downloaded;
  left = req.left;
  complete = is_completed req.event || req.left == 0;
}

module _ ⦃o : Ordered Text⦄ where
  -- What is written to the reference `peers`.
  pub announce_peers : AnnounceRequest → Peers → Peers
  unfolding is_stopped
  announce_peers req peers = elim (is_stopped req.event) [
    | true ↦ erase (make_peer_id req.peer_id) peers
    | false ↦ insert_or_assign (make_peer_id req.peer_id) (make_peer req) peers
  ]

  -- `state.torrents[info_hash]` adds an empty torrent where there is none.
  pub apply_announce : TrackerState → AnnounceRequest → TrackerState
  unfolding announce_peers
  apply_announce state req =
      let info_hash = make_info_hash req.info_hash in
      let torrents = emplace info_hash [] state.torrents in
      let peers = Option.get_or (find info_hash torrents) [] in
      record { torrents = assign info_hash (announce_peers req peers) torrents }
