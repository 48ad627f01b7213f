-- ===== src/Tracker/State/Told.antt =====
-- What an announce to pset4/tracker/state.cc tells of its peer, written down apart from the code.
use traxos.Base.{◌≡◌, refl, Bool, true, Option, none, some, ◌==◌, if◌then◌else◌}
use traxos.Tracker.Types.{Event, started, stopped, completed, AnnounceRequest, Peer}
use traxos.Tracker.State.{is_stopped, is_completed, make_peer}

-- The announced data of the peer, and whether it has all of the file.
abbrev peer_with : AnnounceRequest → Bool → Peer
peer_with req complete = record {
  peer_id = req.peer_id;
  ip = req.ip;
  port = req.port;
  uploaded = req.uploaded;
  downloaded = req.downloaded;
  left = req.left;
  complete = complete;
}

-- No peer where it stopped. A peer that completed, or has nothing left, has all of the file.
abbrev pub told : AnnounceRequest → Option Peer
told req = elim req.event [
  | started ↦ some (peer_with req (req.left == 0))
  | stopped ↦ none
  | completed ↦ some (peer_with req true)
]

told_at :
    (e : Event) (req : AnnounceRequest)
    → req.event ≡ e
    → (if is_stopped req.event then none else some (make_peer req)) ≡ told req
unfolding is_stopped is_completed make_peer
told_at started req h = rw h refl
told_at stopped req h = rw h refl
told_at completed req h = rw h refl

pub told_lem :
    (req : AnnounceRequest)
    → (if is_stopped req.event then none else some (make_peer req)) ≡ told req
told_lem req = told_at req.event req refl
