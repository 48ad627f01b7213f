-- ===== src/Tracker/Tests.antt =====
-- The tracker on concrete inputs, with the bytes in unsigned order.
use traxos.Base.{
  ℕ, ◌≡◌, ◌≢◌, refl, Text, true, false, ◌&&◌, if◌then◌else◌, none, some, List, [], ◌∷◌, ◌++◌, arith,
  text_ordered, text_eq_iff, replicate,
}
use traxos.Base.Int.{pos}
use traxos.Base.Bytes.{codes, from_chars}
use traxos.OrdMap.{find, same}
use traxos.Tracker.Types.{started, stopped, AnnounceRequest, TrackerState}
use traxos.Tracker.State.{announce_peers, apply_announce}
use traxos.Tracker.State.Laws.{
  IsValid, peers_of, peer_at, apply_announce-IsValid, peer_at-apply_announce,
  torrent-apply_announce,
}
use traxos.Tracker.Http.Ipv4.{parse_number, parse_ipv4, format_ipv4, parse_ipv4-format_ipv4}
use traxos.Tracker.Http.Params.{fresh, parse_param, parse_announce_request}
use traxos.Tracker.Http.Params.Failure.{parse_announce_request-ne-nil}
use traxos.Tracker.Http.Replies.{tracker_success_response}
use traxos.Tracker.Http.Replies.Listed.{entries, at_most, others, success_response-entries}
use traxos.Tracker.Http.Replies.Bencode.{Bencoded, success_response-Bencoded}
use traxos.Tracker.Connection.{HttpRequest, handle_request}
use traxos.Tracker.Connection.Server.{Server, Happening, accept, receive, run_server}
use traxos.Tracker.Connection.Server.Requests.{none_live, requests}
use traxos.Tracker.Connection.Server.Known.{known, run_server-known}
use traxos.Tracker.Connection.Laws.{failure_of, other_path}

abbrev torrent : Text
torrent = replicate 20 7

abbrev first : Text
first = replicate 20 1

abbrev second : Text
second = replicate 20 2

abbrev peer : Text → ℕ → AnnounceRequest
peer peer_id port = record {
  info_hash = torrent;
  peer_id = peer_id;
  ip = 2130706433;
  port = port;
  uploaded = 0;
  downloaded = 0;
  left = 10;
  event = started;
  numwant = pos 50;
}

abbrev no_torrents : TrackerState
no_torrents = record { torrents = [] }

no_torrents-IsValid : IsValid no_torrents
no_torrents-IsValid = record { sorted = tt; peers = tt }

-- Two peers of one torrent.
abbrev two_peers : TrackerState
two_peers = apply_announce (apply_announce no_torrents (peer first 6881)) (peer second 6882)

apply_announce-IsValid_example : IsValid (apply_announce no_torrents (peer first 6881))
apply_announce-IsValid_example =
    apply_announce-IsValid no_torrents (peer first 6881) no_torrents-IsValid

two_peers-IsValid : IsValid two_peers
two_peers-IsValid =
    apply_announce-IsValid (apply_announce no_torrents (peer first 6881)) (peer second 6882)
      apply_announce-IsValid_example

abbrev leave : AnnounceRequest
leave = record (peer first 6881) { event = stopped }

peer_at-apply_announce_example :
    peer_at torrent second (apply_announce two_peers leave)
    ≡ (if same torrent torrent && same second first then none else peer_at torrent second two_peers)
peer_at-apply_announce_example =
    peer_at-apply_announce two_peers leave torrent second two_peers-IsValid

torrent-apply_announce_example :
    find torrent (apply_announce two_peers leave).torrents
    ≡ some (announce_peers leave (peers_of torrent two_peers))
torrent-apply_announce_example = torrent-apply_announce two_peers leave

success_response-Bencoded_example : Bencoded (tracker_success_response two_peers leave)
success_response-Bencoded_example = success_response-Bencoded two_peers leave

success_response-entries_example :
    tracker_success_response two_peers leave
    ≡ codes "d8:intervali100e5:peersl"
      ++ (entries (at_most (pos 50) (others first (peers_of torrent two_peers))) ++ codes "ee")
success_response-entries_example = success_response-entries two_peers leave

parse_ipv4-format_ipv4_example : parse_ipv4 (format_ipv4 2130706433) ≡ some 2130706433
parse_ipv4-format_ipv4_example = parse_ipv4-format_ipv4 2130706433 (omega arith)

abbrev query : List (Text × Text)
query =
    (codes "info_hash", torrent)
    ∷ (codes "peer_id", replicate 20 3)
    ∷ (codes "port", codes "6883")
    ∷ []

abbrev bad_query : List (Text × Text)
bad_query = (codes "port", codes "65536") ∷ []

parse_announce_request-ne-nil_example :
    (parse_announce_request query (fresh, codes "invalid port")).1 ≢ []
parse_announce_request-ne-nil_example =
    parse_announce_request-ne-nil query (fresh, codes "invalid port") (λ e. cc)

abbrev announce : List (Text × Text) → HttpRequest
announce params = record { url = codes "/announce"; path = codes "/announce"; params = params }

abbrev debug : HttpRequest
debug = record { url = codes "/debug"; path = codes "/debug"; params = [] }

query_valid : failure_of (announce query) ≡ []
unfolding parse_announce_request parse_param parse_number from_chars
query_valid = refl

bad_query_invalid : failure_of (announce bad_query) ≡ codes "invalid port"
unfolding parse_announce_request parse_param parse_number from_chars
bad_query_invalid = refl

invalid : failure_of (announce bad_query) ≢ []
invalid e = cc bad_query_invalid

not_announce : codes "/debug" ≢ codes "/announce"
not_announce e =
    let eq : false ≡ true = (text_eq_iff (codes "/debug") (codes "/announce")).1 e in cc

other_path_example :
    ((handle_request none two_peers debug).1 ≡ two_peers)
    × ((handle_request none two_peers debug).0.status_code ≡ 200)
other_path_example = other_path none two_peers debug not_announce

-- Two connections. The second one announces; the first one asks for the debug page, and its loop ends.
abbrev happenings : List Happening
happenings =
    accept none
    ∷ accept (some 5)
    ∷ receive 1 (some (announce query)) true
    ∷ receive 0 (some debug) false
    ∷ receive 0 (some (announce bad_query)) true
    ∷ []

abbrev idle : Server
idle = record { tracker_state = no_torrents; connections = [] }

run_server-known_example :
    peer_at torrent (replicate 20 3) (run_server happenings idle).1.tracker_state
    ≡ known torrent
        (replicate 20 3)
        (requests happenings 0 none_live)
        (peer_at torrent (replicate 20 3) no_torrents)
run_server-known_example =
    run_server-known torrent (replicate 20 3) happenings no_torrents no_torrents-IsValid
