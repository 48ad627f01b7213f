-- ===== src/Tracker/Http/Params/Query.antt =====
-- The query of an announce, as a client of the tracker writes it, read by `parse_announce_request`
-- of pset4/tracker/http.cc.
use traxos.Base.{◌^◌, ◌<◌, ◌≡◌, ap, ◌∙◌, Text, List, [], ◌∷◌, length}
use traxos.Base.Bytes.{codes, decimal}
use traxos.Tracker.Types.{Event, started, stopped, completed, AnnounceRequest}
use traxos.Tracker.Http.Ipv4.{format_ipv4, signed, IsInt32}
use traxos.Tracker.Http.Params.{Parsed, parse_param, parse_announce_request}

abbrev event_name : Event → Text
event_name started = codes "started"
event_name stopped = codes "stopped"
event_name completed = codes "completed"

abbrev pub query_of : AnnounceRequest → List (Text × Text)
query_of req =
    (codes "info_hash", req.info_hash)
    ∷ (codes "peer_id", req.peer_id)
    ∷ (codes "ip", format_ipv4 req.ip)
    ∷ (codes "port", decimal req.port)
    ∷ (codes "uploaded", decimal req.uploaded)
    ∷ (codes "downloaded", decimal req.downloaded)
    ∷ (codes "left", decimal req.left)
    ∷ (codes "event", event_name req.event)
    ∷ (codes "numwant", signed req.numwant)
    ∷ []

-- Each field holds a value of its C++ type.
pub record InRange (req : AnnounceRequest) : Type 0 where
  pub info_hash : length req.info_hash ≡ 20
  pub peer_id : length req.peer_id ≡ 20
  pub ip : req.ip < 2 ^ 32
  pub port : req.port < 2 ^ 16
  pub uploaded : req.uploaded < 2 ^ 64
  pub downloaded : req.downloaded < 2 ^ 64
  pub left : req.left < 2 ^ 64
  pub numwant : IsInt32 req.numwant

-- One parameter that is read.
module _ (value : Text) (req : AnnounceRequest) (failure : Text) where
  abbrev Sets : Text → AnnounceRequest → Type 0
  Sets name req' = parse_param name value (req, failure) ≡ (req', failure)

next :
    (name value : Text) (params : List (Text × Text)) (p q r : Parsed)
    → parse_param name value p ≡ q
    → parse_announce_request params q ≡ r
    → parse_announce_request ((name, value) ∷ params) p ≡ r
unfolding parse_announce_request
next name value params p q r e rest = ap (parse_announce_request params) e ∙ rest
