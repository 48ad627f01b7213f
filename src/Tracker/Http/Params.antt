-- ===== src/Tracker/Http/Params.antt =====
-- `parse_announce_request` of pset4/tracker/http.cc: the query parameters of an announce.
pub mod Query
pub mod Failure
use mathlib.Core.Option
use traxos.Base.{
  ℕ, ◌+◌, ◌-◌, ◌^◌, Text, Bool, if◌then◌else◌, ◌==◌, Option, none, some, List, [], ◌∷◌, length,
  replicate, text_eq,
}
use traxos.Base.Int.{pos}
use traxos.Base.Bytes.{codes}
use traxos.Tracker.Types.{Event, started, stopped, completed, AnnounceRequest}
use traxos.Tracker.Http.Ipv4.{parse_number, parse_int32, parse_ipv4}

abbrev zeros : Text
zeros = replicate 20 0

-- `bt_tracker_announce_request bt_req{}`, and no failure.
abbrev pub Parsed : Type 0
Parsed = AnnounceRequest × Text

abbrev pub fresh : AnnounceRequest
fresh = record {
  info_hash = zeros;
  peer_id = zeros;
  ip = 0;
  port = 0;
  uploaded = 0;
  downloaded = 0;
  left = 0;
  event = started;
  numwant = pos 50;
}

-- `copy_exact` to an array of twenty bytes.
copy_exact : Text → Option Text
copy_exact value = if length value == 20 then some value else none

parse_event : Text → Option Event
parse_event value =
    if text_eq value (codes "started")
    then some started
    else if text_eq value (codes "stopped")
    then some stopped
    else if text_eq value (codes "completed")
    then some completed
    else none

-- A field that is set where its value parses, and else a failure that is noted.
set_field : {A : Type 0} → Option A → (A → AnnounceRequest) → Text → Parsed → Parsed
set_field none set failure (req, _) = (req, failure)
set_field (some a) set failure (req, noted) = (set a, noted)

-- One round of the loop over the parameters.
unfoldable pub parse_param : Text → Text → Parsed → Parsed
unfolding copy_exact parse_event set_field
parse_param name value (req, failure) =
    if text_eq name (codes "info_hash")
    then set_field (copy_exact value) (λ v. record req { info_hash = v })
        (codes "invalid info_hash") (req, failure)
    else if text_eq name (codes "peer_id")
    then set_field (copy_exact value) (λ v. record req { peer_id = v }) (codes "invalid peer_id")
        (req, failure)
    else if text_eq name (codes "ip")
    then set_field (parse_ipv4 value) (λ v. record req { ip = v }) (codes "invalid ip")
        (req, failure)
    else if text_eq name (codes "port")
    then set_field (parse_number (2 ^ 16 - 1) value) (λ v. record req { port = v })
        (codes "invalid port") (req, failure)
    else if text_eq name (codes "uploaded")
    then set_field (parse_number (2 ^ 64 - 1) value) (λ v. record req { uploaded = v })
        (codes "invalid uploaded") (req, failure)
    else if text_eq name (codes "downloaded")
    then set_field (parse_number (2 ^ 64 - 1) value) (λ v. record req { downloaded = v })
        (codes "invalid downloaded") (req, failure)
    else if text_eq name (codes "left")
    then set_field (parse_number (2 ^ 64 - 1) value) (λ v. record req { left = v })
        (codes "invalid left") (req, failure)
    else if text_eq name (codes "event")
    then set_field (parse_event value) (λ v. record req { event = v }) (codes "invalid event")
        (req, failure)
    else if text_eq name (codes "numwant")
    then set_field (parse_int32 value) (λ v. record req { numwant = v }) (codes "invalid numwant")
        (req, failure)
    else (req, failure)

unfoldable pub parse_announce_request : List (Text × Text) → Parsed → Parsed
parse_announce_request [] parsed = parsed
parse_announce_request ((name, value) ∷ params) parsed =
    parse_announce_request params (parse_param name value parsed)
