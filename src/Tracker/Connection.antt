-- ===== src/Tracker/Connection.antt =====
-- `handle_connection` of pset4/tracker.cc, one request at a time: the path and the parameters that the
-- HTTP library parsed, and the address of the peer, which the system call `getpeername` may not give.
-- pset4/tracker/messages.cc: the same announce behind a message.
pub mod Laws
pub mod Server
use traxos.Base.{
  ℕ, Text, Bool, ◌&&◌, if◌then◌else◌, ◌==◌, Option, none, some, List, [], ◌∷◌, ◌++◌, text_eq,
  Ordered,
}
use traxos.Base.Bytes.{codes}
use traxos.Tracker.Types.{AnnounceRequest, TrackerState}
use traxos.Tracker.State.{apply_announce}
use traxos.Tracker.Http.Params.{fresh, Parsed, parse_announce_request}
use traxos.Tracker.Http.Replies.{tracker_success_response, tracker_debug_response}

pub record HttpRequest : Type 0 where
  pub url : Text
  pub path : Text
  pub params : List (Text × Text)

pub record HttpResponse : Type 0 where
  pub status_code : ℕ
  pub body : Text

-- `if (bt_req.ip == 0 && connection_ip) bt_req.ip = *connection_ip`
pub with_address : Option ℕ → AnnounceRequest → AnnounceRequest
with_address none req = req
with_address (some ip) req = if req.ip == 0 then record req { ip = ip } else req

module _ ⦃o : Ordered Text⦄ where
  -- The branches on the failure text.
  answer_announce : TrackerState → Parsed → HttpResponse × TrackerState
  answer_announce state (req, []) =
      let state' = apply_announce state req in
      (record { status_code = 200; body = tracker_success_response state' req }, state')
  answer_announce state (req, c ∷ failure) =
      (record { status_code = 200; body = c ∷ failure }, state)

  pub handle_request : Option ℕ → TrackerState → HttpRequest → HttpResponse × TrackerState
  handle_request connection_ip state http =
      if text_eq http.path (codes "/announce")
      then (let (req, failure) = parse_announce_request http.params (fresh, []) in
          answer_announce state (with_address connection_ip req, failure))
      else if text_eq http.path (codes "/debug")
      then (record { status_code = 200; body = tracker_debug_response state }, state)
      else (
        record {
          status_code = 404;
          body =
              codes "you asked for "
              ++ (http.url ++ (codes ", but probably want /announce instead" ++ (10 ∷ [])));
        },
        state,
      )

-- tracker/messages.hh
pub data Errc : Type 0 where
  ok redirect : Errc

pub record ResponseBase : Type 0 where
  pub serial : ℕ
  pub errcode : Errc

pub record TrackerRequest : Type 0 where
  pub serial : ℕ
  pub announce : AnnounceRequest

pub record AnnounceResponse : Type 0 where
  pub base : ResponseBase
  pub open base use *
  pub body : Text

module _ ⦃o : Ordered Text⦄ where
  -- `process_announce`, which is all that `process_request` does
  pub process_request : TrackerState → TrackerRequest → AnnounceResponse × TrackerState
  process_request state req =
      let state' = apply_announce state req.announce in
      (
        record {
          base = record { serial = req.serial; errcode = ok };
          body = tracker_success_response state' req.announce;
        },
        state',
      )
