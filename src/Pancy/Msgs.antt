-- ===== src/Pancy/Msgs.antt =====
-- pset4/pancy_msgs.hh: the messages between clients and the service, and their headers. A version
-- that the service makes is positive, so it is a ℕ; a client may send any `int64_t` to match.
use traxos.Base.{ℕ, Text}
use traxos.Base.Int.{ℤ, negsuc}

abbrev pub nonexistent_version : ℕ
nonexistent_version = 0

-- -1
abbrev pub any_version : ℤ
any_version = negsuc 0

pub data Errc : Type 0 where
  ok not_found no_match redirect : Errc

-- `response_base`, with the serial of `message_base`
pub record ResponseBase : Type 0 where
  pub serial : ℕ
  pub errcode : Errc

pub record RedirectionResponse : Type 0 where
  pub base : ResponseBase
  pub open base use *
  pub redirection : ℕ

pub record GetRequest : Type 0 where
  pub serial : ℕ
  pub key : Text

pub record GetResponse : Type 0 where
  pub base : ResponseBase
  pub open base use *
  pub value : Text
  pub version : ℕ

pub record PutRequest : Type 0 where
  pub serial : ℕ
  pub key : Text
  pub value : Text
  pub version_match : ℤ

-- The fields that `put_response`, `cas_response` and `remove_response` all have.
pub record ModResponse : Type 0 where
  pub base : ResponseBase
  pub open base use *
  pub actual : Text
  pub previous_version : ℕ
  pub version : ℕ

pub record CasRequest : Type 0 where
  pub serial : ℕ
  pub key : Text
  pub expected : Text
  pub desired : Text
  pub version_match : ℤ

pub record RemoveRequest : Type 0 where
  pub serial : ℕ
  pub key : Text
  pub version_match : ℤ

pub data Request : Type 0 where
  get_request : GetRequest → Request
  put_request : PutRequest → Request
  cas_request : CasRequest → Request
  remove_request : RemoveRequest → Request

pub data Response : Type 0 where
  redirection_response : RedirectionResponse → Response
  get_response : GetResponse → Response
  put_response : ModResponse → Response
  cas_response : ModResponse → Response
  remove_response : ModResponse → Response

-- `message_serial` of a request and of a response
unfoldable pub request_serial : Request → ℕ
request_serial (get_request r) = r.serial
request_serial (put_request r) = r.serial
request_serial (cas_request r) = r.serial
request_serial (remove_request r) = r.serial

unfoldable pub response_serial : Response → ℕ
response_serial (redirection_response r) = r.serial
response_serial (get_response r) = r.serial
response_serial (put_response r) = r.serial
response_serial (cas_response r) = r.serial
response_serial (remove_response r) = r.serial

unfoldable pub response_errcode : Response → Errc
response_errcode (redirection_response r) = r.errcode
response_errcode (get_response r) = r.errcode
response_errcode (put_response r) = r.errcode
response_errcode (cas_response r) = r.errcode
response_errcode (remove_response r) = r.errcode

-- `response_header` of the request with this serial
abbrev pub response_header : ℕ → Errc → ResponseBase
response_header serial errcode = record { serial = serial; errcode = errcode }
