-- ===== src/Netsim/Traffic.antt =====
-- The use of a `network<Req, Resp>` of pset4/netsim.hh over time: ports are opened, messages are sent and
-- lost, and those on their way come in any order.
use traxos.Base.{ℕ, zero, suc, Text, Bool, false, Option, none, some, List, [], ◌∷◌, text_ordered}
use traxos.OrdMap.{find, insert_or_assign}
use traxos.Netsim.{Channel, deliver, send, receive_from}
use traxos.Netsim.Server.{
  Network, waits, undefined, request, receive_with_channel, set_port, port, response_port,
  set_default_verbose, set_default_loss, find_channel, find_response_channel,
}

-- The messages on their way are coroutines `send_after` that sleep.
pub record Traffic (L Q R : Type 0) : Type 0 where
  pub net : Network L Q R
  pub requests : List (Channel L × Q)
  pub responses : List (Channel L × R)

pub data Op (L Q R : Type 0) : Type 0 where
  open_port open_response_port : (addr : Text) → Op L Q R
  make_verbose : Bool → Op L Q R
  make_lossy : L → Op L Q R
  send_request : (src dst : Text) (lost : Bool) (msg : Q) → Op L Q R
  arrive_request : (k : ℕ) → Op L Q R
  take_request : (dst : Text) → Op L Q R
  send_response : (src dst : Text) (lost : Bool) (msg : R) → Op L Q R
  arrive_response : (k : ℕ) → Op L Q R
  take_response : (dst : Text) → Op L Q R

abbrev pub started : {L Q R : Type 0} → L → Traffic L Q R
started no_loss = record {
  net = record {
    ports = [];
    response_network = record { ports = []; default_verbose = false; default_loss = no_loss };
    default_verbose = false;
    default_loss = no_loss;
  };
  requests = [];
  responses = [];
}

-- The element `k`, and the others.
unfoldable pub pull : {A : Type 0} → ℕ → List A → Option (A × List A)
pull k [] = none
pull zero (x ∷ xs) = some (x, xs)
pull (suc k) (x ∷ xs) = elim (pull k xs) [ none ↦ none | some (y, ys) ↦ some (y, x ∷ ys) ]

module _ {L Q R : Type 0} where
  -- `destination_->deliver`
  unfoldable pub deliver_request : Channel L → Q → Network L Q R → Network L Q R
  deliver_request ch msg n = elim (find ch.destination n.ports) [
    | none ↦ n
    | some p ↦ set_port ch.destination (record p { receiver = deliver ch msg p.receiver }) n
  ]

  unfoldable pub deliver_response : Channel L → R → Network L Q R → Network L Q R
  deliver_response ch msg n = elim (find ch.destination n.response_network.ports) [
    | none ↦ n
    | some p ↦ record n {
      response_network = record (n.response_network) {
        ports =
            insert_or_assign ch.destination (record p { receiver = deliver ch msg p.receiver })
              n.response_network.ports;
      };
    }
  ]

  unfoldable pub taken : Text → Network L Q R → Network L Q R
  taken dst n = elim (find dst n.ports) [
    | none ↦ n
    | some p ↦ elim (receive_with_channel p) [
      | waits ↦ n
      | undefined ↦ n
      | request msg reply rest ↦ set_port dst rest n
    ]
  ]

  unfoldable pub taken_response : Text → Network L Q R → Network L Q R
  taken_response dst n = elim (find dst n.response_network.ports) [
    | none ↦ n
    | some p ↦ elim (receive_from p.receiver) [
      | none ↦ n
      | some (m, rest) ↦ record n {
        response_network = record (n.response_network) {
          ports = insert_or_assign dst (record p { receiver = rest }) n.response_network.ports;
        };
      }
    ]
  ]

  -- A client finds its channel and sends on it.
  unfoldable pub request_sent : Text → Text → Bool → Q → Traffic L Q R → Traffic L Q R
  request_sent src dst lost msg s =
      let (ch, n) = find_channel src dst s.net in
      elim ch [
        | none ↦ record s { net = n }
        | some c ↦ record s { net = n; requests = send lost c msg s.requests }
      ]

  unfoldable pub apply : Op L Q R → Traffic L Q R → Traffic L Q R
  apply (open_port addr) s = record s { net = port addr s.net }
  apply (open_response_port addr) s = record s { net = response_port addr s.net }
  apply (make_verbose v) s = record s { net = set_default_verbose v s.net }
  apply (make_lossy l) s = record s { net = set_default_loss l s.net }
  apply (send_request src dst lost msg) s = request_sent src dst lost msg s
  apply (arrive_request k) s = elim (pull k s.requests) [
    | none ↦ s
    | some ((ch, msg), rest) ↦ record s { net = deliver_request ch msg s.net; requests = rest }
  ]
  apply (take_request dst) s = record s { net = taken dst s.net }
  apply (send_response src dst lost msg) s = elim (find_response_channel src dst s.net) [
    | none ↦ s
    | some ch ↦ record s { responses = send lost ch msg s.responses }
  ]
  apply (arrive_response k) s = elim (pull k s.responses) [
    | none ↦ s
    | some ((ch, msg), rest) ↦ record s { net = deliver_response ch msg s.net; responses = rest }
  ]
  apply (take_response dst) s = record s { net = taken_response dst s.net }

  unfoldable pub run : List (Op L Q R) → Traffic L Q R → Traffic L Q R
  run [] s = s
  run (op ∷ ops) s = run ops (apply op s)
