-- ===== src/Netsim/Server.antt =====
-- `network<Req, Resp>` and `port<Req, Resp>` of pset4/netsim.hh.
use mathlib.Core.Option
use traxos.Base.{Text, Bool, Option, none, some, [], text_ordered}
use traxos.OrdMap.{OrdMap, find, insert_or_assign}
use traxos.Netsim.{Channel, Receiver, new_receiver, receive_from}
use traxos.Netsim.OneWay.{OneWay, Endpoint}
use traxos.Netsim.OneWay

-- For each peer the channel from it, and the reply channel back to it.
pub record Port (L Q : Type 0) : Type 0 where
  pub receiver : Receiver Q
  pub channels : OrdMap Text (Channel L × Channel L)

pub record Network (L Q R : Type 0) : Type 0 where
  pub ports : OrdMap Text (Port L Q)
  pub response_network : OneWay L R
  pub default_verbose : Bool
  pub default_loss : L

abbrev pub new_port : {L Q : Type 0} → Text → Port L Q
new_port addr = record { receiver = new_receiver addr; channels = [] }

-- `undefined` is that the end of the map is dereferenced.
pub data Received (L Q : Type 0) : Type 0 where
  waits undefined : Received L Q
  request : (msg : Q) (reply : Channel L) (rest : Port L Q) → Received L Q

unfoldable pub receive_with_channel : {L Q : Type 0} → Port L Q → Received L Q
unfolding receive_from
receive_with_channel p = elim (receive_from p.receiver) [
  | none ↦ waits
  | some ((msg, source_addr), receiver) ↦ elim (find source_addr p.channels) [
    | none ↦ undefined
    | some (inbound, reply) ↦ request msg reply (record p { receiver = receiver })
  ]
]

module _ {L Q R : Type 0} where
  unfoldable pub set_port : Text → Port L Q → Network L Q R → Network L Q R
  set_port addr p n = record n { ports = insert_or_assign addr p n.ports }

  unfoldable pub port : Text → Network L Q R → Network L Q R
  unfolding set_port
  port addr n =
      let p = Option.get_or (find addr n.ports) (new_port addr) in
      set_port addr (record p { receiver = record (p.receiver) { verbose = n.default_verbose } }) n

  unfoldable pub response_port : Text → Network L Q R → Network L Q R
  unfolding OneWay.port
  response_port addr n = record n { response_network = OneWay.port addr n.response_network }

  unfoldable pub set_default_verbose : Bool → Network L Q R → Network L Q R
  set_default_verbose v n = record n {
    default_verbose = v;
    response_network = record (n.response_network) { default_verbose = v };
  }

  unfoldable pub set_default_loss : L → Network L Q R → Network L Q R
  set_default_loss l n = record n {
    default_loss = l;
    response_network = record (n.response_network) { default_loss = l };
  }

  unfoldable pub find_port : Text → Network L Q R → Option (Port L Q)
  find_port addr n = find addr n.ports

  unfoldable pub find_response_port : Text → Network L Q R → Option (Endpoint L R)
  unfolding OneWay.find_port
  find_response_port addr n = OneWay.find_port addr n.response_network

  unfoldable pub find_response_channel : Text → Text → Network L Q R → Option (Channel L)
  unfolding find_port
  find_response_channel src dst n = elim (find_port src n) [
    | none ↦ none
    | some server ↦ elim (find dst server.channels) [
      | none ↦ none
      | some (inbound, reply) ↦ some reply
    ]
  ]

  abbrev pub new_channel : Text → Text → Text → Network L Q R → Channel L
  new_channel src dst addr n = record {
    source_address = src;
    destination = dst;
    destination_address = addr;
    verbose = n.default_verbose;
    loss = n.default_loss;
  }

  unfoldable pub find_channel : Text → Text → Network L Q R → Option (Channel L) × Network L Q R
  unfolding find_port find_response_port set_port
  find_channel src dst n = elim (find_port dst n) [
    | none ↦ (none, n)
    | some dest ↦ elim (find src dest.channels) [
      | some (req_chan, resp_chan) ↦ (some req_chan, n)
      | none ↦ elim (find_response_port src n) [
        | none ↦ (none, n)
        | some src_resp ↦
            let req_chan = new_channel src dst dest.receiver.address n in
            let resp_chan = new_channel dst src src n in
            (
              some req_chan,
              set_port dst
                  (record dest {
                    channels = insert_or_assign src (req_chan, resp_chan) dest.channels;
                  })
                  n,
            )
      ]
    ]
  ]
