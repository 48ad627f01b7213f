-- ===== src/Netsim/Replies.antt =====
-- The reply channel of a request in pset4/netsim.hh, and where a reply on it arrives.
use traxos.Base.{
  ◌≡◌, inl, inr, sym, ◌∙◌, ap, Text, true, none, some, List, [], ◌∷◌, ◌++◌, text_ordered, arith,
  Option-cases,
}
use mathlib.Core.Path.{subst}
use traxos.OrdMap.{find, insert_or_assign, same}
use traxos.Netsim.{Channel, deliver}
use traxos.Netsim.OneWay.{OneWay, Endpoint, new_endpoint}
use traxos.Netsim.OneWay
use traxos.Netsim.Server.{
  Port, Network, request, receive_with_channel, port, find_response_channel, find_response_port,
  find_port,
}
use traxos.Netsim.Traffic.{Op, started, deliver_response, run}
use traxos.Netsim.Linked.{find-set_same, HasResponsePort}
use traxos.Netsim.Keeps.{head_request}
use traxos.Netsim.Found.{first_some, same_refl}
use traxos.Netsim.Runs.{started-Inv, run-Inv}

reply_channel :
    {L Q R : Type 0} (src dst : Text) (n : Network L Q R) (p : Port L Q)
    (pair : Channel L × Channel L)
    → find dst n.ports ≡ some p
    → find src p.channels ≡ some pair
    → find_response_channel dst src n ≡ some pair.1
unfolding find_response_channel find_port
reply_channel src dst n p pair found known = ground arith

-- Take any use of a network, with ports opened at any time, and messages that are lost or come in
-- any order. A server that takes the request at the head of its queue never reads past the end of
-- its channels: it gets the request with a reply channel, which is the one that the network finds
-- between the two, from the server to the address that the request came from, and at this address
-- there is a port for responses.
pub run-receive_with_channel :
    {L Q R : Type 0} (ops : List (Op L Q R)) (l : L) (dst src : Text) (p : Port L Q) (msg : Q)
    (rest : List (Q × Text))
    → find dst (run ops (started {L = L} {Q = Q} {R = R} l)).net.ports ≡ some p
    → p.receiver.messageq ≡ (msg, src) ∷ rest
    → (reply : Channel L) × (receive_with_channel p
        ≡ request msg reply (record p { receiver = record (p.receiver) { messageq = rest } }))
      × (find_response_channel dst src (run ops (started {L = L} {Q = Q} {R = R} l)).net
          ≡ some reply)
      × (reply.source_address ≡ dst)
      × (reply.destination ≡ src)
      × HasResponsePort src (run ops (started {L = L} {Q = Q} {R = R} l)).net
run-receive_with_channel {L} {Q} {R} ops l dst src p msg rest found full =
    let s = run ops (started {L = L} {Q = Q} {R = R} l) in
    let inv = run-Inv ops (started {L = L} {Q = Q} {R = R} l) (started-Inv l) in
    let here = inv.ports dst p found in
    let (pair, known, got) = head_request dst src p s.net msg rest here full in
    let (linked, port) = here.paired src pair known in
    (
      pair.1,
      got,
      reply_channel src dst s.net p pair found known,
      linked.reply_source,
      linked.reply_destination,
      port,
    )

found_reply :
    {L Q R : Type 0} (dst src : Text) (n : Network L Q R) (reply : Channel L)
    → find_response_channel dst src n ≡ some reply
    → (p : Port L Q) × (pair : Channel L × Channel L) × (find dst n.ports ≡ some p)
      × (find src p.channels ≡ some pair)
      × (pair.1 ≡ reply)
unfolding find_response_channel find_port
found_reply dst src n reply e = elim (Option-cases (find dst n.ports)) [
  | inl gone ↦ let to : find_response_channel dst src n ≡ none = ground arith in absurd cc
  | inr (p, found) ↦ elim (Option-cases (find src p.channels)) [
    | inl gone ↦ let to : find_response_channel dst src n ≡ none = ground arith in absurd cc
    | inr (pair, known) ↦
        let to : find_response_channel dst src n ≡ some pair.1 = ground arith in
        (p, pair, found, known, first_some _ _ (sym to ∙ e))
  ]
]

delivered :
    {L Q R : Type 0} (src dst : Text) (n : Network L Q R) (reply : Channel L) (msg : R)
    (client : Endpoint L R)
    → reply.destination ≡ src
    → reply.source_address ≡ dst
    → find_response_port src n ≡ some client
    → find_response_port src (deliver_response reply msg n)
      ≡ some (record client {
        receiver = record (client.receiver) {
          messageq = client.receiver.messageq ++ ((msg, dst) ∷ []);
        };
      })
unfolding deliver_response deliver find_response_port OneWay.find_port
delivered {L} {Q} {R} src dst n reply msg client to from opened =
    let ports = n.response_network.ports in
    let at : find reply.destination ports ≡ some client = ap (λ k. find k ports) to ∙ opened in
    let p' : Endpoint L R = record client { receiver = deliver reply msg client.receiver } in
    let n' : Network L Q R = record n {
      response_network = record (n.response_network) {
        ports = insert_or_assign reply.destination p' ports;
      };
    } in
    let step : deliver_response reply msg n ≡ n' = ground arith in
    ap (λ m. find_response_port src m) step
    ∙ (find-set_same src reply.destination p' ports
          (subst (λ k. same src k ≡ true) (sym to) (same_refl src))
        ∙ ap
            (λ a. some (record client {
              receiver = record (client.receiver) {
                messageq = client.receiver.messageq ++ ((msg, a) ∷ []);
              };
            }))
            from)

-- After any use of a network, with ports opened at any time, and messages that are lost or come in
-- any order, a message on the reply channel between a server and a client comes, when it is
-- delivered, to the end of the queue of the client's port, as from the server, and the port is
-- otherwise unchanged.
pub run-deliver_response :
    {L Q R : Type 0} (ops : List (Op L Q R)) (l : L) (dst src : Text) (reply : Channel L) (msg : R)
    → find_response_channel dst src (run ops (started {L = L} {Q = Q} {R = R} l)).net ≡ some reply
    → (client : Endpoint L R) × (find_response_port src
          (run ops (started {L = L} {Q = Q} {R = R} l)).net
        ≡ some client)
      × (find_response_port src
            (deliver_response reply msg (run ops (started {L = L} {Q = Q} {R = R} l)).net)
          ≡ some (record client {
            receiver = record (client.receiver) {
              messageq = client.receiver.messageq ++ ((msg, dst) ∷ []);
            };
          }))
run-deliver_response {L} {Q} {R} ops l dst src reply msg e =
    let s = run ops (started {L = L} {Q = Q} {R = R} l) in
    let inv = run-Inv ops (started {L = L} {Q = Q} {R = R} l) (started-Inv l) in
    let (p, pair, found, known, same) = found_reply dst src s.net reply e in
    let (linked, (client, opened)) = (inv.ports dst p found).paired src pair known in
    (
      client,
      opened,
      delivered src dst s.net reply msg client
          (ap (λ c. c.destination) (sym same) ∙ linked.reply_destination)
          (ap (λ c. c.source_address) (sym same) ∙ linked.reply_source) opened,
    )
