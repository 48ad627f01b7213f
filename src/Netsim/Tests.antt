-- ===== src/Netsim/Tests.antt =====
-- A run of a network of pset4/netsim.hh.
use traxos.Base.{ℕ, ◌≡◌, refl, false, some, List, [], ◌∷◌, ◌++◌, text_ordered}
use traxos.Base.Bytes.{codes}
use traxos.OrdMap.{find, insert_or_assign}
use traxos.Netsim.{Channel, deliver, send}
use traxos.Netsim.OneWay.{Endpoint}
use traxos.Netsim.OneWay
use traxos.Netsim.Server.{
  Port, Network, request, receive_with_channel, set_port, port, response_port, find_port,
  find_response_port, find_channel, find_response_channel,
}
use traxos.Netsim.Traffic.{
  Op, open_port, open_response_port, send_request, arrive_request, started, pull, deliver_request,
  deliver_response, request_sent, apply, run,
}
use traxos.Netsim.Linked.{HasResponsePort}
use traxos.Netsim.Found.{Registered, find_channel-again}
use traxos.Netsim.Replies.{run-receive_with_channel, run-deliver_response}

-- A client sends a request, and it comes to the server.
abbrev asked : List (Op ℕ ℕ ℕ)
asked =
    open_port (codes "s")
    ∷ open_response_port (codes "c")
    ∷ send_request (codes "c") (codes "s") false 7
    ∷ arrive_request 0
    ∷ []

abbrev forth : Channel ℕ
forth = record {
  source_address = codes "c";
  destination = codes "s";
  destination_address = codes "s";
  verbose = false;
  loss = 0;
}

abbrev back : Channel ℕ
back = record {
  source_address = codes "s";
  destination = codes "c";
  destination_address = codes "c";
  verbose = false;
  loss = 0;
}

abbrev server : Port ℕ ℕ
server = record {
  receiver = record { messageq = (7, codes "c") ∷ []; address = codes "s"; verbose = false };
  channels = (codes "c", (forth, back)) ∷ [];
}

abbrev ready : Network ℕ ℕ ℕ
ready = (run asked (started 0)).net

served : find (codes "s") ready.ports ≡ some server
unfolding run apply port response_port request_sent find_channel find_port find_response_port
    set_port send pull deliver_request deliver find insert_or_assign OneWay.port OneWay.find_port
served = refl

run-receive_with_channel_example :
    (reply : Channel ℕ) × (receive_with_channel server
      ≡ request 7 reply (record server { receiver = record (server.receiver) { messageq = [] } }))
    × (find_response_channel (codes "s") (codes "c") ready ≡ some reply)
    × (reply.source_address ≡ codes "s")
    × (reply.destination ≡ codes "c")
    × HasResponsePort (codes "c") ready
run-receive_with_channel_example =
    run-receive_with_channel asked 0 (codes "s") (codes "c") server 7 [] served refl

answered : find_response_channel (codes "s") (codes "c") ready ≡ some back
unfolding run apply port response_port request_sent find_channel find_port find_response_port
    set_port send pull deliver_request deliver find insert_or_assign OneWay.port OneWay.find_port
    find_response_channel
answered = refl

run-deliver_response_example :
    (client : Endpoint ℕ ℕ) × (find_response_port (codes "c") ready ≡ some client)
    × (find_response_port (codes "c") (deliver_response back 9 ready)
        ≡ some (record client {
          receiver = record (client.receiver) {
            messageq = client.receiver.messageq ++ ((9, codes "s") ∷ []);
          };
        }))
run-deliver_response_example = run-deliver_response asked 0 (codes "s") (codes "c") back 9 answered

abbrev opened : Network ℕ ℕ ℕ
opened = (run (open_port (codes "s") ∷ open_response_port (codes "c") ∷ []) (started 0)).net

connected : (find_channel (codes "c") (codes "s") opened).0 ≡ some forth
unfolding run apply port response_port find_channel find_port find_response_port set_port find
    insert_or_assign OneWay.port OneWay.find_port
connected = refl

find_channel-again_example :
    Registered (codes "c") (codes "s") forth (find_channel (codes "c") (codes "s") opened).1
    × (find_channel (codes "c") (codes "s") (find_channel (codes "c") (codes "s") opened).1
        ≡ (some forth, (find_channel (codes "c") (codes "s") opened).1))
find_channel-again_example = find_channel-again (codes "c") (codes "s") forth opened connected
