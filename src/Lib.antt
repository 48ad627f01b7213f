-- ===== src/Lib.antt =====
-- A model of traxos: a versioned key-value service behind a group of replicas, and a BitTorrent
-- tracker that grew beside it.
--
-- The parts and their files. `Base` has what the others share: the Boolean tests, signed integers
-- over the native numbers, byte strings in the order of `std::string`, decimal numbers, and `|` and
-- `&` by a byte. `OrdMap` is `std::map`, an association list in the order of its keys.
--
-- `Pancy.Msgs` is pset4/pancy_msgs.hh, and `Pancy.Print` its formatters. `Pancy.Db` is the class
-- `pancydb` of pset4/pancydb.hh: `PancyDb` has its members, and the methods run in a monad that
-- passes the database and the static `vv::nonexistent_vv`, which the pointers of `find_vvptr` may
-- name. Its `none` is undefined behaviour: an access through a pointer to no object, or a version
-- that leaves `int64_t`. `Pancy.Db.Process` is the message API of pset4/pancydb.cc (`process_get`
-- and the others are the overloads of `process`), `Pancy.Db.Direct` the inline API, `Pancy.Db.Diff`
-- the comparison `diff`. `Pancy.Db.Spec` stands apart from them: `step` says without pointers what
-- one request does to a sorted map, and its children what clients may rely on over any sequence of
-- requests; it shares with the code `mismatch`, the test of a version that a request names.
-- `Replica` is the loop of `pt_paxos_replica::run` in pset4/pt-paxos.cc, over the requests in the
-- order in which its port receives them: it uses the message API, and a replica that is not the
-- leader redirects. `Replica.Instance` is how a test makes the replicas: the constructors, and
-- `try_one_seed` up to them, with the throw of the clients' constructor. `Replica.Locks` is about
-- the lock protocol that the clients of pset4/lockseq_model.cc follow: lock by a swap from the
-- empty value, unlock by version.
--
-- `Client` is pset4/client_model.hh: a client's serials, and the loop of `receive_response` over
-- the messages at its port; `Client.Setup` is the constructor and `set_nclients` of
-- pset4/client_model.cc, which finds the channels on a network of `Netsim`. `Lockseq` is `check` of
-- pset4/lockseq_model.cc, which looks through a database for keys and values that no client of the
-- lock protocol could have left; its `parse_digits` is there too, and the keys of
-- pset4/lockseq_model.hh. `Lockseq.Groups` is the comment at its top, on open and locked groups:
-- `Legal` says what it allows for one group, and its children follow the loop through a group and
-- from one group to the next.
--
-- `Lockseq.Client` is the coroutine `lockseq_model::client`: `Cstate` has its locals and the place
-- where it waits, `request_at` what it has sent there, and `advance` takes it from one wait to the
-- next: at an answer to its serial (`received`, `lock_response` and the others), a timeout, the end
-- of a delay, or with the draws of a new round. The draws are any values, also out of their ranges.
-- `Lockseq.Client.Moves` sorts the events by what they do to the lock, and `Lockseq.Client.Turns`
-- is a client with a database that answers at once. `Lockseq.System` puts all clients, the database
-- and a network together: `Step` lets a client advance, the database answer any message that was
-- ever sent, or a replica redirect it; messages are never taken out, so they may come late, twice,
-- in any order or not at all. `Lockseq.System.Invariant` has the invariant, and `Serves`,
-- `Answers`, `Acts`, `Sends` and `Keeps` are about it by the kind of step. Where `Step` answers a
-- request it does so by `step`, the specification. `Lockseq.Timely` has the same steps on a network
-- where no message outlives the try that it belongs to, with draws in their ranges, and follows
-- what each group holds: `Lockseq.Timely.Status` says it by the place where the owner of the lock
-- is.
--
-- `Netsim` is pset4/netsim.hh: `Netsim` itself the channels and the queues of the receivers,
-- `Netsim.OneWay` the class `network<T, void>` with its ports, `Netsim.Server` the class
-- `network<Req, Resp>`. Both are maps from addresses, and a pointer to a port is the address that
-- it is registered under. `Netsim.Traffic` is the use of a network over time, as a list of
-- operations; the messages on their way are its coroutines `send_after`, and may arrive in any
-- order. The loss rate is of any type, and how each coin falls is an argument. `Random` is
-- pset4/random_source.hh over a parameter, the distribution on its engine. `Options` is
-- `short_options_for` of pset4/utils.cc with the option table of pset4/pt-paxos.cc.
--
-- `Tracker.Types` and `Tracker.State` are pset4/tracker/types.hh and state.cc, `Tracker.Http` is
-- pset4/tracker/http.cc (addresses, query parameters, replies), and `Tracker.Connection` one
-- request of `handle_connection` in pset4/tracker.cc and the messages of pset4/tracker/messages.cc:
-- it parses the query, applies the announce to the state and prints the reply. `Tracker.State.Told`
-- writes down apart from the code what an announce tells of its peer, and
-- `Tracker.Connection.Server.Requests` which requests the connections bring, by their numbers.
-- `Tracker.Connection.Server` is the loop around it and `run_server`: what happens on the
-- connections is a sequence, since a coroutine runs alone between two waits.
--
-- Bounds and fuel. The runs of the clients have fewer than 2^51 steps, so that no serial wraps
-- around, and those of `Timely` fewer than 2^32, so that no count of tries does; their database is
-- the specification `step`, whose versions have no bound. Versions of the database of the source
-- are below 2^63, and theorems on writes ask for room below that. The loop that evicts old removals
-- runs on the length of the list as fuel, and each round takes one off. A number is printed on
-- itself plus one as fuel, more than it has digits. An address takes the source's four rounds. The
-- order of the tracker's keys is a parameter, since the sign of `char` differs between platforms.
--
-- `hex_loop` has a fuel of one more than the whole groups of eight digits, one for each round. The
-- digits of an `unsigned` have a fuel of eight, which 32 bits do not exceed.
--
-- Not modelled: the delays and the waiting of coroutines, which the coroutine library defines; the
-- draws of floating-point numbers and durations; what is written to streams; the main programs that
-- drive the tests; and the coroutine and HTTP libraries, which are not part of the repository: the
-- HTTP request arrives parsed, and the peer's address is an argument.
pub mod Base
pub mod OrdMap
pub mod Pancy
pub mod Replica
pub mod Client
pub mod Lockseq
pub mod Netsim
pub mod Random
pub mod Options
pub mod Tracker
