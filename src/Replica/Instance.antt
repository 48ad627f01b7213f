-- ===== src/Replica/Instance.antt =====
-- `pt_paxos_replica::pt_paxos_replica`, `pt_paxos_instance::pt_paxos_instance` and the setup of
-- `try_one_seed` in pset4/pt-paxos.cc: the ports and the channels of the replicas.
pub mod Peers
pub mod Built
mod Tests
use traxos.Base.{ℕ, zero, suc, ◌+◌, Text, Bool, Option, none, some, List, [], ◌∷◌, ◌++◌}
use traxos.Base.Bytes.{codes}
use traxos.Pancy.Db.{init}
use traxos.Netsim.{Channel}
use traxos.Netsim.OneWay
use traxos.Netsim.OneWay.{OneWay}
use traxos.Netsim.Server
use traxos.Netsim.Server.{Network}
use traxos.Client.Setup.{replica_addr, client_model, open_replicas}
use traxos.Replica.{Replica}

pub record Testinfo (L : Type 0) : Type 0 where
  pub loss : L
  pub verbose : Bool
  pub print_db : Bool
  pub nreplicas : ℕ
  pub initial_leader : ℕ

-- The port of a replica for the others.
abbrev pub peer_addr : ℕ → Text
peer_addr s = replica_addr s ++ codes "/r"

-- A replica with its ports, by their addresses, and its channels, where `none` is a null pointer.
pub record Wired (L : Type 0) : Type 0 where
  pub replica : Replica
  pub from_clients : Text
  pub from_replicas : Text
  pub to_replicas : List (Option (Channel L))

-- `thrown` is `std::out_of_range`, of the constructor of the clients.
pub data SetUp (L M : Type 0) : Type 0 where
  thrown null_dereferenced : SetUp L M
  built : List (Wired L) → OneWay L M → SetUp L M

module _ {L Q R : Type 0} where
  pub configure_clients : Testinfo L → Network L Q R → Network L Q R
  unfolding Server.set_default_verbose Server.set_default_loss
  configure_clients tester n =
      Server.set_default_loss tester.loss (Server.set_default_verbose tester.verbose n)

module _ {L M : Type 0} where
  pub configure_replicas : Testinfo L → OneWay L M → OneWay L M
  configure_replicas tester n = record n {
    default_verbose = tester.verbose;
    default_loss = tester.loss;
  }

  -- The loop of `try_one_seed` that opens the ports between the replicas, from `s` on.
  pub open_peers : ℕ → ℕ → OneWay L M → OneWay L M
  open_peers zero s n = n
  open_peers (suc left) s n = open_peers left (s + 1) (OneWay.port (peer_addr s) n)

  -- The loop over the peers, from `s` on, which keeps what `find_channel` returns.
  pub connect_peers : ℕ → ℕ → Text → OneWay L M → List (Option (Channel L)) × OneWay L M
  connect_peers zero s src n = ([], n)
  connect_peers (suc left) s src n =
      let (ch, n') = OneWay.find_channel src (peer_addr s) n in
      let (chs, n'') = connect_peers left (s + 1) src n' in (ch ∷ chs, n'')

module _ {L Q R M : Type 0} where
  -- `none` is a null pointer that is dereferenced.
  pub new_replica : ℕ → Testinfo L → Network L Q R → OneWay L M → Option (Wired L × OneWay L M)
  unfolding Server.find_port OneWay.find_port connect_peers
  new_replica index tester clients peers = elim (Server.find_port (replica_addr index) clients) [
    | none ↦ none
    | some p ↦ elim (OneWay.find_port (peer_addr index) peers) [
      | none ↦ none
      | some q ↦
          let (chs, peers') = connect_peers tester.nreplicas 0 (peer_addr index) peers in
          some (
            record {
              replica = record {
                index = index;
                nreplicas = tester.nreplicas;
                leader_index = tester.initial_leader;
                world = init;
              };
              from_clients = replica_addr index;
              from_replicas = peer_addr index;
              to_replicas = chs;
            },
            peers',
          )
    ]
  ]

  -- The loop that makes the replicas, from `s` on.
  pub new_instance :
      ℕ → ℕ → Testinfo L → Network L Q R → OneWay L M → Option (List (Wired L) × OneWay L M)
  unfolding new_replica
  new_instance zero s tester clients peers = some ([], peers)
  new_instance (suc left) s tester clients peers = elim (new_replica s tester clients peers) [
    | none ↦ none
    | some (r, peers') ↦ elim (new_instance left (s + 1) tester clients peers') [
      | none ↦ none
      | some (rs, peers'') ↦ some (r ∷ rs, peers'')
    ]
  ]

  -- `try_one_seed` up to the instance, on the networks as they are constructed.
  pub set_up : Testinfo L → Network L Q R → OneWay L M → SetUp L M
  unfolding configure_clients configure_replicas open_peers new_instance client_model
  set_up tester clients peers =
      let clients' = open_replicas tester.nreplicas 0 (configure_clients tester clients) in
      let peers' = open_peers tester.nreplicas 0 (configure_replicas tester peers) in
      elim (client_model tester.nreplicas) [
        | none ↦ thrown
        | some nreplicas ↦ elim (new_instance tester.nreplicas 0 tester clients' peers') [
          | none ↦ null_dereferenced
          | some (rs, peers'') ↦ built rs peers''
        ]
      ]
