-- ===== src/Replica/Instance/Built.antt =====
-- What the setup of the replicas gives.
use traxos.Base.{
  ℕ, zero, suc, ◌+◌, ◌≤◌, ◌<◌, ◌≡◌, refl, ◌∙◌, ap, some, List, [], ◌∷◌, length, text_ordered, arith,
}
use traxos.Pancy.Db.{init}
use traxos.Netsim.OneWay
use traxos.Netsim.OneWay.{OneWay, Endpoint}
use traxos.Netsim.Server
use traxos.Netsim.Server.{Network}
use traxos.Client.Setup.{replica_addr, client_model, open_replicas}
use traxos.Client.Setup.Connected.{HasPort, open_replicas-HasPort}
use traxos.Replica.Instance.Peers.{
  HasPeer, Keeps, Directed, AllReach, open_peers-Directed, open_peers-HasPeer,
  connect_peers-AllReach,
}
use traxos.Replica.Instance.{
  SetUp, thrown, built, Testinfo, Wired, peer_addr, open_peers, connect_peers, new_replica,
  new_instance, set_up, configure_clients, configure_replicas,
}

-- A replica of the test, with a channel for each one.
pub record Built {L : Type 0} (tester : Testinfo L) (index : ℕ) (r : Wired L) : Type 0 where
  pub index_of : r.replica.index ≡ index
  pub leader : r.replica.leader_index ≡ tester.initial_leader
  pub all : AllReach (peer_addr index) 0 r.to_replicas
  pub count : length r.to_replicas ≡ tester.nreplicas

-- The replicas from the index `s` on.
abbrev pub AllBuilt : {L : Type 0} → Testinfo L → ℕ → List (Wired L) → Type 0
AllBuilt tester s [] = Unit
AllBuilt tester s (r ∷ rs) = Built tester s r × AllBuilt tester (s + 1) rs

module _ {L Q R M : Type 0} (tester : Testinfo L) (clients : Network L Q R)
    (opened : (k : ℕ) → k < tester.nreplicas → HasPort (replica_addr k) clients) where
  new_replica-Built :
      (index : ℕ) (peers : OneWay L M)
      → index < tester.nreplicas
      → Directed peers
      → ((k : ℕ) → k < tester.nreplicas → HasPeer (peer_addr k) peers)
      → (r : Wired L) × (peers' : OneWay L M) × (new_replica index tester clients peers
          ≡ some (r, peers'))
        × Built tester index r
        × Keeps peers peers'
        × Directed peers'
  unfolding new_replica Server.find_port OneWay.find_port
  new_replica-Built index peers lt d registered =
      let (p, found) = opened index lt in
      let (q, known) = registered index lt in
      let (all, count, keeps, d') =
        connect_peers-AllReach tester.nreplicas 0 (peer_addr index) peers d (registered index lt)
          (λ k low high. registered k (omega arith)) in
      let out = connect_peers tester.nreplicas 0 (peer_addr index) peers in
      let r : Wired L = record {
        replica = record {
          index = index;
          nreplicas = tester.nreplicas;
          leader_index = tester.initial_leader;
          world = init;
        };
        from_clients = replica_addr index;
        from_replicas = peer_addr index;
        to_replicas = out.0;
      } in
      (
        r,
        out.1,
        ground arith,
        record { index_of = refl; leader = refl; all = all; count = count },
        keeps,
        d',
      )

  new_instance-AllBuilt :
      (left s : ℕ) (peers : OneWay L M)
      → s + left ≤ tester.nreplicas
      → Directed peers
      → ((k : ℕ) → k < tester.nreplicas → HasPeer (peer_addr k) peers)
      → (rs : List (Wired L)) × (peers' : OneWay L M) × (new_instance left s tester clients peers
          ≡ some (rs, peers'))
        × (length rs ≡ left)
        × AllBuilt tester s rs
  unfolding new_instance
  new_instance-AllBuilt zero s peers room d registered = ([], peers, refl, refl, tt)
  new_instance-AllBuilt (suc left) s peers room d registered =
      let (r, peers', one, made, keeps, d') =
        new_replica-Built s peers (omega arith) d registered in
      let (rs, peers'', more, len, all) =
        new_instance-AllBuilt left (s + 1) peers' (omega arith) d'
          (λ k lt. keeps (peer_addr k) (registered k lt)) in
      (r ∷ rs, peers'', ground (arith, one, more), ap suc len, (made, all))

-- The setup of a test with so many replicas.
abbrev pub SetsUp : {L M : Type 0} → Testinfo L → SetUp L M → ℕ → Type 0
SetsUp tester out zero = out ≡ thrown
SetsUp {L} {M} tester out (suc k) =
    (rs : List (Wired L)) × (peers' : OneWay L M) × (out ≡ built rs peers')
    × (length rs ≡ suc k)
    × AllBuilt tester 0 rs

configure_replicas-Directed :
    {L M : Type 0} (tester : Testinfo L) (n : OneWay L M)
    → Directed n
    → Directed (configure_replicas tester n)
unfolding configure_replicas
configure_replicas-Directed tester n d = record { addressed = d.addressed; leads = d.leads }

set_up_cases :
    {L Q R M : Type 0} (tester : Testinfo L) (clients : Network L Q R) (peers : OneWay L M) (k : ℕ)
    → tester.nreplicas ≡ k
    → (rs : List (Wired L)) × (peers' : OneWay L M) × (new_instance tester.nreplicas 0 tester
          (open_replicas tester.nreplicas 0 (configure_clients tester clients))
          (open_peers tester.nreplicas 0 (configure_replicas tester peers))
        ≡ some (rs, peers'))
      × (length rs ≡ tester.nreplicas)
      × AllBuilt tester 0 rs
    → SetsUp tester (set_up tester clients peers) k
unfolding set_up client_model
set_up_cases tester clients peers zero none_asked made = ground (arith, none_asked)
set_up_cases tester clients peers (suc k) size (rs, peers', is, len, all) =
    (rs, peers', ground (arith, size, is), len ∙ size, all)

-- Take any network for the clients, and one between the replicas where each port and each channel
-- has the addresses that it is registered for, as a new one has. The setup of a test with no
-- replicas throws; that of any other test reads no null pointer, and gives as many replicas as the
-- test has, each with its index `s`, the initial leader, and one channel for every replica, in the
-- order of the replicas: the channel for the replica `t` leads from `R{s}/r` to `R{t}/r`.
pub set_up-AllBuilt :
    {L Q R M : Type 0} (tester : Testinfo L) (clients : Network L Q R) (peers : OneWay L M)
    → Directed peers
    → SetsUp tester (set_up tester clients peers) tester.nreplicas
set_up-AllBuilt tester clients peers d =
    let clients' = open_replicas tester.nreplicas 0 (configure_clients tester clients) in
    let peers' = open_peers tester.nreplicas 0 (configure_replicas tester peers) in
    let made =
      new_instance-AllBuilt tester clients'
        (λ k lt.
          open_replicas-HasPort tester.nreplicas 0 k (configure_clients tester clients)
            (omega arith) (omega arith))
        tester.nreplicas 0 peers' (omega arith)
        (open_peers-Directed tester.nreplicas 0 (configure_replicas tester peers)
          (configure_replicas-Directed tester peers d))
        (λ k lt.
          open_peers-HasPeer tester.nreplicas 0 k (configure_replicas tester peers) (omega arith)
            (omega arith)) in
    set_up_cases tester clients peers tester.nreplicas refl made
