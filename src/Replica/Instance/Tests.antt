-- ===== src/Replica/Instance/Tests.antt =====
-- Three replicas.
use traxos.Base.{ℕ, ◌≡◌, false, List, [], length}
use traxos.Netsim.OneWay.{OneWay}
use traxos.Netsim.Server.{Network}
use traxos.Netsim.Traffic.{started}
use traxos.Replica.Instance.{Testinfo, Wired, built, set_up}
use traxos.Replica.Instance.Peers.{Directed}
use traxos.OrdMap.{find}
use traxos.Replica.Instance.Built.{AllBuilt, set_up-AllBuilt}

abbrev three : Testinfo ℕ
three = record { loss = 0; verbose = false; print_db = false; nreplicas = 3; initial_leader = 0 }

abbrev clients : Network ℕ ℕ ℕ
clients = (started 0).net

abbrev peers : OneWay ℕ ℕ
peers = record { ports = []; default_verbose = false; default_loss = 0 }

peers-Directed : Directed peers
unfolding find
peers-Directed = record { addressed = λ addr p found. absurd cc; leads = λ dst p found. absurd cc }

set_up-AllBuilt_example :
    (rs : List (Wired ℕ)) × (peers' : OneWay ℕ ℕ) × (set_up three clients peers ≡ built rs peers')
    × (length rs ≡ 3)
    × AllBuilt three 0 rs
set_up-AllBuilt_example = set_up-AllBuilt three clients peers peers-Directed
