-- ===== src/Client/Setup/Tests.antt =====
-- Two clients and three replicas.
use traxos.Base.{ℕ, ◌≡◌, List, [], length, All, arith}
use traxos.OrdMap.{find}
use traxos.Netsim.Server.{Network}
use traxos.Netsim.Traffic.{started}
use traxos.Client.Setup.{ClientInfo, ready, open_replicas, set_nclients}
use traxos.Client.Setup.Directed.{Directed, AllReady, set_nclients-ready}

abbrev empty : Network ℕ ℕ ℕ
empty = (started 0).net

empty-Directed : Directed empty
unfolding find
empty-Directed dst p found = absurd cc

set_nclients-ready_example :
    (cs : List (ClientInfo ℕ)) × (n' : Network ℕ ℕ ℕ) × (set_nclients 3 2 []
        (open_replicas 3 0 empty)
      ≡ ready cs n')
    × (length cs ≡ 2)
    × All (λ (c : ClientInfo ℕ). length c.channels ≡ 3) cs
    × AllReady 0 cs
set_nclients-ready_example = set_nclients-ready 3 2 empty (omega arith) empty-Directed
