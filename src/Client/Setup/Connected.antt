-- ===== src/Client/Setup/Connected.antt =====
-- The channels that `set_nclients` of pset4/client_model.cc finds.
use traxos.Base.{
  ℕ, zero, suc, ◌+◌, ◌-◌, ◌≤◌, ◌<◌, ◌≡◌, inl, inr, refl, sym, ◌∙◌, ap, Text, false, ◌==◌, Option,
  some, List, [], ◌∷◌, ◌++◌, length, take, All, All-append, length-append, take_of_length-le,
  text_ordered, arith, Option-cases, Bool-cases,
}
use mathlib.Core.Path.{subst}
use mathlib.Core.Option
use traxos.OrdMap.{find, insert_or_assign}
use traxos.Netsim.{Channel}
use traxos.Netsim.OneWay
use traxos.Netsim.OneWay.{Endpoint, new_endpoint}
use traxos.Netsim.Server.{
  Port, Network, port, response_port, set_port, find_port, find_response_port, find_channel,
  new_channel,
}
use traxos.Netsim.Linked.{HasResponsePort, find-set_same}
use traxos.Netsim.Keeps.{Has-insert}
use traxos.Netsim.Found.{same_refl}
use traxos.Client.{max_clients}
use traxos.Client.Setup.{
  client_addr, replica_addr, ClientInfo, ready, open_replicas, quiet_channel, quiet_port, connect,
  add_clients, set_nclients,
}

-- A server is registered at the address.
abbrev pub HasPort : {L Q R : Type 0} → Text → Network L Q R → Type 0
HasPort {L} {Q} addr n = (p : Port L Q) × (find addr n.ports ≡ some p)

-- Servers that are registered stay so.
abbrev Keeps : {L Q R : Type 0} → Network L Q R → Network L Q R → Type 0
Keeps n n' = (addr : Text) → HasPort addr n → HasPort addr n'

module _ {L Q R : Type 0} where
  set_port-Keeps : (dst : Text) (p : Port L Q) (n : Network L Q R) → Keeps n (set_port dst p n)
  unfolding set_port
  set_port-Keeps dst p n addr has = Has-insert addr dst p n.ports has

  set_port-HasPort :
      (dst : Text) (p : Port L Q) (n : Network L Q R) → HasPort dst (set_port dst p n)
  unfolding set_port
  set_port-HasPort dst p n = (p, find-set_same dst dst p n.ports (same_refl dst))

  quiet_channel-Keeps : (src dst : Text) (n : Network L Q R) → Keeps n (quiet_channel src dst n)
  unfolding quiet_channel
  quiet_channel-Keeps src dst n addr has = elim (Option-cases (find dst n.ports)) [
    | inl gone ↦
        let to : quiet_channel src dst n ≡ n = ground arith in subst (HasPort addr) (sym to) has
    | inr (p, found) ↦ elim (Option-cases (find src p.channels)) [
      | inl gone ↦
          let to : quiet_channel src dst n ≡ n = ground arith in subst (HasPort addr) (sym to) has
      | inr (pair, known) ↦
          let p' : Port L Q = record p {
            channels =
                insert_or_assign src (record (pair.0) { verbose = false }, pair.1) p.channels;
          } in
          let to : quiet_channel src dst n ≡ set_port dst p' n = ground arith in
          subst (HasPort addr) (sym to) (set_port-Keeps dst p' n addr has)
    ]
  ]

  quiet_channel-responses :
      (src dst : Text) (n : Network L Q R)
      → (quiet_channel src dst n).response_network ≡ n.response_network
  unfolding quiet_channel set_port
  quiet_channel-responses src dst n = elim (Option-cases (find dst n.ports)) [
    | inl gone ↦ ground arith
    | inr (p, found) ↦ elim (Option-cases (find src p.channels)) [
      | inl gone ↦ ground arith
      | inr (pair, known) ↦ ground arith
    ]
  ]

  abbrev Joined : Text → Text → Network L Q R → Option (Channel L) × Network L Q R → Type 0
  Joined src dst n found =
      (ch : Channel L) × (found.0 ≡ some ch)
      × Keeps n found.1
      × (found.1.response_network ≡ n.response_network)

  -- Between a client and a replica that are both registered there is a channel.
  find_channel-HasPort :
      (src dst : Text) (n : Network L Q R)
      → HasPort dst n
      → HasResponsePort src n
      → Joined src dst n (find_channel src dst n)
  unfolding find_channel find_port set_port
  find_channel-HasPort src dst n (p, found) (client, opened) =
      elim (Option-cases (find src p.channels)) [
        | inr (pair, known) ↦
            let to : find_channel src dst n ≡ (some pair.0, n) = ground arith in
            subst (Joined src dst n) (sym to) (pair.0, refl, (λ addr h. h), refl)
        | inl new ↦
            let pair : Channel L × Channel L =
              (new_channel src dst p.receiver.address n, new_channel dst src src n) in
            let p' : Port L Q = record p { channels = insert_or_assign src pair p.channels } in
            let to : find_channel src dst n ≡ (some pair.0, set_port dst p' n) = ground arith in
            subst (Joined src dst n) (sym to) (pair.0, refl, set_port-Keeps dst p' n, refl)
      ]

  HasResponsePort-same :
      (addr : Text) (n n' : Network L Q R)
      → n'.response_network ≡ n.response_network
      → HasResponsePort addr n
      → HasResponsePort addr n'
  unfolding find_response_port
  HasResponsePort-same addr n n' e (p, found) = (p, ap (λ o. OneWay.find_port addr o) e ∙ found)

  connect-length :
      (left r : ℕ) (client : Text) (n : Network L Q R)
      → ((k : ℕ) → r ≤ k → k < r + left → HasPort (replica_addr k) n)
      → HasResponsePort client n
      → (cs : List (Channel L)) × (n' : Network L Q R) × (connect left r client n ≡ some (cs, n'))
        × (length cs ≡ left)
        × Keeps n n'
  unfolding connect
  connect-length zero r client n servers opened = ([], n, refl, refl, λ addr h. h)
  connect-length (suc left) r client n servers opened =
      let dst = replica_addr r in
      let found = find_channel client dst n in
      let (ch, is, keeps, same_responses) =
        find_channel-HasPort client dst n (servers r (omega arith) (omega arith)) opened in
      let n1 = quiet_channel client dst found.1 in
      let keeps1 : Keeps n n1 =
        λ addr h. quiet_channel-Keeps client dst found.1 addr (keeps addr h) in
      let responses1 : n1.response_network ≡ n.response_network =
        quiet_channel-responses client dst found.1 ∙ same_responses in
      let (cs, n2, eq, len, keeps2) =
        connect-length left (r + 1) client n1
          (λ k low high. keeps1 (replica_addr k) (servers k (omega arith) (omega arith)))
          (HasResponsePort-same client n n1 responses1 opened) in
      let to : connect (suc left) r client n ≡ some (record ch { verbose = false } ∷ cs, n2) =
        ground arith in
      (
        record ch { verbose = false } ∷ cs,
        n2,
        to,
        ap suc len,
        λ addr h. keeps2 addr (keeps1 addr h),
      )

  port-HasPort : (addr : Text) (n : Network L Q R) → HasPort addr (port addr n)
  unfolding port
  port-HasPort addr n = set_port-HasPort addr _ n

  port-Keeps : (addr : Text) (n : Network L Q R) → Keeps n (port addr n)
  unfolding port
  port-Keeps addr n = set_port-Keeps addr _ n

  open_replicas-Keeps : (left s : ℕ) (n : Network L Q R) → Keeps n (open_replicas left s n)
  unfolding open_replicas
  open_replicas-Keeps zero s n addr has = has
  open_replicas-Keeps (suc left) s n addr has =
      open_replicas-Keeps left (s + 1) (port (replica_addr s) n) addr
        (port-Keeps (replica_addr s) n addr has)

  pub open_replicas-HasPort :
      (left s k : ℕ) (n : Network L Q R)
      → s ≤ k
      → k < s + left
      → HasPort (replica_addr k) (open_replicas left s n)
  unfolding open_replicas
  open_replicas-HasPort zero s k n low high = absurd (omega arith)
  open_replicas-HasPort (suc left) s k n low high = elim (Bool-cases (k == s)) [
    | inl here ↦
        let eq : s ≡ k = ground arith in
        open_replicas-Keeps left (s + 1) (port (replica_addr s) n) (replica_addr k) (
          subst (λ j. HasPort (replica_addr j) (port (replica_addr s) n)) eq
            (port-HasPort (replica_addr s) n))
    | inr later ↦
        open_replicas-HasPort left (s + 1) k (port (replica_addr s) n) (ground arith) (omega arith)
  ]

  quiet_port-found :
      (addr : Text) (m : Network L Q R) (q : Endpoint L R)
      → find addr m.response_network.ports ≡ some q
      → HasResponsePort addr (quiet_port addr m) × ((quiet_port addr m).ports ≡ m.ports)
  unfolding quiet_port find_response_port OneWay.find_port
  quiet_port-found addr m q found =
      let ports = m.response_network.ports in
      let q' : Endpoint L R = record q { receiver = record (q.receiver) { verbose = false } } in
      let m' : Network L Q R = record m {
        response_network = record (m.response_network) { ports = insert_or_assign addr q' ports };
      } in
      let to : quiet_port addr m ≡ m' = ground arith in
      subst (λ net. HasResponsePort addr net × (net.ports ≡ m.ports)) (sym to)
        ((q', find-set_same addr addr q' ports (same_refl addr)), refl)

  -- A client's port, as it is opened.
  pub opened_port :
      (addr : Text) (n : Network L Q R)
      → HasResponsePort addr (quiet_port addr (response_port addr n))
        × ((quiet_port addr (response_port addr n)).ports ≡ n.ports)
  unfolding response_port OneWay.port
  opened_port addr n =
      let o = n.response_network in
      let p : Endpoint L R = Option.get_or (find addr o.ports) (new_endpoint addr) in
      let q : Endpoint L R = record p {
        receiver = record (p.receiver) { verbose = o.default_verbose };
      } in
      let here : find addr (insert_or_assign addr q o.ports) ≡ some q =
        find-set_same addr addr q o.ports (same_refl addr) in
      quiet_port-found addr (response_port addr n) q here

  add_clients-length :
      (nreplicas left cid : ℕ) (clients : List (ClientInfo L)) (n : Network L Q R)
      → ((k : ℕ) → k < nreplicas → HasPort (replica_addr k) n)
      → All (λ (c : ClientInfo L). length c.channels ≡ nreplicas) clients
      → (cs : List (ClientInfo L)) × (n' : Network L Q R) × (add_clients nreplicas left cid clients
            n
          ≡ ready cs n')
        × (length cs ≡ length clients + left)
        × All (λ (c : ClientInfo L). length c.channels ≡ nreplicas) cs
  unfolding add_clients
  add_clients-length nreplicas zero cid clients n servers full =
      (clients, n, refl, omega arith, full)
  add_clients-length nreplicas (suc left) cid clients n servers full =
      let addr = client_addr cid in
      let n1 = quiet_port addr (response_port addr n) in
      let (opened, same) = opened_port addr n in
      let (channels, n2, eq, len, keeps) =
        connect-length nreplicas 0 addr n1
          (λ k low high.
            let (p, found) = servers k (omega arith) in
            (p, ap (λ m. find (replica_addr k) m) same ∙ found))
          opened in
      let servers2 : (k : ℕ) → k < nreplicas → HasPort (replica_addr k) n2 = λ k lt.
        let (p, found) = servers k lt in
        keeps (replica_addr k) (p, ap (λ m. find (replica_addr k) m) same ∙ found) in
      let info : ClientInfo L = record { channels = channels; response_port = addr } in
      let (cs, n3, eq', len', full') =
        add_clients-length nreplicas left (cid + 1) (clients ++ (info ∷ [])) n2 servers2 (
          All-append (λ (c : ClientInfo L). length c.channels ≡ nreplicas) clients (info ∷ []) full
            (len, tt)) in
      let to : add_clients nreplicas (suc left) cid clients n
          ≡ add_clients nreplicas left (cid + 1) (clients ++ (info ∷ [])) n2 =
        ground arith in
      (cs, n3, to ∙ eq', omega (arith, length-append clients (info ∷ [])), full')

  -- Every pointer is to a channel, and there is one for every replica.
  pub set_nclients-length :
      (nreplicas count : ℕ) (n : Network L Q R)
      → count ≤ max_clients
      → (cs : List (ClientInfo L)) × (n' : Network L Q R) × (set_nclients nreplicas count []
            (open_replicas nreplicas 0 n)
          ≡ ready cs n')
        × (add_clients nreplicas (count - 0) 0 [] (open_replicas nreplicas 0 n) ≡ ready cs n')
        × (length cs ≡ count)
        × All (λ (c : ClientInfo L). length c.channels ≡ nreplicas) cs
  unfolding set_nclients
  set_nclients-length nreplicas count n few =
      let (cs, n', eq, len, full) =
        add_clients-length nreplicas (count - 0) 0 [] (open_replicas nreplicas 0 n)
          (λ k lt. open_replicas-HasPort nreplicas 0 k n (omega arith) (omega arith)) tt in
      let whole : take count cs ≡ cs = take_of_length-le count cs (omega arith) in
      let to : set_nclients nreplicas count [] (open_replicas nreplicas 0 n)
          ≡ ready (take count cs) n' =
        ground arith in
      (cs, n', to ∙ ap (λ xs. ready xs n') whole, eq, omega arith, full)
