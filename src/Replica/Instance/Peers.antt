-- ===== src/Replica/Instance/Peers.antt =====
-- The ports and the channels between the replicas, as the constructor in pset4/pt-paxos.cc finds them.
use traxos.Base.{
  ℕ, zero, suc, ◌+◌, ◌≤◌, ◌<◌, ◌≡◌, inl, inr, refl, sym, ◌∙◌, ap, Text, ◌==◌, Option, none, some,
  List, [], ◌∷◌, length, text_ordered, arith, Option-cases, Bool-cases,
}
use mathlib.Core.Path.{subst}
use mathlib.Core.Option
use traxos.OrdMap.{find, insert_or_assign}
use traxos.Netsim.{Channel}
use traxos.Netsim.OneWay
use traxos.Netsim.OneWay.{OneWay, Endpoint, new_endpoint}
use traxos.Netsim.Linked.{find-set, find-set_same}
use traxos.Client.Setup.Directed.{Leads}
use traxos.Netsim.Keeps.{Has-insert}
use traxos.Netsim.Found.{same_refl}
use traxos.Replica.Instance.{peer_addr, open_peers, connect_peers}

-- A peer is registered at the address.
abbrev pub HasPeer : {L M : Type 0} → Text → OneWay L M → Type 0
HasPeer {L} {M} addr n = (p : Endpoint L M) × (find addr n.ports ≡ some p)

abbrev pub Keeps : {L M : Type 0} → OneWay L M → OneWay L M → Type 0
Keeps n n' = (addr : Text) → HasPeer addr n → HasPeer addr n'

-- Every port has the address it is registered at, and so have both ends of its channels.
pub record Directed {L M : Type 0} (n : OneWay L M) : Type 0 where
  pub addressed :
      (addr : Text) (p : Endpoint L M) → find addr n.ports ≡ some p → p.receiver.address ≡ addr
  pub leads :
      (dst : Text) (p : Endpoint L M)
      → find dst n.ports ≡ some p
      → (src : Text) (ch : Channel L) → find src p.channels ≡ some ch
      → Leads src dst ch

-- Every pointer is to a channel from `src` to its replica, from `s` on.
abbrev pub AllReach : {L : Type 0} → Text → ℕ → List (Option (Channel L)) → Type 0
AllReach src s [] = Unit
AllReach {L} src s (ch ∷ chs) =
    (c : Channel L) × (ch ≡ some c) × Leads src (peer_addr s) c × AllReach src (s + 1) chs

module _ {L M : Type 0} where
  -- A write of one port.
  set-Directed :
      (dst : Text) (p : Endpoint L M) (n n' : OneWay L M)
      → n'.ports ≡ insert_or_assign dst p n.ports
      → Directed n
      → p.receiver.address ≡ dst
      → ((src : Text) (ch : Channel L) → find src p.channels ≡ some ch → Leads src dst ch)
      → Directed n'
  set-Directed dst p n n' e d here all = record {
    addressed = λ addr q found.
        elim (find-set addr dst p q n.ports (ap (find addr) (sym e) ∙ found)) [
          | inl (same, eq) ↦
              subst (λ (x : Endpoint L M). x.receiver.address ≡ addr) eq (here ∙ sym same)
          | inr before ↦ d.addressed addr q before
        ];
    leads = λ addr q found. elim (find-set addr dst p q n.ports (ap (find addr) (sym e) ∙ found)) [
      | inl (same, eq) ↦ λ src ch known.
          subst (λ a. Leads src a ch) (sym same)
            (all src ch (ap (λ (x : Endpoint L M). find src x.channels) eq ∙ known))
      | inr before ↦ d.leads addr q before
    ];
  }

  abbrev Placed : Text → Endpoint L M → Type 0
  Placed addr p =
      (p.receiver.address ≡ addr)
      × ((src : Text) (ch : Channel L) → find src p.channels ≡ some ch → Leads src addr ch)

  new_endpoint-Placed :
      (addr : Text) (o : Option (Endpoint L M))
      → ((p : Endpoint L M) → o ≡ some p → Placed addr p)
      → Placed addr (Option.get_or o (new_endpoint addr))
  unfolding find
  new_endpoint-Placed addr none known = (refl, λ src ch e. absurd cc)
  new_endpoint-Placed addr (some p) known = known p refl

  port-Directed : (addr : Text) (n : OneWay L M) → Directed n → Directed (OneWay.port addr n)
  unfolding OneWay.port
  port-Directed addr n d =
      let (here, all) =
        new_endpoint-Placed addr (find addr n.ports)
          (λ p found. (d.addressed addr p found, d.leads addr p found)) in
      set-Directed addr _ n (OneWay.port addr n) refl d here all

  pub open_peers-Directed :
      (left s : ℕ) (n : OneWay L M) → Directed n → Directed (open_peers left s n)
  unfolding open_peers
  open_peers-Directed zero s n d = d
  open_peers-Directed (suc left) s n d =
      open_peers-Directed left (s + 1) (OneWay.port (peer_addr s) n)
        (port-Directed (peer_addr s) n d)

  abbrev Joined : Text → Text → OneWay L M → Option (Channel L) × OneWay L M → Type 0
  Joined src dst n found =
      ((c : Channel L) × (found.0 ≡ some c) × Leads src dst c) × Keeps n found.1 × Directed found.1

  find_channel-HasPeer :
      (src dst : Text) (n : OneWay L M)
      → HasPeer src n
      → HasPeer dst n
      → Directed n
      → Joined src dst n (OneWay.find_channel src dst n)
  unfolding OneWay.find_channel OneWay.find_channel_from OneWay.find_port
  find_channel-HasPeer src dst n (q, from) (p, to) d = elim (Option-cases (find src p.channels)) [
    | inr (c, known) ↦
        let is : OneWay.find_channel src dst n ≡ (some c, n) = ground arith in
        subst (Joined src dst n) (sym is)
          ((c, refl, d.leads dst p to src c known), (λ addr h. h), d)
    | inl new ↦
        let c : Channel L = record {
          source_address = q.receiver.address;
          destination = dst;
          destination_address = p.receiver.address;
          verbose = n.default_verbose;
          loss = n.default_loss;
        } in
        let p' : Endpoint L M = record p { channels = insert_or_assign src c p.channels } in
        let is : OneWay.find_channel src dst n
            ≡ (some c, record n { ports = insert_or_assign dst p' n.ports }) =
          ground arith in
        let leads : Leads src dst c = (d.addressed src q from, refl) in
        let all : (other : Text) (ch : Channel L)
            → find other p'.channels ≡ some ch
            → Leads other dst ch =
          λ other ch found. elim (find-set other src c ch p.channels found) [
            | inl (same, eq) ↦
                subst (Leads other dst) eq (subst (λ a. Leads a dst c) (sym same) leads)
            | inr before ↦ d.leads dst p to other ch before
          ] in
        subst (Joined src dst n) (sym is) (
          (c, refl, leads),
          (λ addr has. Has-insert addr dst p' n.ports has),
          set-Directed dst p' n (record n { ports = insert_or_assign dst p' n.ports }) refl d
              (d.addressed dst p to) all,
        )
  ]

  port-HasPeer : (addr : Text) (n : OneWay L M) → HasPeer addr (OneWay.port addr n)
  unfolding OneWay.port
  port-HasPeer addr n = (_, find-set_same addr addr _ n.ports (same_refl addr))

  port-Keeps : (addr : Text) (n : OneWay L M) → Keeps n (OneWay.port addr n)
  unfolding OneWay.port
  port-Keeps addr n other has = Has-insert other addr _ n.ports has

  open_peers-Keeps : (left s : ℕ) (n : OneWay L M) → Keeps n (open_peers left s n)
  unfolding open_peers
  open_peers-Keeps zero s n addr has = has
  open_peers-Keeps (suc left) s n addr has =
      open_peers-Keeps left (s + 1) (OneWay.port (peer_addr s) n) addr
        (port-Keeps (peer_addr s) n addr has)

  pub open_peers-HasPeer :
      (left s k : ℕ) (n : OneWay L M)
      → s ≤ k
      → k < s + left
      → HasPeer (peer_addr k) (open_peers left s n)
  unfolding open_peers
  open_peers-HasPeer zero s k n low high = absurd (omega arith)
  open_peers-HasPeer (suc left) s k n low high = elim (Bool-cases (k == s)) [
    | inl here ↦
        let eq : s ≡ k = ground arith in
        open_peers-Keeps left (s + 1) (OneWay.port (peer_addr s) n) (peer_addr k) (
          subst (λ j. HasPeer (peer_addr j) (OneWay.port (peer_addr s) n)) eq
            (port-HasPeer (peer_addr s) n))
    | inr later ↦
        open_peers-HasPeer left (s + 1) k (OneWay.port (peer_addr s) n) (ground arith) (omega arith)
  ]

  pub connect_peers-AllReach :
      (left s : ℕ) (src : Text) (n : OneWay L M)
      → Directed n
      → HasPeer src n
      → ((k : ℕ) → s ≤ k → k < s + left → HasPeer (peer_addr k) n)
      → AllReach src s (connect_peers left s src n).0
        × (length (connect_peers left s src n).0 ≡ left)
        × Keeps n (connect_peers left s src n).1
        × Directed (connect_peers left s src n).1
  unfolding connect_peers
  connect_peers-AllReach zero s src n d from peers = (tt, refl, (λ addr h. h), d)
  connect_peers-AllReach (suc left) s src n d from peers =
      let (ch, keeps, d1) =
        find_channel-HasPeer src (peer_addr s) n from (peers s (omega arith) (omega arith)) d in
      let (all, len, keeps', d2) =
        connect_peers-AllReach left (s + 1) src (OneWay.find_channel src (peer_addr s) n).1 d1
          (keeps src from)
          (λ k low high. keeps (peer_addr k) (peers k (omega arith) (omega arith))) in
      ((ch.0, ch.1, ch.2, all), ap suc len, (λ addr h. keeps' addr (keeps addr h)), d2)
