-- ===== src/Netsim/Linked.antt =====
-- The reply channels of the messages to a server of pset4/netsim.hh, as an invariant.
use traxos.Base.{
  ◌≡◌, ◌⊎◌, inl, inr, sym, ◌∙◌, ap, Text, true, false, some, List, All, All-mono, if◌then◌else◌,
  text_ordered, text_cmp_iff, arith, Bool-cases,
}
use mathlib.Core.Path.{subst}
use traxos.OrdMap.{find, insert_or_assign, same}
use traxos.OrdMap.Laws.{find-insert_or_assign}
use traxos.Netsim.{Channel}
use traxos.Netsim.OneWay.{Endpoint}
use traxos.Netsim.Server.{Port, Network, set_port, port, find_response_port}
use traxos.Netsim.Traffic.{Traffic}

-- Text keys.
pub same_eq : (j k : Text) → same j k ≡ true → j ≡ k
same_eq j k e = ground (arith, text_cmp_iff j k)

pub find-set_other {ℓ} :
    {V : Type ℓ} (j k : Text) (v : V) (m : List (Text × V))
    → same j k ≡ false
    → find j (insert_or_assign k v m) ≡ find j m
find-set_other j k v m e =
    find-insert_or_assign j k v m ∙ ap (λ b. if b then some v else find j m) e

pub find-set_same {ℓ} :
    {V : Type ℓ} (j k : Text) (v : V) (m : List (Text × V))
    → same j k ≡ true
    → find j (insert_or_assign k v m) ≡ some v
find-set_same j k v m e = find-insert_or_assign j k v m ∙ ap (λ b. if b then some v else find j m) e

pub find-set {ℓ} :
    {V : Type ℓ} (j k : Text) (v x : V) (m : List (Text × V))
    → find j (insert_or_assign k v m) ≡ some x
    → ((j ≡ k) × (v ≡ x)) ⊎ (find j m ≡ some x)
find-set j k v x m e = elim (Bool-cases (same j k)) [
  | inl eq ↦
      let found : some v ≡ some x = sym (find-set_same j k v m eq) ∙ e in inl (same_eq j k eq, cc)
  | inr other ↦ inr (sym (find-set_other j k v m other) ∙ e)
]

-- The channels between a client and a server.
abbrev pub Has : {L Q : Type 0} → Text → Port L Q → Type 0
Has {L} src p = (pair : Channel L × Channel L) × (find src p.channels ≡ some pair)

-- The channel from a client to a server and the one back.
pub record Pair {L : Type 0} (dst src : Text) (pair : Channel L × Channel L) : Type 0 where
  pub source : pair.0.source_address ≡ src
  pub destination : pair.0.destination ≡ dst
  pub reply_source : pair.1.source_address ≡ dst
  pub reply_destination : pair.1.destination ≡ src

abbrev pub HasResponsePort : {L Q R : Type 0} → Text → Network L Q R → Type 0
HasResponsePort {L} {Q} {R} src n = (p : Endpoint L R) × (find_response_port src n ≡ some p)

-- The server `p`, registered at `dst`.
pub record PortInv {L Q R : Type 0} (dst : Text) (p : Port L Q) (n : Network L Q R) : Type 0 where
  pub queued : All (λ (q : Q × Text). Has q.1 p) p.receiver.messageq
  pub paired :
      (src : Text) (pair : Channel L × Channel L)
      → find src p.channels ≡ some pair
      → Pair dst src pair × HasResponsePort src n

-- A request on its way.
abbrev pub Comes : {L Q R : Type 0} → Network L Q R → Channel L × Q → Type 0
Comes {L} {Q} n f =
    (p : Port L Q) × (find f.0.destination n.ports ≡ some p) × Has f.0.source_address p

pub record Inv {L Q R : Type 0} (s : Traffic L Q R) : Type 0 where
  pub ports : (dst : Text) (p : Port L Q) → find dst s.net.ports ≡ some p → PortInv dst p s.net
  pub requests : All (Comes s.net) s.requests

-- The response ports only grow.
abbrev pub Grows : {L Q R : Type 0} → Network L Q R → Network L Q R → Type 0
Grows n n' = (src : Text) → HasResponsePort src n → HasResponsePort src n'

pub PortInv-Grows :
    {L Q R : Type 0} (dst : Text) (p : Port L Q) (n n' : Network L Q R)
    → Grows n n'
    → PortInv dst p n
    → PortInv dst p n'
PortInv-Grows dst p n n' grows inv = record {
  queued = inv.queued;
  paired =
      λ src pair found. let (linked, port) = inv.paired src pair found in (linked, grows src port);
}

module _ {L Q R : Type 0} (s : Traffic L Q R) (inv : Inv s) where
  -- A server is replaced by one that has the same channels or more.
  pub set_port-Inv :
      (dst : Text) (p' : Port L Q)
      → ((p : Port L Q) → find dst s.net.ports ≡ some p → (src : Text) → Has src p → Has src p')
      → PortInv dst p' s.net
      → Inv (record s { net = set_port dst p' s.net })
  unfolding set_port find_response_port
  set_port-Inv dst p' grow good = record {
    ports = λ d p found. elim (find-set d dst p' p s.net.ports found) [
      | inl (eq, own) ↦
          subst (λ q. PortInv d q (set_port dst p' s.net)) own
            (subst (λ k. PortInv k p' (set_port dst p' s.net)) (sym eq)
              (PortInv-Grows dst p' s.net (set_port dst p' s.net) (λ src h. h) good))
      | inr old ↦ PortInv-Grows d p s.net (set_port dst p' s.net) (λ src h. h) (inv.ports d p old)
    ];
    requests =
        All-mono (Comes s.net) (Comes (set_port dst p' s.net))
          (λ f (p, found, has). elim (Bool-cases (same f.0.destination dst)) [
            | inl eq ↦
                let there = same_eq f.0.destination dst eq in
                (
                  p',
                  find-set_same f.0.destination dst p' s.net.ports eq,
                  grow p (subst (λ k. find k s.net.ports ≡ some p) there found) f.0.source_address
                      has,
                )
            | inr other ↦ (p, find-set_other f.0.destination dst p' s.net.ports other ∙ found, has)
          ])
          s.requests inv.requests;
  }

  -- A change beside the servers, where no response port is taken out.
  pub beside-Inv :
      (n' : Network L Q R) → n'.ports ≡ s.net.ports → Grows s.net n' → Inv (record s { net = n' })
  beside-Inv n' e grow = record {
    ports = λ dst p found.
        PortInv-Grows dst p s.net n' grow (inv.ports dst p (ap (λ m. find dst m) (sym e) ∙ found));
    requests =
        All-mono (Comes s.net) (Comes n')
          (λ f (p, found, has). (p, ap (λ m. find f.0.destination m) e ∙ found, has)) s.requests
          inv.requests;
  }
