-- ===== src/Client/Setup/Directed.antt =====
-- Where the channels lead that `set_nclients` of pset4/client_model.cc finds.
use traxos.Base.{
  All, length-append, ℕ, zero, suc, ◌+◌, ◌-◌, ◌≤◌, ◌≡◌, inl, inr, refl, sym, ◌∙◌, ap, Text, false,
  Option, none, some, List, [], ◌∷◌, ◌++◌, length, text_ordered, arith, Option-cases,
}
use mathlib.Core.Path.{subst}
use mathlib.Core.Option
use traxos.OrdMap.{find, insert_or_assign}
use traxos.Netsim.{Channel}
use traxos.Netsim.Server.{
  Port, Network, port, response_port, set_port, find_port, find_response_port, find_channel,
  new_channel, new_port,
}
use traxos.Netsim.Linked.{find-set}
use traxos.Netsim.Found.{first_some}
use traxos.Client.{max_clients}
use traxos.Client.Setup.Connected.{opened_port, set_nclients-length}
use traxos.Client.Setup.{
  client_addr, replica_addr, ClientInfo, ready, open_replicas, quiet_channel, quiet_port, connect,
  add_clients, set_nclients,
}

-- The channel leads from `src` to `dst`.
abbrev pub Leads : {L : Type 0} → Text → Text → Channel L → Type 0
Leads src dst ch = (ch.source_address ≡ src) × (ch.destination ≡ dst)

-- The channels to the server `dst`.
abbrev AllLead : {L Q : Type 0} → Text → Port L Q → Type 0
AllLead {L} dst p =
    (src : Text) (pair : Channel L × Channel L)
    → find src p.channels ≡ some pair
    → Leads src dst pair.0

-- Every registered channel leads from the client to the server it is registered for.
abbrev pub Directed : {L Q R : Type 0} → Network L Q R → Type 0
Directed {L} {Q} n = (dst : Text) (p : Port L Q) → find dst n.ports ≡ some p → AllLead dst p

insert-AllLead :
    {L Q : Type 0} (src dst : Text) (pair : Channel L × Channel L) (p : Port L Q)
    → AllLead dst p
    → Leads src dst pair.0
    → AllLead dst (record p { channels = insert_or_assign src pair p.channels })
insert-AllLead {L} src dst pair p all leads other x found =
    elim (find-set other src pair x p.channels found) [
      | inl (here, same) ↦
          subst (λ (y : Channel L × Channel L). Leads other dst y.0) same
            (subst (λ a. Leads a dst pair.0) (sym here) leads)
      | inr before ↦ all other x before
    ]

new_port-AllLead :
    {L Q : Type 0} (addr : Text) (o : Option (Port L Q))
    → ((p : Port L Q) → o ≡ some p → AllLead addr p)
    → AllLead addr (Option.get_or o (new_port addr))
unfolding find
new_port-AllLead addr none known = λ src pair e. absurd cc
new_port-AllLead addr (some p) known = known p refl

module _ {L Q R : Type 0} where
  set_port-Directed :
      (dst : Text) (p : Port L Q) (n : Network L Q R)
      → Directed n
      → AllLead dst p
      → Directed (set_port dst p n)
  unfolding set_port
  set_port-Directed dst p n d all addr q found = elim (find-set addr dst p q n.ports found) [
    | inl (here, same) ↦
        subst (λ (x : Port L Q). AllLead addr x) same (subst (λ a. AllLead a p) (sym here) all)
    | inr before ↦ d addr q before
  ]

  port-Directed : (addr : Text) (n : Network L Q R) → Directed n → Directed (port addr n)
  unfolding port
  port-Directed addr n d =
      set_port-Directed addr _ n d (new_port-AllLead addr (find addr n.ports) (d addr))

  quiet_channel-Directed :
      (src dst : Text) (n : Network L Q R) → Directed n → Directed (quiet_channel src dst n)
  unfolding quiet_channel
  quiet_channel-Directed src dst n d = elim (Option-cases (find dst n.ports)) [
    | inl gone ↦ let to : quiet_channel src dst n ≡ n = ground arith in subst Directed (sym to) d
    | inr (p, found) ↦ elim (Option-cases (find src p.channels)) [
      | inl gone ↦ let to : quiet_channel src dst n ≡ n = ground arith in subst Directed (sym to) d
      | inr (pair, known) ↦
          let quiet : Channel L × Channel L = (record (pair.0) { verbose = false }, pair.1) in
          let p' : Port L Q = record p { channels = insert_or_assign src quiet p.channels } in
          let to : quiet_channel src dst n ≡ set_port dst p' n = ground arith in
          subst Directed (sym to) (
            set_port-Directed dst p' n d
              (insert-AllLead src dst quiet p (d dst p found) (d dst p found src pair known)))
    ]
  ]

  abbrev Found : Text → Text → Option (Channel L) × Network L Q R → Type 0
  Found src dst found = ((ch : Channel L) → found.0 ≡ some ch → Leads src dst ch) × Directed found.1

  find_channel-Directed :
      (src dst : Text) (n : Network L Q R) → Directed n → Found src dst (find_channel src dst n)
  unfolding find_channel find_port
  find_channel-Directed src dst n d = elim (Option-cases (find dst n.ports)) [
    | inl gone ↦
        let to : find_channel src dst n ≡ (none, n) = ground arith in
        subst (Found src dst) (sym to) ((λ ch e. absurd cc), d)
    | inr (p, found) ↦ elim (Option-cases (find src p.channels)) [
      | inr (pair, known) ↦
          let to : find_channel src dst n ≡ (some pair.0, n) = ground arith in
          subst (Found src dst) (sym to)
            ((λ ch e. subst (Leads src dst) (first_some _ _ e) (d dst p found src pair known)), d)
      | inl new ↦ elim (Option-cases (find_response_port src n)) [
        | inl mute ↦
            let to : find_channel src dst n ≡ (none, n) = ground arith in
            subst (Found src dst) (sym to) ((λ ch e. absurd cc), d)
        | inr (client, opened) ↦
            let pair : Channel L × Channel L =
              (new_channel src dst p.receiver.address n, new_channel dst src src n) in
            let p' : Port L Q = record p { channels = insert_or_assign src pair p.channels } in
            let to : find_channel src dst n ≡ (some pair.0, set_port dst p' n) = ground arith in
            let leads : Leads src dst pair.0 = (refl, refl) in
            subst (Found src dst) (sym to) (
              (λ ch e. subst (Leads src dst) (first_some _ _ e) leads),
              set_port-Directed dst p' n d (insert-AllLead src dst pair p (d dst p found) leads),
            )
      ]
    ]
  ]

  open_replicas-Directed :
      (left s : ℕ) (n : Network L Q R) → Directed n → Directed (open_replicas left s n)
  unfolding open_replicas
  open_replicas-Directed zero s n d = d
  open_replicas-Directed (suc left) s n d =
      open_replicas-Directed left (s + 1) (port (replica_addr s) n)
        (port-Directed (replica_addr s) n d)

-- The channels of a client, to the replicas from `r` on.
abbrev pub AllReach : {L : Type 0} → Text → ℕ → List (Channel L) → Type 0
AllReach src r [] = Unit
AllReach src r (ch ∷ chs) = Leads src (replica_addr r) ch × AllReach src (r + 1) chs

-- The clients from `cid` on.
abbrev pub AllReady : {L : Type 0} → ℕ → List (ClientInfo L) → Type 0
AllReady cid [] = Unit
AllReady cid (c ∷ cs) =
    (c.response_port ≡ client_addr cid)
    × AllReach (client_addr cid) 0 c.channels
    × AllReady (cid + 1) cs

next_place : (a b : ℕ) → a + suc b ≡ (a + 1) + b
next_place a b = omega arith

AllReady-append :
    {L : Type 0} (cid : ℕ) (cs ds : List (ClientInfo L))
    → AllReady cid cs
    → AllReady (cid + length cs) ds
    → AllReady cid (cs ++ ds)
AllReady-append {L} cid [] ds a b =
    let none_before : List (ClientInfo L) = [] in
    let e : cid + length none_before ≡ cid = omega arith in subst (λ k. AllReady k ds) e b
AllReady-append cid (c ∷ cs) ds (here, reach, a) b = (
  here,
  reach,
  AllReady-append (cid + 1) cs ds a (subst (λ k. AllReady k ds) (next_place cid (length cs)) b),
)

module _ {L Q R : Type 0} where
  connect-AllReach :
      (left r : ℕ) (client : Text) (n n' : Network L Q R) (cs : List (Channel L))
      → Directed n
      → connect left r client n ≡ some (cs, n')
      → AllReach client r cs × Directed n'
  unfolding connect
  connect-AllReach zero r client n n' cs d e =
      subst (λ (x : List (Channel L) × Network L Q R). AllReach client r x.0 × Directed x.1)
        (first_some _ _ e) (tt, d)
  connect-AllReach (suc left) r client n n' cs d e =
      let dst = replica_addr r in
      let found = find_channel client dst n in
      let n1 = quiet_channel client dst found.1 in
      let (leads, d1) = find_channel-Directed client dst n d in
      elim (Option-cases found.0) [
        | inl gone ↦ absurd (ground arith)
        | inr (ch, is) ↦ elim (Option-cases (connect left (r + 1) client n1)) [
          | inl failed ↦ absurd (ground arith)
          | inr ((cs', n2), rest) ↦
              let (reach, d2) =
                connect-AllReach left (r + 1) client n1 n2 cs'
                  (quiet_channel-Directed client dst found.1 d1) rest in
              let same : (record ch { verbose = false } ∷ cs', n2) ≡ (cs, n') = ground arith in
              subst (λ (x : List (Channel L) × Network L Q R). AllReach client r x.0 × Directed x.1)
                same ((leads ch is, reach), d2)
        ]
      ]

  add_clients-AllReady :
      (nreplicas left cid : ℕ) (clients cs : List (ClientInfo L)) (n n' : Network L Q R)
      → Directed n
      → length clients ≡ cid
      → AllReady 0 clients
      → add_clients nreplicas left cid clients n ≡ ready cs n'
      → AllReady 0 cs
  unfolding add_clients
  add_clients-AllReady nreplicas zero cid clients cs n n' d size before e =
      let same : clients ≡ cs = ground arith in subst (AllReady 0) same before
  add_clients-AllReady nreplicas (suc left) cid clients cs n n' d size before e =
      let addr = client_addr cid in
      let n1 = quiet_port addr (response_port addr n) in
      let kept = opened_port addr n in
      let d1 : Directed n1 = λ dst p found. d dst p (ap (find dst) (sym kept.1) ∙ found) in
      elim (Option-cases (connect nreplicas 0 addr n1)) [
        | inl failed ↦ absurd (ground arith)
        | inr ((channels, n2), is) ↦
            let info : ClientInfo L = record { channels = channels; response_port = addr } in
            let (reach, d2) = connect-AllReach nreplicas 0 addr n1 n2 channels d1 is in
            let place : 0 + length clients ≡ cid = omega (arith, size) in
            let one : AllReady (0 + length clients) (info ∷ []) =
              subst (λ k. AllReady k (info ∷ [])) (sym place) (refl, reach, tt) in
            add_clients-AllReady nreplicas left (cid + 1) (clients ++ (info ∷ [])) cs n2 n' d2
              (omega (arith, length-append clients (info ∷ []), size))
              (AllReady-append 0 clients (info ∷ []) before one) (ground arith)
      ]

  -- Take a network where each registered channel has the ends that it is registered for, for
  -- instance a new one, and open the ports of the replicas on it. Setting any number of clients,
  -- from none up to the most that are allowed, then reads no null pointer, and gives as many
  -- clients as asked for. Client `cid` has the port `c{cid}`, and one channel for every replica, in
  -- the order of the replicas: the channel for the replica `r` leads from `c{cid}` to `R{r}`.
  pub set_nclients-ready :
      (nreplicas count : ℕ) (n : Network L Q R)
      → count ≤ max_clients
      → Directed n
      → (cs : List (ClientInfo L)) × (n' : Network L Q R) × (set_nclients nreplicas count []
            (open_replicas nreplicas 0 n)
          ≡ ready cs n')
        × (length cs ≡ count)
        × All (λ (c : ClientInfo L). length c.channels ≡ nreplicas) cs
        × AllReady 0 cs
  unfolding set_nclients
  set_nclients-ready nreplicas count n few d =
      let (cs, n', eq, added, len, full) = set_nclients-length nreplicas count n few in
      let d1 = open_replicas-Directed nreplicas 0 n d in
      let all =
        add_clients-AllReady nreplicas (count - 0) 0 [] cs (open_replicas nreplicas 0 n) n' d1 refl
          tt added in
      (cs, n', eq, len, full, all)
