-- ===== src/Netsim/Keeps.antt =====
-- The invariant of the reply channels, under the changes of a network of pset4/netsim.hh.
use traxos.Base.{
  ◌≡◌, ◌⊎◌, inl, inr, refl, sym, ◌∙◌, ap, Text, none, some, List, [], ◌∷◌, All, All-mono,
  All-append, text_ordered, arith, Bool-cases, Option-cases,
}
use mathlib.Core.Path.{subst}
use mathlib.Core.Option
use traxos.OrdMap.{find, insert_or_assign, same}
use traxos.Netsim.{Channel, deliver, receive_from}
use traxos.Netsim.Server.{
  Port, Network, request, receive_with_channel, set_port, port, find_channel, find_response_port,
  find_port, new_port, new_channel,
}
use traxos.Netsim.Traffic.{Traffic, deliver_request, taken}
use traxos.Netsim.Linked.{
  find-set, find-set_same, find-set_other, Has, Pair, HasResponsePort, PortInv, Comes, Inv,
  set_port-Inv,
}

List-cases {ℓ} : {A : Type ℓ} (xs : List A) → (xs ≡ []) ⊎ ((x : A) × (ys : List A) × (xs ≡ x ∷ ys))
List-cases [] = inl refl
List-cases (x ∷ xs) = inr (x, xs, refl)

pub Has-insert :
    {V : Type 0} (a src : Text) (v : V) (m : List (Text × V))
    → ((w : V) × (find a m ≡ some w))
    → (w : V) × (find a (insert_or_assign src v m) ≡ some w)
Has-insert a src v m (w, e) = elim (Bool-cases (same a src)) [
  | inl eq ↦ (v, find-set_same a src v m eq)
  | inr other ↦ (w, find-set_other a src v m other ∙ e)
]

-- What a server takes from its queue.
pub head_request :
    {L Q R : Type 0} (dst src : Text) (p : Port L Q) (n : Network L Q R) (msg : Q)
    (rest : List (Q × Text))
    → PortInv dst p n
    → p.receiver.messageq ≡ (msg, src) ∷ rest
    → (pair : Channel L × Channel L) × (find src p.channels ≡ some pair)
      × (receive_with_channel p
          ≡ request msg pair.1 (record p { receiver = record (p.receiver) { messageq = rest } }))
unfolding receive_with_channel receive_from
head_request dst src p n msg rest inv eq =
    let queued = subst (λ ms. All (λ (q : _ × Text). Has q.1 p) ms) eq inv.queued in
    let (pair, known) = queued.0 in (pair, known, ground arith)

module _ {L Q R : Type 0} (s : Traffic L Q R) (inv : Inv s) where
  pub port-Inv : (addr : Text) → Inv (record s { net = port addr s.net })
  unfolding port find
  port-Inv addr = elim (Option-cases (find addr s.net.ports)) [
    | inl gone ↦
        let p : Port L Q = new_port addr in
        let p' = record p { receiver = record (p.receiver) { verbose = s.net.default_verbose } } in
        let to : port addr s.net ≡ set_port addr p' s.net =
          ap
            (λ q.
              let p = Option.get_or q (new_port addr) in
              set_port addr
                (record p { receiver = record (p.receiver) { verbose = s.net.default_verbose } })
                s.net)
            gone in
        subst (λ n. Inv (record s { net = n })) (sym to)
          (set_port-Inv s inv addr p' (λ q found src has. absurd cc)
            (record { queued = tt; paired = λ src pair found. absurd cc }))
    | inr (p, found) ↦
        let p' = record p { receiver = record (p.receiver) { verbose = s.net.default_verbose } } in
        let to : port addr s.net ≡ set_port addr p' s.net =
          ap
            (λ q.
              let p = Option.get_or q (new_port addr) in
              set_port addr
                (record p { receiver = record (p.receiver) { verbose = s.net.default_verbose } })
                s.net)
            found in
        let old = inv.ports addr p found in
        subst (λ n. Inv (record s { net = n })) (sym to)
          (set_port-Inv s inv addr p'
            (λ q there src has. let same : q ≡ p = cc in subst (λ q. Has src q) same has)
            (record { queued = old.queued; paired = old.paired }))
  ]

  pub deliver-Inv :
      (ch : Channel L) (msg : Q)
      → Comes s.net (ch, msg)
      → Inv (record s { net = deliver_request ch msg s.net })
  unfolding deliver_request deliver
  deliver-Inv ch msg (p, found, has) =
      let p' : Port L Q = record p { receiver = deliver ch msg p.receiver } in
      let to : deliver_request ch msg s.net ≡ set_port ch.destination p' s.net = ground arith in
      let old = inv.ports ch.destination p found in
      subst (λ n. Inv (record s { net = n })) (sym to)
        (set_port-Inv s inv ch.destination p'
          (λ q there src h. let same : q ≡ p = cc in subst (λ q. Has src q) same h)
          (record {
            queued =
                All-append (λ (q : Q × Text). Has q.1 p) p.receiver.messageq
                  ((msg, ch.source_address) ∷ []) old.queued (has, tt);
            paired = old.paired;
          }))

  pub taken-Inv : (dst : Text) → Inv (record s { net = taken dst s.net })
  unfolding taken receive_with_channel receive_from
  taken-Inv dst = elim (Option-cases (find dst s.net.ports)) [
    | inl gone ↦
        let to : taken dst s.net ≡ s.net = ground arith in
        subst (λ n. Inv (record s { net = n })) (sym to) inv
    | inr (p, found) ↦ elim (List-cases p.receiver.messageq) [
      | inl empty ↦
          let to : taken dst s.net ≡ s.net = ground arith in
          subst (λ n. Inv (record s { net = n })) (sym to) inv
      | inr ((msg, src), rest, full) ↦
          let old = inv.ports dst p found in
          let (pair, known, got) = head_request dst src p s.net msg rest old full in
          let p' : Port L Q = record p { receiver = record (p.receiver) { messageq = rest } } in
          let to : taken dst s.net ≡ set_port dst p' s.net = ground arith in
          subst (λ n. Inv (record s { net = n })) (sym to)
            (set_port-Inv s inv dst p'
              (λ q there a h. let same : q ≡ p = cc in subst (λ q. Has a q) same h)
              (record {
                queued = (subst (λ ms. All (λ (q : Q × Text). Has q.1 p) ms) full old.queued).1;
                paired = old.paired;
              }))
    ]
  ]

  pub find_channel-Inv : (src dst : Text) → Inv (record s { net = (find_channel src dst s.net).1 })
  unfolding find_channel find_port
  find_channel-Inv src dst = elim (Option-cases (find dst s.net.ports)) [
    | inl gone ↦
        let to : find_channel src dst s.net ≡ (none, s.net) = ground arith in
        subst (λ c. Inv (record s { net = c.1 })) (sym to) inv
    | inr (p, found) ↦ elim (Option-cases (find src p.channels)) [
      | inr (pair, known) ↦
          let to : find_channel src dst s.net ≡ (some pair.0, s.net) = ground arith in
          subst (λ c. Inv (record s { net = c.1 })) (sym to) inv
      | inl new ↦ elim (Option-cases (find_response_port src s.net)) [
        | inl mute ↦
            let to : find_channel src dst s.net ≡ (none, s.net) = ground arith in
            subst (λ c. Inv (record s { net = c.1 })) (sym to) inv
        | inr (client, opened) ↦
            let old = inv.ports dst p found in
            let pair : Channel L × Channel L =
              (new_channel src dst p.receiver.address s.net, new_channel dst src src s.net) in
            let p' : Port L Q = record p { channels = insert_or_assign src pair p.channels } in
            let to : find_channel src dst s.net ≡ (some pair.0, set_port dst p' s.net) =
              ground arith in
            let more : (a : Text) → Has a p → Has a p' =
              λ a h. Has-insert a src pair p.channels h in
            subst (λ c. Inv (record s { net = c.1 })) (sym to)
              (set_port-Inv s inv dst p'
                (λ q there a h. let same : q ≡ p = cc in more a (subst (λ q. Has a q) same h))
                (record {
                  queued =
                      All-mono (λ (q : Q × Text). Has q.1 p) (λ (q : Q × Text). Has q.1 p')
                        (λ q h. more q.1 h) p.receiver.messageq old.queued;
                  paired = λ a both known. elim (find-set a src pair both p.channels known) [
                    | inl (eq, same) ↦
                        subst (λ b. Pair dst a b × HasResponsePort a s.net) same
                          (subst (λ k. Pair dst k pair × HasResponsePort k s.net) (sym eq)
                            (
                              record {
                                source = refl;
                                destination = refl;
                                reply_source = refl;
                                reply_destination = refl;
                              },
                              (client, opened),
                            ))
                    | inr before ↦ old.paired a both before
                  ];
                }))
      ]
    ]
  ]
