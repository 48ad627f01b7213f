-- ===== src/Netsim/Runs.antt =====
-- The invariant of the reply channels, over any use of a network of pset4/netsim.hh.
use traxos.Base.{
  ◌≡◌, ◌⊎◌, inl, inr, refl, sym, ◌∙◌, ap, ℕ, zero, suc, Text, Bool, Option, some, List, [], ◌∷◌,
  ◌++◌, All, All-append, text_ordered, arith, Bool-cases, Option-cases,
}
use mathlib.Core.Path.{subst}
use mathlib.Core.Option
use traxos.OrdMap.{find, insert_or_assign, same}
use traxos.Netsim.{Channel, deliver, send, receive_from}
use traxos.Netsim.OneWay.{OneWay, Endpoint, new_endpoint}
use traxos.Netsim.OneWay
use traxos.Netsim.Server.{
  Network, response_port, set_default_verbose, set_default_loss, find_channel,
  find_response_channel, find_response_port,
}
use traxos.Netsim.Traffic.{
  Traffic, Op, open_port, open_response_port, make_verbose, make_lossy, send_request,
  arrive_request, take_request, send_response, arrive_response, take_response, started, pull,
  deliver_request, deliver_response, taken_response, request_sent, apply, run,
}
use traxos.Netsim.Linked.{Comes, Inv, Grows, beside-Inv}
use traxos.Netsim.Keeps.{Has-insert, port-Inv, deliver-Inv, taken-Inv, find_channel-Inv}
use traxos.Netsim.Found.{first_some, find_channel-Registered}

List-cases {ℓ} : {A : Type ℓ} (xs : List A) → (xs ≡ []) ⊎ ((x : A) × (ys : List A) × (xs ≡ x ∷ ys))
List-cases [] = inl refl
List-cases (x ∷ xs) = inr (x, xs, refl)

pull-All :
    {A : Type 0} (P : A → Type 0) (k : ℕ) (xs : List A) (y : A) (ys : List A)
    → pull k xs ≡ some (y, ys)
    → All P xs
    → P y × All P ys
unfolding pull
pull-All {A} P k [] y ys e h = absurd cc
pull-All {A} P zero (x ∷ xs) y ys e h =
    let both = first_some {A = A × List A} (x, xs) (y, ys) e in
    (subst P (ap (λ c. c.0) both) h.0, subst (All P) (ap (λ c. c.1) both) h.1)
pull-All {A} P (suc k) (x ∷ xs) y ys e h = elim (Option-cases (pull k xs)) [
  | inl gone ↦ absurd (ground arith)
  | inr ((z, zs), got) ↦
      let (one, others) = pull-All P k xs z zs got h.1 in
      let e' : ◌≡◌ {A = Option (A × List A)} (some (z, x ∷ zs)) (some (y, ys)) = ground arith in
      let both = first_some {A = A × List A} (z, x ∷ zs) (y, ys) e' in
      (subst P (ap (λ c. c.0) both) one, subst (All P) (ap (λ c. c.1) both) (h.0, others))
]

response_port-Grows :
    {L Q R : Type 0} (addr : Text) (p : Endpoint L R) (n : Network L Q R)
    → Grows n (record n {
      response_network = record (n.response_network) {
        ports = insert_or_assign addr p n.response_network.ports;
      };
    })
unfolding find_response_port OneWay.find_port
response_port-Grows addr p n src has = Has-insert src addr p n.response_network.ports has

module _ {L Q R : Type 0} (s : Traffic L Q R) (inv : Inv s) where
  requests-Inv :
      (fs : List (Channel L × Q)) → All (Comes s.net) fs → Inv (record s { requests = fs })
  requests-Inv fs h = record { ports = inv.ports; requests = h }

  responses-Inv : (fs : List (Channel L × R)) → Inv (record s { responses = fs })
  responses-Inv fs = record { ports = inv.ports; requests = inv.requests }

  deliver_response-Inv :
      (ch : Channel L) (msg : R) → Inv (record s { net = deliver_response ch msg s.net })
  unfolding deliver_response deliver
  deliver_response-Inv ch msg =
      elim (Option-cases (find ch.destination s.net.response_network.ports)) [
        | inl gone ↦
            let to : deliver_response ch msg s.net ≡ s.net = ground arith in
            subst (λ n. Inv (record s { net = n })) (sym to) inv
        | inr (p, found) ↦
            let p' : Endpoint L R = record p { receiver = deliver ch msg p.receiver } in
            let n' : Network L Q R = record (s.net) {
              response_network = record (s.net.response_network) {
                ports = insert_or_assign ch.destination p' s.net.response_network.ports;
              };
            } in
            let to : deliver_response ch msg s.net ≡ n' = ground arith in
            subst (λ n. Inv (record s { net = n })) (sym to)
              (beside-Inv s inv n' refl (response_port-Grows ch.destination p' s.net))
      ]

  taken_response-Inv : (dst : Text) → Inv (record s { net = taken_response dst s.net })
  unfolding taken_response receive_from
  taken_response-Inv dst = elim (Option-cases (find dst s.net.response_network.ports)) [
    | inl gone ↦
        let to : taken_response dst s.net ≡ s.net = ground arith in
        subst (λ n. Inv (record s { net = n })) (sym to) inv
    | inr (p, found) ↦ elim (List-cases p.receiver.messageq) [
      | inl empty ↦
          let to : taken_response dst s.net ≡ s.net = ground arith in
          subst (λ n. Inv (record s { net = n })) (sym to) inv
      | inr (m, rest, full) ↦
          let p' : Endpoint L R = record p { receiver = record (p.receiver) { messageq = rest } } in
          let n' : Network L Q R = record (s.net) {
            response_network = record (s.net.response_network) {
              ports = insert_or_assign dst p' s.net.response_network.ports;
            };
          } in
          let to : taken_response dst s.net ≡ n' = ground arith in
          subst (λ n. Inv (record s { net = n })) (sym to)
            (beside-Inv s inv n' refl (response_port-Grows dst p' s.net))
    ]
  ]

sent-Inv :
    {L Q R : Type 0} (s : Traffic L Q R)
    → Inv s
    → (src dst : Text) (lost : Bool) (msg : Q) → Inv (request_sent src dst lost msg s)
unfolding request_sent send
sent-Inv s inv src dst lost msg =
    let n = (find_channel src dst s.net).1 in
    let base = find_channel-Inv s inv src dst in
    elim (Option-cases (find_channel src dst s.net).0) [
      | inl gone ↦
          let to : request_sent src dst lost msg s ≡ record s { net = n } = ground arith in
          subst Inv (sym to) base
      | inr (ch, got) ↦
          let (p, pair, found, known, same) = find_channel-Registered src dst ch s.net got in
          let linked = ((base.ports dst p found).paired src pair known).0 in
          let comes : Comes n (ch, msg) =
            subst (λ c. Comes n (c, msg)) same
              (
                p,
                ap (λ k. find k n.ports) linked.destination ∙ found,
                (pair, ap (λ k. find k p.channels) linked.source ∙ known),
              ) in
          let to : request_sent src dst lost msg s
              ≡ record s { net = n; requests = send lost ch msg s.requests } =
            ground arith in
          subst Inv (sym to) (
            requests-Inv (record s { net = n }) base (send lost ch msg s.requests)
              (elim (Bool-cases lost) [
                | inl dropped ↦
                    let same : send lost ch msg s.requests ≡ s.requests = ground arith in
                    subst (All (Comes n)) (sym same) base.requests
                | inr kept ↦
                    let longer : send lost ch msg s.requests ≡ s.requests ++ ((ch, msg) ∷ []) =
                      ground arith in
                    subst (All (Comes n)) (sym longer)
                      (All-append (Comes n) s.requests ((ch, msg) ∷ []) base.requests (comes, tt))
              ]))
    ]

arrived-Inv :
    {L Q R : Type 0} (s : Traffic L Q R)
    → Inv s
    → (k : ℕ) (f : Channel L × Q) (rest : List (Channel L × Q)) → pull k s.requests ≡ some (f, rest)
    → Inv (record s { net = deliver_request f.0 f.1 s.net; requests = rest })
arrived-Inv s inv k f rest e =
    let (one, others) = pull-All (Comes s.net) k s.requests f rest e inv.requests in
    deliver-Inv (record s { requests = rest }) (requests-Inv s inv rest others) f.0 f.1 one

apply-Inv : {L Q R : Type 0} (op : Op L Q R) (s : Traffic L Q R) → Inv s → Inv (apply op s)
unfolding apply response_port set_default_verbose set_default_loss find_response_port
    OneWay.find_port OneWay.port
apply-Inv (open_port addr) s inv = port-Inv s inv addr
apply-Inv (open_response_port addr) s inv =
    let o = s.net.response_network in
    let p = Option.get_or (find addr o.ports) (new_endpoint addr) in
    beside-Inv s inv (response_port addr s.net) refl (
      response_port-Grows addr
        (record p { receiver = record (p.receiver) { verbose = o.default_verbose } }) s.net)
apply-Inv (make_verbose v) s inv = beside-Inv s inv (set_default_verbose v s.net) refl (λ src h. h)
apply-Inv (make_lossy l) s inv = beside-Inv s inv (set_default_loss l s.net) refl (λ src h. h)
apply-Inv (send_request src dst lost msg) s inv = sent-Inv s inv src dst lost msg
apply-Inv (arrive_request k) s inv = elim (Option-cases (pull k s.requests)) [
  | inl gone ↦ let to : apply (arrive_request k) s ≡ s = ground arith in subst Inv (sym to) inv
  | inr ((f, rest), e) ↦
      let to : apply (arrive_request k) s
          ≡ record s { net = deliver_request f.0 f.1 s.net; requests = rest } =
        ground arith in
      subst Inv (sym to) (arrived-Inv s inv k f rest e)
]
apply-Inv (take_request dst) s inv = taken-Inv s inv dst
apply-Inv (send_response src dst lost msg) s inv =
    elim (Option-cases (find_response_channel src dst s.net)) [
      | inl gone ↦
          let to : apply (send_response src dst lost msg) s ≡ s = ground arith in
          subst Inv (sym to) inv
      | inr (ch, e) ↦
          let to : apply (send_response src dst lost msg) s
              ≡ record s { responses = send lost ch msg s.responses } =
            ground arith in
          subst Inv (sym to) (responses-Inv s inv (send lost ch msg s.responses))
    ]
apply-Inv (arrive_response k) s inv = elim (Option-cases (pull k s.responses)) [
  | inl gone ↦ let to : apply (arrive_response k) s ≡ s = ground arith in subst Inv (sym to) inv
  | inr ((f, rest), e) ↦
      let to : apply (arrive_response k) s
          ≡ record s { net = deliver_response f.0 f.1 s.net; responses = rest } =
        ground arith in
      subst Inv (sym to)
        (deliver_response-Inv (record s { responses = rest }) (responses-Inv s inv rest) f.0 f.1)
]
apply-Inv (take_response dst) s inv = taken_response-Inv s inv dst

pub run-Inv : {L Q R : Type 0} (ops : List (Op L Q R)) (s : Traffic L Q R) → Inv s → Inv (run ops s)
unfolding run
run-Inv [] s inv = inv
run-Inv (op ∷ ops) s inv = run-Inv ops (apply op s) (apply-Inv op s inv)

pub started-Inv : {L Q R : Type 0} (l : L) → Inv (started {L = L} {Q = Q} {R = R} l)
unfolding find
started-Inv l = record { ports = λ dst p found. absurd cc; requests = tt }
