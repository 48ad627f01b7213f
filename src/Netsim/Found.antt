-- ===== src/Netsim/Found.antt =====
-- What `find_channel` of pset4/netsim.hh gives, and what it gives when it is called again.
use traxos.Base.{
  ◌≡◌, inl, inr, sym, ◌∙◌, ap, Text, true, none, some, text_ordered, text_cmp_iff, arith,
  Option-cases,
}
use mathlib.Core.Path.{subst}
use traxos.OrdMap.{find, insert_or_assign, same}
use traxos.Netsim.{Channel}
use traxos.Netsim.Server.{
  Port, Network, set_port, find_channel, find_response_port, find_port, new_channel,
}
use traxos.Netsim.Linked.{find-set_same}

pub same_refl : (k : Text) → same k k ≡ true
same_refl k = ground (arith, text_cmp_iff k k)

pub first_some : {A : Type 0} (a b : A) → some a ≡ some b → a ≡ b
first_some a b e = cc

-- The channel that is found is the one that is registered.
abbrev pub Registered : {L Q R : Type 0} → Text → Text → Channel L → Network L Q R → Type 0
Registered {L} {Q} src dst ch n =
    (p : Port L Q) × (pair : Channel L × Channel L) × (find dst n.ports ≡ some p)
    × (find src p.channels ≡ some pair)
    × (pair.0 ≡ ch)

pub find_channel-Registered :
    {L Q R : Type 0} (src dst : Text) (ch : Channel L) (n : Network L Q R)
    → (find_channel src dst n).0 ≡ some ch
    → Registered src dst ch (find_channel src dst n).1
unfolding find_channel find_port set_port
find_channel-Registered {L} {Q} src dst ch n e = elim (Option-cases (find dst n.ports)) [
  | inl gone ↦ let to : find_channel src dst n ≡ (none, n) = ground arith in absurd cc
  | inr (p, found) ↦ elim (Option-cases (find src p.channels)) [
    | inr (pair, known) ↦
        let to : find_channel src dst n ≡ (some pair.0, n) = ground arith in
        subst (λ c. Registered src dst ch c.1) (sym to)
          (p, pair, found, known, first_some _ _ (sym (ap (λ c. c.0) to) ∙ e))
    | inl new ↦ elim (Option-cases (find_response_port src n)) [
      | inl mute ↦ let to : find_channel src dst n ≡ (none, n) = ground arith in absurd cc
      | inr (client, opened) ↦
          let pair : Channel L × Channel L =
            (new_channel src dst p.receiver.address n, new_channel dst src src n) in
          let p' : Port L Q = record p { channels = insert_or_assign src pair p.channels } in
          let to : find_channel src dst n ≡ (some pair.0, set_port dst p' n) = ground arith in
          subst (λ c. Registered src dst ch c.1) (sym to)
            (
              p',
              pair,
              find-set_same dst dst p' n.ports (same_refl dst),
              find-set_same src src pair p.channels (same_refl src),
              first_some _ _ (sym (ap (λ c. c.0) to) ∙ e),
            )
    ]
  ]
]

find_channel_known :
    {L Q R : Type 0} (src dst : Text) (n : Network L Q R) (p : Port L Q)
    (pair : Channel L × Channel L)
    → find dst n.ports ≡ some p
    → find src p.channels ≡ some pair
    → find_channel src dst n ≡ (some pair.0, n)
unfolding find_channel find_port
find_channel_known src dst n p pair found known = ground arith

-- Where a channel was found or made between two addresses, it is registered under the source in the
-- port of the destination, it is found again, and that changes the network no more.
pub find_channel-again :
    {L Q R : Type 0} (src dst : Text) (ch : Channel L) (n : Network L Q R)
    → (find_channel src dst n).0 ≡ some ch
    → Registered src dst ch (find_channel src dst n).1
      × (find_channel src dst (find_channel src dst n).1 ≡ (some ch, (find_channel src dst n).1))
find_channel-again src dst ch n e =
    let (p, pair, found, known, same) = find_channel-Registered src dst ch n e in
    (
      (p, pair, found, known, same),
      subst
          (λ c.
            find_channel src dst (find_channel src dst n).1 ≡ (some c, (find_channel src dst n).1))
          same (find_channel_known src dst (find_channel src dst n).1 p pair found known),
    )
