-- ===== src/Netsim/OneWay.antt =====
-- `network<T, void>` and `port<T, void>` of pset4/netsim.hh.
use mathlib.Core.Option
use traxos.Base.{Text, Bool, Option, none, some, [], text_ordered}
use traxos.OrdMap.{OrdMap, find, insert_or_assign}
use traxos.Netsim.{Channel, Receiver, new_receiver}

pub record Endpoint (L M : Type 0) : Type 0 where
  pub receiver : Receiver M
  pub channels : OrdMap Text (Channel L)

pub record OneWay (L M : Type 0) : Type 0 where
  pub ports : OrdMap Text (Endpoint L M)
  pub default_verbose : Bool
  pub default_loss : L

abbrev pub new_endpoint : {L M : Type 0} → Text → Endpoint L M
new_endpoint addr = record { receiver = new_receiver addr; channels = [] }

module _ {L M : Type 0} where
  -- The state of the network with a port at `addr`; it is registered if it was not.
  unfoldable pub port : Text → OneWay L M → OneWay L M
  port addr n =
      let p = Option.get_or (find addr n.ports) (new_endpoint addr) in
      record n {
        ports =
            insert_or_assign addr
              (record p { receiver = record (p.receiver) { verbose = n.default_verbose } }) n.ports;
      }

  unfoldable pub find_port : Text → OneWay L M → Option (Endpoint L M)
  find_port addr n = find addr n.ports

  -- Of the port `p` at `dst`.
  unfoldable pub find_channel_from :
      Text → Text → Endpoint L M → OneWay L M → Option (Channel L) × OneWay L M
  unfolding find_port
  find_channel_from src dst p n = elim (find src p.channels) [
    | some ch ↦ (some ch, n)
    | none ↦ elim (find_port src n) [
      | none ↦ (none, n)
      | some q ↦
          let ch : Channel L = record {
            source_address = q.receiver.address;
            destination = dst;
            destination_address = p.receiver.address;
            verbose = n.default_verbose;
            loss = n.default_loss;
          } in
          (
            some ch,
            record n {
              ports =
                  insert_or_assign dst (record p { channels = insert_or_assign src ch p.channels })
                    n.ports;
            },
          )
    ]
  ]

  unfoldable pub find_channel : Text → Text → OneWay L M → Option (Channel L) × OneWay L M
  unfolding find_channel_from
  find_channel src dst n = elim (find dst n.ports) [
    | none ↦ (none, n)
    | some p ↦ find_channel_from src dst p n
  ]
