-- ===== src/Client/Setup.antt =====
-- `client_model::set_nclients` of pset4/client_model.cc, and the ports that pset4/pt-paxos.cc opens
-- before it.
pub mod Connected
pub mod Directed
mod Tests
use traxos.Base.{
  ℕ, zero, suc, ◌+◌, ◌-◌, Text, Bool, false, Option, none, some, List, [], ◌∷◌, ◌++◌, if◌then◌else◌,
  ltb, ◌==◌, length, take, text_ordered,
}
use traxos.Base.Bytes.{codes, decimal}
use traxos.OrdMap.{find, insert_or_assign}
use traxos.Client.{max_clients}
use traxos.Netsim.{Channel}
use traxos.Netsim.Server.{Port, Network, port, response_port, set_port, find_port, find_channel}

abbrev pub client_addr : ℕ → Text
client_addr cid = codes "c" ++ decimal cid

abbrev pub replica_addr : ℕ → Text
replica_addr r = codes "R" ++ decimal r

pub record ClientInfo (L : Type 0) : Type 0 where
  pub channels : List (Channel L)
  pub response_port : Text

pub data Outcome (L Q R : Type 0) : Type 0 where
  out_of_range null_dereferenced : Outcome L Q R
  ready : List (ClientInfo L) → Network L Q R → Outcome L Q R

-- `client_model::client_model`, with the field `nreplicas_`; `none` is that `std::out_of_range` is
-- thrown.
unfoldable pub client_model : ℕ → Option ℕ
client_model nreplicas = if nreplicas == 0 then none else some nreplicas

module _ {L Q R : Type 0} where
  -- The loop of `try_one_seed` that opens the ports of the replicas, from `s` on.
  pub open_replicas : ℕ → ℕ → Network L Q R → Network L Q R
  open_replicas zero s n = n
  open_replicas (suc left) s n = open_replicas left (s + 1) (port (replica_addr s) n)

  -- `channel->set_verbose(false)`, on the channel from `src` to `dst`
  pub quiet_channel : Text → Text → Network L Q R → Network L Q R
  quiet_channel src dst n = elim (find dst n.ports) [
    | none ↦ n
    | some p ↦ elim (find src p.channels) [
      | none ↦ n
      | some (req_chan, resp_chan) ↦
          set_port dst
            (record p {
              channels =
                  insert_or_assign src (record req_chan { verbose = false }, resp_chan) p.channels;
            })
            n
    ]
  ]

  -- `response_port->set_verbose(false)`
  pub quiet_port : Text → Network L Q R → Network L Q R
  quiet_port addr n = elim (find addr n.response_network.ports) [
    | none ↦ n
    | some p ↦ record n {
      response_network = record (n.response_network) {
        ports =
            insert_or_assign addr (record p { receiver = record (p.receiver) { verbose = false } })
              n.response_network.ports;
      };
    }
  ]

  -- The loop over the replicas, from `r` on; `none` is a null pointer that is dereferenced.
  pub connect : ℕ → ℕ → Text → Network L Q R → Option (List (Channel L) × Network L Q R)
  unfolding quiet_channel
  connect zero r client n = some ([], n)
  connect (suc left) r client n =
      let (ch, n') = find_channel client (replica_addr r) n in
      let rest = connect left (r + 1) client (quiet_channel client (replica_addr r) n') in
      elim ch [
        | none ↦ none
        | some c ↦ elim rest [
          | none ↦ none
          | some (cs, n'') ↦ some (record c { verbose = false } ∷ cs, n'')
        ]
      ]

  -- The loop over the clients, from `cid` on.
  pub add_clients : ℕ → ℕ → ℕ → List (ClientInfo L) → Network L Q R → Outcome L Q R
  unfolding quiet_port connect
  add_clients nreplicas zero cid clients n = ready clients n
  add_clients nreplicas (suc left) cid clients n =
      let addr = client_addr cid in
      elim (connect nreplicas 0 addr (quiet_port addr (response_port addr n))) [
        | none ↦ null_dereferenced
        | some (channels, n') ↦
            add_clients nreplicas left (cid + 1)
              (clients ++ (record { channels = channels; response_port = addr } ∷ [])) n'
      ]

  pub set_nclients : ℕ → ℕ → List (ClientInfo L) → Network L Q R → Outcome L Q R
  unfolding add_clients
  set_nclients nreplicas n clients net =
      if ltb max_clients n
      then out_of_range
      else elim (add_clients nreplicas (n - length clients) (length clients) clients net) [
        | out_of_range ↦ out_of_range
        | null_dereferenced ↦ null_dereferenced
        | ready cs net' ↦ ready (take n cs) net'
      ]
