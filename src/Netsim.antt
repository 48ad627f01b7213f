-- ===== src/Netsim.antt =====
-- pset4/netsim.hh: channels, and the queues of the receivers that they end in.
pub mod OneWay
pub mod Server
pub mod Traffic
pub mod Linked
pub mod Keeps
pub mod Found
pub mod Runs
pub mod Replies
mod Tests
use traxos.Base.{Text, Bool, false, Option, none, some, List, [], ◌∷◌, ◌++◌, if◌then◌else◌}

-- `L` is the type of a loss rate, a `double`. `destination` is the pointer of that name, as the
-- address that its port is registered under; ports are never taken out.
pub record Channel (L : Type 0) : Type 0 where
  pub source_address : Text
  pub destination : Text
  pub destination_address : Text
  pub verbose : Bool
  pub loss : L

-- The queue has each message with the address that it came from.
pub record Receiver (M : Type 0) : Type 0 where
  pub messageq : List (M × Text)
  pub address : Text
  pub verbose : Bool

abbrev pub new_receiver : {M : Type 0} → Text → Receiver M
new_receiver addr = record { messageq = []; address = addr; verbose = false }

unfoldable pub deliver : {L M : Type 0} → Channel L → M → Receiver M → Receiver M
deliver from m r = record r { messageq = r.messageq ++ ((m, from.source_address) ∷ []) }

-- `none` is that it waits.
unfoldable pub receive_from : {M : Type 0} → Receiver M → Option ((M × Text) × Receiver M)
receive_from r = elim r.messageq [ [] ↦ none | m ∷ ms ↦ some (m, record r { messageq = ms }) ]

pub receive : {M : Type 0} → Receiver M → Option (M × Receiver M)
unfolding receive_from
receive r = elim (receive_from r) [ none ↦ none | some (m, rest) ↦ some (m.0, rest) ]

-- `channel::send`, where `lost` is how the coin falls: the messages that are on their way.
unfoldable pub send :
    {L M : Type 0} → Bool → Channel L → M → List (Channel L × M) → List (Channel L × M)
send lost ch m flights = if lost then flights else flights ++ ((ch, m) ∷ [])
