-- ===== src/Tracker/Types.antt =====
-- pset4/tracker/types.hh. A byte array is its list of bytes. `std::map` orders the arrays by the
-- `<` of `char`, which is signed on some platforms: the order is a parameter wherever it matters.
use traxos.Base.{ℕ, Text, Bool}
use traxos.Base.Int.{ℤ}
use traxos.OrdMap.{OrdMap}

pub data Event : Type 0 where
  started stopped completed : Event

pub record AnnounceRequest : Type 0 where
  pub info_hash : Text
  pub peer_id : Text
  pub ip : ℕ
  pub port : ℕ
  pub uploaded : ℕ
  pub downloaded : ℕ
  pub left : ℕ
  pub event : Event
  pub numwant : ℤ

pub record Peer : Type 0 where
  pub peer_id : Text
  pub ip : ℕ
  pub port : ℕ
  pub uploaded : ℕ
  pub downloaded : ℕ
  pub left : ℕ
  pub complete : Bool

abbrev pub Peers : Type 0
Peers = OrdMap Text Peer

pub record TrackerState : Type 0 where
  pub torrents : OrdMap Text Peers
