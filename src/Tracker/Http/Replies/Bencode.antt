-- ===== src/Tracker/Http/Replies/Bencode.antt =====
-- The reply to an announce against the grammar of bencoding, the format of BitTorrent.
use traxos.Base.{
  ℕ, ◌≡◌, refl, ◌∙◌, Text, List, [], ◌∷◌, ◌++◌, length, Ordered, Option, none, some, text_cmp,
  Ordering,
}
use traxos.Base.Bytes.{codes, decimal}
use traxos.Tracker.Types.{AnnounceRequest, Peer, TrackerState}
use traxos.Tracker.State.Laws.{peers_of}
use traxos.Tracker.Http.Ipv4.{format_ipv4}
use traxos.Tracker.Http.Replies.{peer_entry, tracker_success_response}
use traxos.Tracker.Http.Replies.Listed.{others, at_most, entries, success_response-entries}
use mathlib.Core.List.{append_assoc, append-nil}

-- A byte string with its length in front.
abbrev pub bencoded_string : Text → Text
bencoded_string s = decimal (length s) ++ (58 ∷ s)

-- The key comes behind the one before it, if there is one, in the order of the bytes.
abbrev pub ComesAfter : Option Text → Text → Type 0
ComesAfter none key = Unit
ComesAfter (some before) key = text_cmp before key ≡ Ordering.lt

-- `Bencoded t` where `t` is one bencoded value, `Items` where it is several in a row, and `Fields`
-- where it is keys and values in turn, in ascending order of the keys, behind the key given.
mutual
  pub data Bencoded : Text → Type 0 where
    number : (n : ℕ) (t : Text) → t ≡ 105 ∷ (decimal n ++ (101 ∷ [])) → Bencoded t
    text : (s t : Text) → t ≡ bencoded_string s → Bencoded t
    list : (s t : Text) → Items s → t ≡ 108 ∷ (s ++ (101 ∷ [])) → Bencoded t
    dictionary : (s t : Text) → Fields none s → t ≡ 100 ∷ (s ++ (101 ∷ [])) → Bencoded t

  pub data Items : Text → Type 0 where
    end : Items []
    item : (s r t : Text) → Bencoded s → Items r → t ≡ s ++ r → Items t

  pub data Fields : Option Text → Text → Type 0 where
    last : (before : Option Text) → Fields before []
    field :
        (before : Option Text) (key s r t : Text)
        → ComesAfter before key
        → Bencoded s
        → Fields (some key) r
        → t ≡ bencoded_string key ++ (s ++ r)
        → Fields before t

ip_key : bencoded_string (codes "ip") ≡ codes "2:ip"
unfolding decimal
ip_key = refl

port_key : bencoded_string (codes "port") ≡ codes "4:port"
unfolding decimal
port_key = refl

interval_key : bencoded_string (codes "interval") ≡ codes "8:interval"
unfolding decimal
interval_key = refl

peers_key : bencoded_string (codes "peers") ≡ codes "5:peers"
unfolding decimal
peers_key = refl

hundred : decimal 100 ≡ codes "100"
unfolding decimal
hundred = refl

abbrev number_text : ℕ → Text
number_text n = 105 ∷ (decimal n ++ (101 ∷ []))

abbrev peer_fields : Peer → Text
peer_fields peer =
    bencoded_string (codes "ip")
    ++ (bencoded_string (format_ipv4 peer.ip)
        ++ (bencoded_string (codes "port") ++ (number_text peer.port ++ [])))

peer_entry-fields : (peer : Peer) → peer_entry peer ≡ 100 ∷ (peer_fields peer ++ (101 ∷ []))
unfolding peer_entry
peer_entry-fields peer = simp (ip_key, port_key, append_assoc, append-nil)

peer_entry-Bencoded : (peer : Peer) → Bencoded (peer_entry peer)
peer_entry-Bencoded peer =
    let port = number peer.port (number_text peer.port) refl in
    let ports =
      field (some (codes "ip")) (codes "port") (number_text peer.port) [] _ refl port (last _)
        refl in
    let ip = text (format_ipv4 peer.ip) _ refl in
    let fields = field none (codes "ip") _ _ (peer_fields peer) tt ip ports refl in
    dictionary (peer_fields peer) (peer_entry peer) fields (peer_entry-fields peer)

entries-Items : (peers : List Peer) → Items (entries peers)
unfolding entries
entries-Items [] = end
entries-Items (peer ∷ peers) =
    item (peer_entry peer) (entries peers) _ (peer_entry-Bencoded peer) (entries-Items peers) refl

abbrev reply_fields : Text → Text
reply_fields peers =
    bencoded_string (codes "interval")
    ++ (number_text 100
        ++ (bencoded_string (codes "peers") ++ ((108 ∷ (peers ++ (101 ∷ []))) ++ [])))

reply-fields :
    (peers : Text)
    → codes "d8:intervali100e5:peersl" ++ (peers ++ codes "ee")
      ≡ 100 ∷ (reply_fields peers ++ (101 ∷ []))
reply-fields peers = simp (interval_key, peers_key, hundred, append_assoc, append-nil)

module _ ⦃o : Ordered Text⦄ where
  -- Whatever the state and the request, the reply is one bencoded value, with the keys of each of
  -- its dictionaries in ascending order and none twice.
  pub success_response-Bencoded :
      (state : TrackerState) (req : AnnounceRequest) → Bencoded (tracker_success_response state req)
  success_response-Bencoded state req =
      let peers = at_most req.numwant (others req.peer_id (peers_of req.info_hash state)) in
      let list_text = 108 ∷ (entries peers ++ (101 ∷ [])) in
      let peers_list = list (entries peers) list_text (entries-Items peers) refl in
      let after =
        field (some (codes "interval")) (codes "peers") list_text [] _ refl peers_list (last _)
          refl in
      let interval = number 100 (number_text 100) refl in
      let fields =
        field none (codes "interval") _ _ (reply_fields (entries peers)) tt interval after refl in
      dictionary (reply_fields (entries peers)) _ fields
        (success_response-entries state req ∙ reply-fields (entries peers))
