-- ===== src/Lockseq/Client/Served.antt =====
-- What a request that is answered leaves at the keys of a group.
use traxos.Base.{
  ℕ, ◌<◌, ◌≡◌, ◌≢◌, ◌⊎◌, drop, sym, ap, Text, some, ◌∷◌, arith, text_ordered, text_cmp_iff,
}
use traxos.Base.Int.{pos}
use traxos.Pancy.Msgs.{
  any_version, Request, put_request, remove_request, response_errcode, PutRequest, RemoveRequest,
}
use traxos.Pancy.Db.{World, Vv, absent}
use traxos.OrdMap.{find}
use traxos.Pancy.Db.Spec.{view, step}
use traxos.Pancy.Db.Spec.Valid.{IsValid}
use traxos.Lockseq.{digits_loop}
use traxos.Lockseq.Held.{digits_loop-padded}
use traxos.Lockseq.Client.Names.{behind, behind-group, value_key-ne-lock_key}
use traxos.Pancy.Db.Spec.Effects.{request_key, view-step}
use traxos.Lockseq.Keys.{padded, make_lock_key, make_value_key}

pub step_elsewhere :
    (r : Request) (w : World) (k : Text)
    → IsValid w
    → k ≢ request_key r
    → view (step r w).1 k ≡ view w k
step_elsewhere r w k v other = ground (arith, view-step r w k v, text_cmp_iff k (request_key r))

pub put_here :
    (r : PutRequest) (w : World) (k : Text)
    → IsValid w
    → r.version_match ≡ any_version
    → (k ≡ r.key) ⊎ ((view w k).value ≡ r.value)
    → (view (step (put_request r) w).1 k).value ≡ r.value
unfolding step response_errcode
put_here r w k v any already =
    ground (arith, view-step (put_request r) w k v, text_cmp_iff k r.key, already)

pub remove_here :
    (r : RemoveRequest) (w : World) (old : Vv)
    → IsValid w
    → find r.key w.db ≡ some old
    → r.version_match ≡ pos old.version
    → view (step (remove_request r) w).1 r.key ≡ absent
unfolding step response_errcode
remove_here r w old v found match =
    ground (arith, view-step (remove_request r) w r.key v, text_cmp_iff r.key r.key)

third : Text → ℕ
third x = digits_loop 0 (drop 1 (behind x))

third-value_key : (gid n : ℕ) → n < 1000 → third (make_value_key gid n) ≡ n
unfolding third
third-value_key gid n small = rw (behind-group gid (118 ∷ padded n)) (digits_loop-padded n small)

pub value_key-ne : (gid m n : ℕ) → m < n → n < 1000 → make_value_key gid m ≢ make_value_key gid n
value_key-ne gid m n lt small e =
    let same = ap third e in
    let here = third-value_key gid m (omega arith) in
    let there = third-value_key gid n small in omega arith

pub lock_key-ne : (gid n : ℕ) → make_lock_key gid ≢ make_value_key gid n
lock_key-ne gid n e = value_key-ne-lock_key gid n gid (sym e)
