-- ===== src/Lockseq/System/Sends.antt =====
-- A move of a client, and the messages that it sent and those that come to it.
use Prim.Native.Nat.{ℕ, ◌+◌, ◌%◌, ◌^◌, ◌≤◌, ◌<◌}
use traxos.Base.{◌≡◌, ◌≢◌, ◌⊎◌, ap, inl, inr, refl, sym, ◌∙◌, Text, true, false, none, some, arith}
use mathlib.Core.Path.{subst}
use traxos.Pancy.Msgs.{
  Request, get_request, put_request, cas_request, remove_request, request_serial, ModResponse,
  Response, cas_response, remove_response, response_serial,
}
use traxos.Pancy.Db.Spec.Effects.{is_ok}
use traxos.Pancy.Db.{World}
use traxos.Pancy.Db.Spec.Runs.{Spent}
use traxos.Client.{serial_step}
use traxos.Lockseq.Client.{
  Pc, idle, locking, lock_delay, writing, write_delay, clearing, clear_delay, unlocking, thrown,
  Cstate, nclients, request_at, request_of, Event,
}
use traxos.Lockseq.Client.Locks.{Owned}
use traxos.Lockseq.Client.Moves.{
  is_resting, is_over, Stays, Removes, Moved, retries, yields, resumes, rests, throws, starts,
  takes, goes,
}
use traxos.Lockseq.System.Invariant.{
  lock, ClientInv, asked_at, asked, Unlocks, Kind, owner_of, RequestOf, is_locking, Tells,
  ResponseOf,
}
use traxos.Lockseq.System.Acts.{next_serial}

request_at-serial :
    (pc : Pc) (c : Cstate) (r : Request) → request_at pc c ≡ some r → request_serial r ≡ c.serial
unfolding request_at request_serial
request_at-serial locking c r e = ground arith
request_at-serial writing c r e = ground arith
request_at-serial clearing c r e = ground arith
request_at-serial unlocking c r e = ground arith
request_at-serial pc c r e = absurd (ground arith)

request_at-asked :
    (pc : Pc) (c : Cstate) (r : Request) → request_at pc c ≡ some r → asked_at pc c ≡ some r
unfolding request_at
request_at-asked lock_delay c r e = absurd (ground arith)
request_at-asked pc c r e = e

request_at-Kind :
    (pc : Pc) (c : Cstate) (w : World) (r : Request)
    → c.pc ≡ pc
    → request_at pc c ≡ some r
    → Kind r c w
unfolding request_at
request_at-Kind locking c w (cas_request r) at e = ground arith
request_at-Kind writing c w (put_request r) at e = (c.gid, c.n, ground arith)
request_at-Kind clearing c w (remove_request r) at e = inl (c.gid, c.n, ground arith)
request_at-Kind unlocking c w (remove_request r) at e =
    inr (c.lock_version, ground arith, inr (at, ground arith, refl))
request_at-Kind pc c w r at e = absurd (ground arith)

-- The request that a client comes to wait on.
pub request_of-RequestOf :
    (c : Cstate) (w : World) (r : Request) → request_of c ≡ some r → RequestOf c w r
request_of-RequestOf c w r e =
    let same = request_at-serial c.pc c r e in
    record {
      past = omega arith;
      current = λ s. inl (request_at-asked c.pc c r e);
      kind = request_at-Kind c.pc c w r refl e;
    }

pub request_of-owner :
    (c : Cstate) (r : Request)
    → request_of c ≡ some r
    → owner_of (request_serial r) ≡ owner_of c.serial
request_of-owner c r e = let same = request_at-serial c.pc c r e in omega arith

resting-asked : (pc : Pc) (c : Cstate) → is_resting pc ≡ true → asked_at pc c ≡ none
unfolding request_at
resting-asked write_delay c h = refl
resting-asked clear_delay c h = refl
resting-asked pc c h = absurd (cc h)

over-asked : (pc : Pc) (c : Cstate) → is_over pc ≡ true → asked_at pc c ≡ none
unfolding request_at
over-asked idle c h = refl
over-asked (thrown e) c h = refl
over-asked pc c h = absurd (cc h)

locking_kept : (c c' : Cstate) → Stays c c' → request_at locking c' ≡ request_at locking c
unfolding request_at
locking_kept c c' st = cc (st.kept.gid, st.kept.value, st.serial)

asked_kept : (pc : Pc) (c c' : Cstate) → Stays c c' → c'.n ≡ c.n → asked_at pc c' ≡ asked_at pc c
unfolding request_at
asked_kept writing c c' st same = cc
asked_kept pc c c' st same = cc

module _ (n i : ℕ) (w : World) (few : n < 2 ^ 51) (lt : i < nclients) (e : Event) (c c' : Cstate)
    (inv : ClientInv n i c w) where
  next_passes :
      (k : ℕ) → c'.serial ≡ (c.serial + serial_step) % 2 ^ 64 → k ≤ c.serial → k ≢ c'.serial
  next_passes k s past eq = let next = next_serial n i c.serial few lt inv.low in omega arith

  -- The serials only grow.
  pub past_kept : (k : ℕ) → Moved e c c' → k ≤ c.serial → k ≤ c'.serial
  past_kept k (retries st at same) past = rw (st.serial) past
  past_kept k (yields st at to) past = rw (st.serial) past
  past_kept k (resumes st at to) past = rw (st.serial) past
  past_kept k (rests st at to) past = rw (st.serial) past
  past_kept k (throws st to why) past = rw (st.serial) past
  past_kept k (starts at cid s named to) past =
      let next = next_serial n i c.serial few lt inv.low in omega arith
  past_kept k (takes went at grants) past =
      let next = next_serial n i c.serial few lt inv.low in let s = went.serial in omega arith
  past_kept k (goes went at ver) past =
      let next = next_serial n i c.serial few lt inv.low in let s = went.serial in omega arith

  still_asked :
      (r : Request)
      → asked c' ≡ asked c
      → (asked c ≡ some r) ⊎ (asked c ≡ none)
      → (asked c' ≡ some r) ⊎ (asked c' ≡ none)
  still_asked r eq now = subst (λ a. (a ≡ some r) ⊎ (a ≡ none)) (sym eq) now

  current_kept :
      (r : Request)
      → Moved e c c'
      → RequestOf c w r
      → request_serial r ≡ c'.serial
      → (asked c' ≡ some r) ⊎ (asked c' ≡ none)
  current_kept r (retries st at same) q s =
      still_asked r (ap (λ p. asked_at p c') at ∙ asked_kept c.pc c c' st same)
        (q.current (s ∙ st.serial))
  current_kept r (yields st at to) q s =
      still_asked r
        (ap (λ p. asked_at p c') to ∙ (locking_kept c c' st ∙ sym (ap (λ p. asked_at p c) at)))
        (q.current (s ∙ st.serial))
  current_kept r (resumes st at to) q s =
      still_asked r
        (ap (λ p. asked_at p c') to ∙ (locking_kept c c' st ∙ sym (ap (λ p. asked_at p c) at)))
        (q.current (s ∙ st.serial))
  current_kept r (rests st at to) q s = inr (resting-asked c'.pc c' to)
  current_kept r (throws st to why) q s = inr (over-asked c'.pc c' to)
  current_kept r (starts at cid h named to) q s = absurd (next_passes (request_serial r) h q.past s)
  current_kept r (takes went at grants) q s =
      absurd (next_passes (request_serial r) went.serial q.past s)
  current_kept r (goes went at ver) q s =
      absurd (next_passes (request_serial r) went.serial q.past s)

  -- A removal of the lock that its sender was giving back.
  Unlocks-kept :
      (k : Text) (v : ℕ)
      → (Removes e c → c.pc ≡ unlocking → Spent c.lock_version (lock c) w)
      → Moved e c c'
      → Unlocks c k v
      → Spent v k w ⊎ Unlocks c' k v
  Unlocks-kept k v truth (retries st at same) (busy, key, ver) =
      inr (at ∙ busy, rw (st.kept.gid) key, st.lock_version ∙ ver)
  Unlocks-kept k v truth (yields st at to) (busy, key, ver) = absurd cc
  Unlocks-kept k v truth (resumes st at to) (busy, key, ver) = absurd cc
  Unlocks-kept k v truth (rests st at to) (busy, key, ver) = absurd (ground arith)
  Unlocks-kept k v truth (throws st to why) (busy, key, ver) =
      inl (rw (← key, ← ver) (truth (why busy) busy))
  Unlocks-kept k v truth (starts at cid h named to) (busy, key, ver) = absurd cc
  Unlocks-kept k v truth (takes went at grants) (busy, key, ver) = absurd cc
  Unlocks-kept k v truth (goes went at same) (busy, key, ver) = absurd (ground arith)

  Kind-kept :
      (r : Request)
      → (Removes e c → c.pc ≡ unlocking → Spent c.lock_version (lock c) w)
      → Moved e c c'
      → Kind r c w
      → Kind r c' w
  Kind-kept (get_request r) truth moved k = tt
  Kind-kept (put_request r) truth moved k = k
  Kind-kept (cas_request r) truth moved k = k
  Kind-kept (remove_request r) truth moved (inl key) = inl key
  Kind-kept (remove_request r) truth moved (inr (v, m, inl spent)) = inr (v, m, inl spent)
  Kind-kept (remove_request r) truth moved (inr (v, m, inr u)) =
      inr (v, m, Unlocks-kept r.key v truth moved u)

  pub Moved-RequestOf :
      (r : Request)
      → (Removes e c → c.pc ≡ unlocking → Spent c.lock_version (lock c) w)
      → Moved e c c'
      → RequestOf c w r
      → RequestOf c' w r
  Moved-RequestOf r truth moved q = record {
    past = past_kept (request_serial r) moved q.past;
    current = current_kept r moved q;
    kind = Kind-kept r truth moved q.kind;
  }

  -- What an answer tells is kept where the client still waits in the same phase.
  tells_locked :
      (m : ModResponse)
      → Stays c c'
      → is_locking c'.pc ≡ is_locking c.pc
      → (is_locking c.pc ≡ true
          → (is_ok m.errcode ≡ true) ⊎ (m.actual ≡ c.value)
          → Owned (lock c) c.value m.version w)
      → is_locking c'.pc ≡ true
      → (is_ok m.errcode ≡ true) ⊎ (m.actual ≡ c'.value)
      → Owned (lock c') c'.value m.version w
  tells_locked m st same told at said =
      let said' = subst (λ x. (is_ok m.errcode ≡ true) ⊎ (m.actual ≡ x)) st.kept.value said in
      let own = told (sym same ∙ at) said' in rw (st.kept.gid, st.kept.value) own

  resting-locking : (pc : Pc) → is_resting pc ≡ true → is_locking pc ≡ false
  resting-locking pc h = ground arith

  over-locking : (pc : Pc) → is_over pc ≡ true → is_locking pc ≡ false
  over-locking pc h = ground arith

  cas_told :
      (m : ModResponse)
      → Moved e c c'
      → ResponseOf c w (cas_response m)
      → m.serial ≡ c'.serial
      → Tells (cas_response m) c' w
  unfolding response_serial
  cas_told m (retries st at same) h s =
      tells_locked m st (ap is_locking at) (h.tells (s ∙ st.serial))
  cas_told m (yields st at to) h s =
      tells_locked m st (ap is_locking to ∙ sym (ap is_locking at)) (h.tells (s ∙ st.serial))
  cas_told m (resumes st at to) h s =
      tells_locked m st (ap is_locking to ∙ sym (ap is_locking at)) (h.tells (s ∙ st.serial))
  cas_told m (rests st at to) h s = λ busy said. let no = resting-locking c'.pc to in absurd cc
  cas_told m (throws st to why) h s = λ busy said. let no = over-locking c'.pc to in absurd cc
  cas_told m (starts at cid q named to) h s = absurd (next_passes m.serial q h.past s)
  cas_told m (takes went at grants) h s = absurd (next_passes m.serial went.serial h.past s)
  cas_told m (goes went at ver) h s = absurd (next_passes m.serial went.serial h.past s)

  remove_told :
      (m : ModResponse)
      → Moved e c c'
      → ResponseOf c w (remove_response m)
      → m.serial ≡ c'.serial
      → Tells (remove_response m) c' w
  unfolding response_serial
  remove_told m (retries st at same) h s =
      λ busy. rw (st.kept.gid, st.lock_version) (h.tells (s ∙ st.serial) (sym at ∙ busy))
  remove_told m (yields st at to) h s = λ busy. absurd cc
  remove_told m (resumes st at to) h s = λ busy. absurd cc
  remove_told m (rests st at to) h s = λ busy. absurd (ground arith)
  remove_told m (throws st to why) h s = λ busy. absurd (ground arith)
  remove_told m (starts at cid q named to) h s = absurd (next_passes m.serial q h.past s)
  remove_told m (takes went at grants) h s = absurd (next_passes m.serial went.serial h.past s)
  remove_told m (goes went at ver) h s = absurd (next_passes m.serial went.serial h.past s)

  Tells-kept :
      (m : Response)
      → Moved e c c'
      → ResponseOf c w m
      → response_serial m ≡ c'.serial
      → Tells m c' w
  unfolding response_serial
  Tells-kept (cas_response m) moved h s = cas_told m moved h s
  Tells-kept (remove_response m) moved h s = remove_told m moved h s
  Tells-kept m moved h s = tt

  pub Moved-ResponseOf : (m : Response) → Moved e c c' → ResponseOf c w m → ResponseOf c' w m
  Moved-ResponseOf m moved h = record {
    past = past_kept (response_serial m) moved h.past;
    tells = Tells-kept m moved h;
  }
