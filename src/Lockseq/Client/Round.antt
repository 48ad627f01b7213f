-- ===== src/Lockseq/Client/Round.antt =====
-- A round of a client of pset4/lockseq_model.cc that has the leader to itself.
use traxos.Base.{
  ℕ, zero, suc, ◌+◌, ◌*◌, ◌-◌, ◌≤◌, ◌<◌, ◌≡◌, ◌≢◌, inl, inr, refl, sym, ◌∙◌, ap, Text, [], ◌++◌,
  arith, text_ordered, text_cmp_iff, ◌==◌, Bool-cases, Option-cases,
}
use mathlib.Core.Path.{subst}
use traxos.Base.Int.{pos}
use traxos.Pancy.Msgs.{
  any_version, put_request, cas_request, remove_request, response_errcode, PutRequest,
  RemoveRequest,
}
use traxos.Pancy.Db.{World, absent}
use traxos.OrdMap.{find}
use traxos.Pancy.Db.Spec.{view, step}
use traxos.Pancy.Db.Spec.Valid.{IsValid}
use traxos.Lockseq.Client.Locks.{Owned}
use traxos.Pancy.Db.Spec.Effects.{view-step}
use traxos.Lockseq.Keys.{make_lock_key, make_value_key}
use traxos.Lockseq.Client.{
  Cstate, idle, writing, write_delay, clearing, clear_delay, max_sequence_length, next_request,
  write_loop, clear_loop, unlock_phase, write_phase, begin_round, client_key_prefix,
}
use traxos.Pancy.Db.Spec.Keeps.{step-IsValid}
use traxos.Lockseq.Client.Turns.{
  Comes, Comes-now, Comes-turn, put_of, put-turn, write_delay-turn, clear_delay-turn, clear_of,
  clear-turn_gone, clear-turn_found, unlock_of, unlock-turn, lock_of, lock-turn, Comes-le,
}
use traxos.Lockseq.Client.Served.{step_elsewhere, put_here, remove_here, value_key-ne, lock_key-ne}

-- The round is over: the lock is free, and the first keys of the group have the value.
pub record Over (gid : ℕ) (value : Text) (nvalues unlocks : ℕ) (s : Cstate × World) : Type 0 where
  pub at : s.0.pc ≡ idle
  pub group : s.0.gid ≡ gid
  pub text : s.0.value ≡ value
  pub counted : s.0.unlock_complete ≡ unlocks
  pub valid : IsValid s.1
  pub free : view s.1 (make_lock_key s.0.gid) ≡ absent
  pub written : (m : ℕ) → m < nvalues → (view s.1 (make_value_key s.0.gid m)).value ≡ s.0.value

-- In the round, with the lock, and `k` values written.
record During (gid : ℕ) (value : Text) (nvalues unlocks k : ℕ) (c : Cstate) (w : World)
    : Type 0 where
  group : c.gid ≡ gid
  text : c.value ≡ value
  many : c.nvalues ≡ nvalues
  counts : c.unlock_complete + 1 ≡ unlocks
  valid : IsValid w
  owned : Owned (make_lock_key c.gid) c.value c.lock_version w
  written : (m : ℕ) → m < k → (view w (make_value_key c.gid m)).value ≡ c.value

module _ (gid : ℕ) (value : Text) (full : value ≢ []) (nvalues unlocks : ℕ)
    (few : nvalues ≤ max_sequence_length) where
  unlock-Over :
      (c : Cstate) (w : World)
      → During gid value nvalues unlocks nvalues c w
      → Comes 1 (Over gid value nvalues unlocks) (unlock_phase c, w)
  unfolding unlock_phase next_request
  unlock-Over c w d =
      let own = d.owned in
      let text = d.text in
      elim (Option-cases (find (make_lock_key c.gid) w.db)) [
        | inl gone ↦ absurd (full (ground arith))
        | inr (old, found) ↦
            let same : old.version ≡ c.lock_version = ground arith in
            let r = unlock_of (unlock_phase c) in
            Comes-turn 0 1 _ _ _ (unlock-turn c w old found same)
              (Comes-now 0 _ _ (record {
                at = refl;
                group = d.group;
                text = d.text;
                counted = d.counts;
                valid = step-IsValid (remove_request r) w d.valid;
                free = remove_here r w old d.valid found (ap pos (sym same));
                written = λ m lt.
                    ap (λ v. v.value)
                      (step_elsewhere (remove_request r) w (make_value_key c.gid m) d.valid
                        (λ e. lock_key-ne c.gid m (sym e)))
                    ∙ d.written m lt;
              }))
              (omega arith)
      ]

  During-moved :
      (k : ℕ) (c c' : Cstate) (w : World)
      → c'.gid ≡ c.gid
      → c'.value ≡ c.value
      → c'.nvalues ≡ c.nvalues
      → c'.lock_version ≡ c.lock_version
      → c'.unlock_complete ≡ c.unlock_complete
      → During gid value nvalues unlocks k c w
      → During gid value nvalues unlocks k c' w
  During-moved k c c' w e f g h u d = record {
    group = e ∙ d.group;
    text = f ∙ d.text;
    many = g ∙ d.many;
    counts = ap (λ (n : ℕ). n + 1) u ∙ d.counts;
    valid = d.valid;
    owned = rw (e, f, h) d.owned;
    written = λ m lt. rw (e, f) (d.written m lt);
  }

  During-removed :
      (c : Cstate) (w : World) (r : RemoveRequest)
      → r.key ≡ make_value_key c.gid c.n
      → nvalues ≤ c.n
      → c.n < max_sequence_length
      → During gid value nvalues unlocks nvalues c w
      → During gid value nvalues unlocks nvalues c (step (remove_request r) w).1
  During-removed c w r key past small d = record {
    group = d.group;
    text = d.text;
    many = d.many;
    counts = d.counts;
    valid = step-IsValid (remove_request r) w d.valid;
    owned =
        step_elsewhere (remove_request r) w (make_lock_key c.gid) d.valid
          (λ e. lock_key-ne c.gid c.n (e ∙ key))
        ∙ d.owned;
    written = λ m lt.
        ap (λ v. v.value)
          (step_elsewhere (remove_request r) w (make_value_key c.gid m) d.valid
            (λ e. value_key-ne c.gid m c.n (omega arith) (omega arith) (e ∙ key)))
        ∙ d.written m lt;
  }

  During-put :
      (c : Cstate) (w : World) (r : PutRequest)
      → r.key ≡ make_value_key c.gid c.n
      → r.value ≡ c.value
      → r.version_match ≡ any_version
      → During gid value nvalues unlocks c.n c w
      → During gid value nvalues unlocks (c.n + 1) c (step (put_request r) w).1
  During-put c w r key own any d = record {
    group = d.group;
    text = d.text;
    many = d.many;
    counts = d.counts;
    valid = step-IsValid (put_request r) w d.valid;
    owned =
        step_elsewhere (put_request r) w (make_lock_key c.gid) d.valid
          (λ e. lock_key-ne c.gid c.n (e ∙ key))
        ∙ d.owned;
    written = λ m lt.
        put_here r w (make_value_key c.gid m) d.valid any (elim (Bool-cases (m == c.n)) [
          | inl last ↦
              let eq : m ≡ c.n = ground arith in inl (ap (make_value_key c.gid) eq ∙ sym key)
          | inr before ↦ inr (d.written m (ground arith) ∙ sym own)
        ])
        ∙ own;
  }

  -- The loop that clears, with `left` keys to go.
  clear-Over :
      (left : ℕ) (c : Cstate) (w : World)
      → c.n + left ≡ max_sequence_length
      → nvalues ≤ c.n
      → During gid value nvalues unlocks nvalues c w
      → Comes (2 * left + 1) (Over gid value nvalues unlocks) (clear_loop c, w)
  unfolding clear_loop next_request
  clear-Over zero c w sum past d =
      let to : clear_loop c ≡ unlock_phase c = ground arith in rw to (unlock-Over c w d)
  clear-Over (suc left) c w sum past d =
      let to : clear_loop c ≡ next_request clearing c = ground arith in
      rw to (elim (Option-cases (find (make_value_key c.gid c.n) w.db)) [
        | inl gone ↦
            Comes-turn 1 _ _ _ _ (clear-turn_gone c w gone)
              (unlock-Over (next_request clearing c) w
                (During-moved nvalues c _ w refl refl refl refl refl d))
              (omega arith)
        | inr (old, found) ↦
            let r = clear_of (next_request clearing c) in
            let w' = (step (remove_request r) w).1 in
            let c' = record (next_request clearing c) { n = c.n + 1; pc = clear_delay } in
            Comes-turn (2 * left + 2) _ _ _ _ (clear-turn_found c w old found)
              (Comes-turn (2 * left + 1) _ _ _ _ (clear_delay-turn c' w' refl)
                (clear-Over left c' w' (omega arith) (omega arith) (
                  During-moved nvalues c c' w' refl refl refl refl refl
                    (During-removed c w r refl past (omega arith) d)))
                (omega arith))
              (omega arith)
      ])

  write-Over :
      (left : ℕ) (c : Cstate) (w : World)
      → c.n + left ≡ nvalues
      → During gid value nvalues unlocks c.n c w
      → Comes
          (2 * left + (2 * max_sequence_length + 1))
          (Over gid value nvalues unlocks)
          (write_loop c, w)
  unfolding write_loop next_request
  write-Over zero c w sum d =
      let many = d.many in
      let c' : Cstate = record c { write_complete = c.write_complete + 1 } in
      let to : write_loop c ≡ clear_loop c' = ground arith in
      let all : c.n ≡ nvalues = omega arith in
      rw to (
        Comes-le (2 * (max_sequence_length - nvalues) + 1) _ _ _ (omega arith) (
          clear-Over (max_sequence_length - nvalues) c' w (omega arith) (omega arith) (
            During-moved nvalues c c' w refl refl refl refl refl
              (subst (λ k. During gid value nvalues unlocks k c w) all d))))
  write-Over (suc left) c w sum d =
      let many = d.many in
      let to : write_loop c ≡ next_request writing c = ground arith in
      let r = put_of (next_request writing c) in
      let w' = (step (put_request r) w).1 in
      let c' = record (next_request writing c) { n = c.n + 1; pc = write_delay } in
      rw to (
        Comes-turn (2 * left + 202) _ _ _ _ (put-turn c w)
          (Comes-turn (2 * left + 201) _ _ _ _ (write_delay-turn c' w' refl)
            (write-Over left c' w' (omega arith) (
              During-moved (c.n + 1) c c' w' refl refl refl refl refl
                (During-put c w r refl refl refl d)))
            (omega arith))
          (omega arith))

-- The client has the lock after its first turn.
locked-During :
    (c : Cstate) (w : World) (gid nvalues : ℕ) (hex : Text)
    → IsValid w
    → view w (make_lock_key gid) ≡ absent
    → During gid
        (client_key_prefix c ++ hex)
        nvalues
        (c.unlock_complete + 1)
        0
        (record (begin_round gid hex nvalues c) {
          lock_version = w.next_version;
          lock_complete = c.lock_complete + 1;
          n = 0;
        })
        (step (cas_request (lock_of (begin_round gid hex nvalues c))) w).1
unfolding begin_round next_request step response_errcode
locked-During c w gid nvalues hex v free =
    let r = lock_of (begin_round gid hex nvalues c) in
    record {
      group = refl;
      text = refl;
      many = refl;
      counts = refl;
      valid = step-IsValid (cas_request r) w v;
      owned = ground (
        arith,
        view-step (cas_request r) w (make_lock_key gid) v,
        text_cmp_iff (make_lock_key gid) (make_lock_key gid),
      );
      written = λ m lt. absurd (omega arith);
    }

-- From a valid database in which the lock of a group is free, a client that begins a round on the
-- group, with no more values than the maximal length, and whose requests are answered at once and
-- whose delays end, ends the round in a bounded number of events: twice the values, twice the
-- maximal length, and two. It has then counted the unlock, the lock is free again, and each of the
-- keys of its values has its value.
pub begin_round-Over :
    (c : Cstate) (w : World) (gid nvalues : ℕ) (hex : Text)
    → IsValid w
    → view w (make_lock_key gid) ≡ absent
    → nvalues ≤ max_sequence_length
    → Comes
        (2 * nvalues + (2 * max_sequence_length + 2))
        (Over gid (client_key_prefix c ++ hex) nvalues (c.unlock_complete + 1))
        (begin_round gid hex nvalues c, w)
unfolding begin_round next_request write_phase
begin_round-Over c w gid nvalues hex v free few =
    let full : client_key_prefix c ++ hex ≢ [] = λ e. cc in
    let c' = record (begin_round gid hex nvalues c) {
      lock_version = w.next_version;
      lock_complete = c.lock_complete + 1;
      n = 0;
    } in
    let w' = (step (cas_request (lock_of (begin_round gid hex nvalues c))) w).1 in
    Comes-turn (2 * nvalues + (2 * max_sequence_length + 1)) _ _ _ _
      (lock-turn (begin_round gid hex nvalues c) w refl (ap (λ v. v.value) free))
      (write-Over gid (client_key_prefix c ++ hex) full nvalues (c.unlock_complete + 1) few nvalues
        c' w' (omega arith) (locked-During c w gid nvalues hex v free))
      (omega arith)
