-- ===== src/Lockseq/Timely/Moves.antt =====
-- The groups over the steps of the clients.
use traxos.Base.{
  ℕ, ◌+◌, ◌^◌, ◌<◌, ◌≡◌, ◌⊎◌, inl, inr, refl, sym, ap, ◌∙◌, true, none, some, arith, Option-cases,
  Bool-cases, ◌==◌, text_ordered,
}
use mathlib.Core.Path.{subst}
use traxos.Pancy.Msgs.{Response, cas_response, response_serial}
use traxos.Pancy.Db.{Vv}
use traxos.Lockseq.Keys.{make_lock_key}
use traxos.Lockseq.Groups.{IsHolder}
use traxos.Lockseq.Client.{idle, Cstate, nclients, Event, answer, advance, request_of}
use traxos.Lockseq.Client.Locks.{Owned}
use traxos.Lockseq.Client.Moves.{
  is_holding, Moved, retries, yields, resumes, rests, throws, starts, takes, goes,
}
use traxos.Lockseq.Client.Advances.{advance-Moved}
use traxos.Lockseq.Client.Names.{IsValueOf}
use traxos.Lockseq.System.{update, Arrives}
use traxos.Lockseq.System.Invariant.{Inv}
use traxos.Lockseq.System.Acts.{HeldAt-Owned}
use traxos.Lockseq.System.Keeps.{update-elim, update_same, granted}
use traxos.Lockseq.Timely.{Timely, Drawn, InTime}
use traxos.Lockseq.Timely.Status.{PhaseAt, Phase, Owner, free, owned, Draws, TimelyInv}
use traxos.Lockseq.Timely.Events.{Granted, advance-Phase}
use traxos.Lockseq.Timely.Ranges.{advance-Draws}
use traxos.Lockseq.Timely.Serves.{update_other}

same_round :
    (e : Event) (c c' : Cstate)
    → Moved e c c'
    → (c.pc ≡ idle) ⊎ ((c'.gid ≡ c.gid) × (c'.value ≡ c.value))
same_round e c c' (retries s at n) = inr (s.kept.gid, s.kept.value)
same_round e c c' (yields s at to) = inr (s.kept.gid, s.kept.value)
same_round e c c' (resumes s at to) = inr (s.kept.gid, s.kept.value)
same_round e c c' (rests s at to) = inr (s.kept.gid, s.kept.value)
same_round e c c' (throws s at to) = inr (s.kept.gid, s.kept.value)
same_round e c c' (starts at cid serial value to) = inl at
same_round e c c' (takes s at told) = inr (s.kept.gid, s.kept.value)
same_round e c c' (goes s at v) = inr (s.kept.gid, s.kept.value)

answered_serial :
    (msg : Response) (drawn : ℕ) (c c' : Cstate)
    → advance (answer msg drawn) c ≡ some c'
    → response_serial msg ≡ c.serial
unfolding advance
answered_serial msg drawn c c' h = elim (Option-cases (request_of c)) [
  | inl gone ↦ absurd (ground arith)
  | inr (req, asks) ↦ ground arith
]

pub later-Draws : (n : ℕ) (c : Cstate) → Draws n c → Draws (n + 1) c
later-Draws n c d =
    let tries = d.tries in
    record { gid = d.gid; nvalues = d.nvalues; tries = omega arith; value = d.value }

module _ (n : ℕ) (few : n + 1 < 2 ^ 32) (s : Timely) (inv : Inv n s.system)
    (t : TimelyInv n s.system.clients s.system.world s.mail) where
  -- The lock of a group, and what its owner knows of it.
  version_known :
      (i g : ℕ) (v : Vv)
      → Owner s.system.clients s.system.world.db s.mail g i v
      → is_holding (s.system.clients i).pc ≡ true
      → v.version ≡ (s.system.clients i).lock_version
  version_known i g v o h =
      let c = s.system.clients i in
      let own : Owned (make_lock_key c.gid) c.value c.lock_version s.system.world =
        HeldAt-Owned c.pc (make_lock_key c.gid) c.value c.lock_version s.system.world h
          (inv.clients i o.small).holds in
      let there =
        subst (λ g. Owned (make_lock_key g) c.value c.lock_version s.system.world) o.gid own in
      ground (arith, there, o.found)

  told :
      (i g : ℕ) (v : Vv) (e : Event) (c' : Cstate)
      → Owner s.system.clients s.system.world.db s.mail g i v
      → Arrives e s.system
      → advance e (s.system.clients i) ≡ some c'
      → Granted e v (s.system.clients i)
  unfolding response_serial
  told i g v (answer (cas_response r) drawn) c' o came h = λ at said.
      let c = s.system.clients i in
      let own =
        granted n (omega arith) s.system inv i (answer (cas_response r) drawn) r.version o.small
          came at (answered_serial (cas_response r) drawn c c' h, said, refl) in
      let there = subst (λ g. Owned (make_lock_key g) c.value r.version s.system.world) o.gid own in
      ground (arith, there, o.found)
  told i g v e c' o came h = tt

  Owner-acts :
      (i g : ℕ) (v : Vv) (e : Event) (c : Cstate)
      → InTime e (s.mail i)
      → Arrives e s.system
      → advance e (s.system.clients i) ≡ some c
      → Owner s.system.clients s.system.world.db s.mail g i v
      → Owner (update s.system.clients i c) s.system.world.db (update s.mail i none) g i v
  Owner-acts i g v e c now came h o =
      let phase : Phase s.system.world.db g v c none =
        advance-Phase s.system.world.db g v (s.system.clients i) (s.mail i)
          (let tries = (t.draws i o.small).tries in omega arith) (version_known i g v o) o.phase e c
          now (told i g v e c o came h) h in
      let is : c ≡ update s.system.clients i c i = sym (update_same s.system.clients i c) in
      elim (same_round e (s.system.clients i) c (advance-Moved e (s.system.clients i) c h)) [
        | inl at ↦ absurd (
            subst (λ pc. PhaseAt pc s.system.world.db g v (s.system.clients i) (s.mail i)) at
              o.phase)
        | inr (gid, value) ↦ record {
          small = o.small;
          found = o.found;
          value = o.value ∙ (sym value ∙ ap (λ c. c.value) is);
          gid = sym (ap (λ c. c.gid) is) ∙ (gid ∙ o.gid);
          named = subst (λ x. IsValueOf i x) (sym value ∙ ap (λ c. c.value) is) o.named;
          holder = subst (λ x. IsHolder x) (sym value ∙ ap (λ c. c.value) is) o.holder;
          phase =
              subst (λ x. Phase s.system.world.db g v (update s.system.clients i c i) x)
                (sym (update_same s.mail i none))
                (subst (λ c. Phase s.system.world.db g v c none) is phase);
        }
      ]

  pub acted-TimelyInv :
      (i : ℕ) (e : Event) (c : Cstate)
      → i < nclients
      → Drawn e
      → InTime e (s.mail i)
      → Arrives e s.system
      → advance e (s.system.clients i) ≡ some c
      → TimelyInv (n + 1) (update s.system.clients i c) s.system.world (update s.mail i none)
  acted-TimelyInv i e c lt drawn now came h = record {
    draws = λ j jlt.
        update-elim (Draws (n + 1)) s.system.clients i c j
          (λ same. advance-Draws e n (s.system.clients i) c drawn h (t.draws i lt))
          (later-Draws n (s.system.clients j) (t.draws j jlt));
    groups = λ g. elim (t.groups g) [
      | free gone o ↦ free gone o
      | owned j v o ↦ elim (Bool-cases (i == j)) [
        | inl here ↦
            let eq : j ≡ i = ground arith in
            owned i v (
              Owner-acts i g v e c now came h
                (subst (λ j. Owner s.system.clients s.system.world.db s.mail g j v) eq o))
        | inr other ↦
            let is : s.system.clients j ≡ update s.system.clients i c j =
              sym (update_other s.system.clients i j c other) in
            owned j v (record {
              small = o.small;
              found = o.found;
              value = subst (λ c. v.value ≡ c.value) is o.value;
              gid = subst (λ c. c.gid ≡ g) is o.gid;
              named = subst (λ c. IsValueOf j c.value) is o.named;
              holder = subst (λ c. IsHolder c.value) is o.holder;
              phase =
                  subst (λ x. Phase s.system.world.db g v (update s.system.clients i c j) x)
                    (sym (update_other s.mail i j none other))
                    (subst (λ c. Phase s.system.world.db g v c (s.mail j)) is o.phase);
            })
      ]
    ];
    keys = t.keys;
  }
