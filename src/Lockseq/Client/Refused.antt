-- ===== src/Lockseq/Client/Refused.antt =====
-- What a client of pset4/lockseq_model.cc does where the lock has another client's value.
use traxos.Base.{
  ℕ, zero, suc, ◌≡◌, ◌≢◌, inl, inr, refl, sym, ◌∙◌, ap, Text, true, false, none, some, [], ◌∷◌,
  ◌++◌, arith, Bool-cases, take, length, drop, text_eq, text_eq_iff,
}
use mathlib.Core.Path.{subst}
use traxos.Base.Bytes.{codes}
use traxos.Pancy.Msgs.{Errc, no_match, ModResponse, cas_response, response_serial}
use traxos.Lockseq.{starts_with}
use traxos.Lockseq.Keys.{make_client_key}
use traxos.Lockseq.Client.{
  locking, thrown, Cstate, client_key_prefix, lock_response, Event, begin, answer, timeout, delay,
  advance, request_at, received, respond, modification, start_at, resume,
}
use traxos.Lockseq.Client.Names.{IsValueOf, IsValueOf-unique}
use traxos.Pancy.Print.{is_no_match}

pub take-drop : (n : ℕ) (x : Text) → x ≡ take n x ++ drop n x
take-drop zero x = refl
take-drop (suc n) [] = refl
take-drop (suc n) (c ∷ cs) = ap (◌∷◌ c) (take-drop n cs)

starts_with-IsValueOf :
    (i : ℕ) (x : Text) → starts_with x (make_client_key i ++ codes " ") ≡ true → IsValueOf i x
unfolding starts_with
starts_with-IsValueOf i x h =
    let prefix = make_client_key i ++ codes " " in
    let same : take (length prefix) x ≡ prefix =
      (text_eq_iff (take (length prefix) x) prefix).0 h in
    record {
      hex = drop (length prefix) x;
      written = take-drop (length prefix) x ∙ ap (λ t. t ++ drop (length prefix) x) same;
    }

module _ (m : ModResponse) (i j : ℕ) (c : Cstate) (cid : c.cid ≡ i) (own : IsValueOf i c.value)
    (other : IsValueOf j m.actual) (ne : i ≢ j) where
  other_value : text_eq m.actual c.value ≡ false
  other_value = elim (Bool-cases (text_eq m.actual c.value)) [
    | inl same ↦
        let eq = (text_eq_iff m.actual c.value).0 same in
        absurd (ne (IsValueOf-unique i j m.actual (subst (IsValueOf i) (sym eq) own) other))
    | inr differs ↦ differs
  ]

  other_prefix : starts_with m.actual (client_key_prefix c) ≡ false
  other_prefix = elim (Bool-cases (starts_with m.actual (client_key_prefix c))) [
    | inl begins ↦ absurd (
        ne (
          IsValueOf-unique i j m.actual
            (subst (λ k. IsValueOf k m.actual) cid (starts_with-IsValueOf c.cid m.actual begins))
            other))
    | inr differs ↦ differs
  ]

  refused_response : m.errcode ≡ no_match → lock_response m c ≡ record c { pc = thrown no_match }
  unfolding lock_response is_no_match
  refused_response errc = ground (arith, other_value, other_prefix)

pub thrown_stops : (e : Errc) (ev : Event) (c : Cstate) → c.pc ≡ thrown e → advance ev c ≡ none
unfolding advance request_at start_at resume
thrown_stops e (begin gid hex nvalues) c at = rw at refl
thrown_stops e (answer msg drawn) c at = rw at refl
thrown_stops e (timeout drawn) c at = rw at refl
thrown_stops e delay c at = rw at refl

-- A client that asks for a lock, and is refused because the lock has the value of another client,
-- ends with the exception `no_match`, and takes no further step, whatever comes.
pub refused-thrown :
    (m : ModResponse) (drawn i j : ℕ) (c : Cstate)
    → c.pc ≡ locking
    → c.cid ≡ i
    → IsValueOf i c.value
    → m.serial ≡ c.serial
    → m.errcode ≡ no_match
    → IsValueOf j m.actual
    → i ≢ j
    → (advance (answer (cas_response m) drawn) c ≡ some (record c { pc = thrown no_match }))
      × ((ev : Event) → advance ev (record c { pc = thrown no_match }) ≡ none)
unfolding advance received respond modification request_at response_serial
refused-thrown m drawn i j c at cid own same errc other ne = (
  ground (arith, refused_response m i j c cid own other ne errc),
  λ ev. thrown_stops no_match ev (record c { pc = thrown no_match }) refl,
)
