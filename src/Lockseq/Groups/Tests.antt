-- ===== src/Lockseq/Groups/Tests.antt =====
-- `check` on a database of an open and a locked group.
use traxos.Base.{
  ℕ, ◌<◌, ◌≡◌, ◌≢◌, inl, inr, refl, sym, ap, ◌∙◌, Text, none, some, [], ◌∷◌, arith, Bool-cases,
  ◌==◌, text_ordered, All,
}
use mathlib.Core.Path.{subst}
use traxos.Base.Bytes.{codes, decimal}
use traxos.OrdMap.{OrdMap, find, IsSorted}
use traxos.Pancy.Db.{Vv, PancyDb}
use traxos.Lockseq.{check, char_at}
use traxos.Lockseq.Keys.{make_lock_key, make_value_key}
use traxos.Lockseq.Held.{lock_key-group}
use traxos.Lockseq.Keys.{padded}
use traxos.Lockseq.Held.{value_key-group}
use traxos.Lockseq.Client.Names.{value_key-ne-lock_key}
use traxos.Lockseq.Groups.{
  Legal, unlocked, locked, AllKeys, lock_key, value_key, value_of, value_at,
}
use traxos.Lockseq.Groups.Heads.{find-rest}
use traxos.Lockseq.Groups.Slots.{value_keys-ne}
use traxos.Lockseq.Groups.Fronts.{Filled}
use traxos.Lockseq.Groups.Exact.{check-Legal_iff}
use traxos.Lockseq.Groups.Accepts.{check-Legal, foreign_lock, foreign_value}

abbrev mine : Vv
mine = record { value = codes "c3 0a1"; version = 4 }

abbrev other : Vv
other = record { value = codes "c5 fff"; version = 2 }

-- The first group is open. The second one is locked, its first value is written and the next one cleared.
abbrev two_groups : OrdMap Text Vv
two_groups =
    (make_value_key 3 0, other)
    ∷ (make_lock_key 7, mine)
    ∷ (make_value_key 7 0, mine)
    ∷ (make_value_key 7 2, other)
    ∷ []

two_groups-IsSorted : IsSorted two_groups
unfolding decimal
two_groups-IsSorted = ((refl, (refl, (refl, tt))), ((refl, (refl, tt)), ((refl, tt), (tt, tt))))

two_groups-AllKeys : AllKeys two_groups
two_groups-AllKeys = (
  value_key 3 0 (omega arith) (omega arith) refl,
  (
    lock_key 7 (omega arith) refl,
    (
      value_key 7 0 (omega arith) (omega arith) refl,
      (value_key 7 2 (omega arith) (omega arith) refl, tt),
    ),
  ),
)

missing : (j : Text) (m : OrdMap Text Vv) → IsSorted m → All (λ e. j ≢ e.0) m → find j m ≡ none
unfolding find
missing j [] sorted ne = refl
missing j ((k, v) ∷ m) sorted ne = sym (find-rest j k v m sorted ne.0) ∙ missing j m sorted.1 ne.1

no_locks : (g h : ℕ) → h ≢ g → make_lock_key h ≢ make_lock_key g
no_locks g h = foreign_lock g h (make_lock_key g) (codes "lock") (lock_key-group g)

-- No key of another group is there.
elsewhere :
    (h : ℕ) (key : Text)
    → h ≢ 3
    → h ≢ 7
    → ((g : ℕ) → h ≢ g → (key ≢ make_lock_key g) × ((k : ℕ) → key ≢ make_value_key g k))
    → find key two_groups ≡ none
elsewhere h key no3 no7 far =
    missing key two_groups two_groups-IsSorted
      ((far 3 no3).1 0, ((far 7 no7).0, ((far 7 no7).1 0, ((far 7 no7).1 2, tt))))

absent_group : (h : ℕ) → h ≢ 3 → h ≢ 7 → Legal two_groups h
absent_group h no3 no7 =
    unlocked 0 (codes "c")
      (elsewhere h (make_lock_key h) no3 no7
        (λ g ne. (no_locks g h ne, λ k e. value_key-ne-lock_key g k h (sym e))))
      (λ e. cc)
      (λ k small.
        ap value_of (
          elsewhere h (make_value_key h k) no3 no7 (λ g ne. (
            value_key-ne-lock_key h k g,
            λ j. foreign_value g h (make_value_key g j) (118 ∷ padded j) (value_key-group g j) ne k,
          )))
        ∙ ground arith)

gone_3 : (k : ℕ) → k < 1000 → k ≢ 0 → find (make_value_key 3 k) two_groups ≡ none
gone_3 k small ne =
    let far = foreign_value 7 3 in
    missing (make_value_key 3 k) two_groups two_groups-IsSorted (
      value_keys-ne 3 k 0 ne small (omega arith),
      (
        value_key-ne-lock_key 3 k 7,
        (
          far (make_value_key 7 0) (118 ∷ padded 0) (value_key-group 7 0) (λ e. cc) k,
          (far (make_value_key 7 2) (118 ∷ padded 2) (value_key-group 7 2) (λ e. cc) k, tt),
        ),
      ),
    )

gone_7 : (k : ℕ) → k < 1000 → k ≢ 0 → k ≢ 2 → find (make_value_key 7 k) two_groups ≡ none
gone_7 k small ne ne2 = missing (make_value_key 7 k) two_groups two_groups-IsSorted (
  foreign_value 3 7 (make_value_key 3 0) (118 ∷ padded 0) (value_key-group 3 0) (λ e. cc) k,
  (
    value_key-ne-lock_key 7 k 7,
    (value_keys-ne 7 k 0 ne small (omega arith), (value_keys-ne 7 k 2 ne2 small (omega arith), tt)),
  ),
)

at_3 : (k : ℕ) → k ≡ 0 → value_at two_groups 3 k ≡ some other.value
unfolding decimal find
at_3 k e = subst (λ k. value_at two_groups 3 k ≡ some other.value) (sym e) refl

at_7 : (k : ℕ) → k ≡ 0 → value_at two_groups 7 k ≡ some mine.value
unfolding decimal find
at_7 k e = subst (λ k. value_at two_groups 7 k ≡ some mine.value) (sym e) refl

rest_7 : (k : ℕ) → k ≡ 2 → value_at two_groups 7 k ≡ some other.value
unfolding decimal find
rest_7 k e = subst (λ k. value_at two_groups 7 k ≡ some other.value) (sym e) refl

first_group : Legal two_groups 3
unfolding decimal find
first_group =
    unlocked 1 other.value refl (λ e. cc)
      (λ k small. elim (Bool-cases (k == 0)) [
        | inl here ↦ at_3 k (ground arith) ∙ ground arith
        | inr there ↦ ap value_of (gone_3 k small (ground (arith, there))) ∙ ground arith
      ])

second_group : Legal two_groups 7
unfolding decimal find char_at
second_group =
    locked mine 1 2 3 other.value refl (refl, omega arith) (omega arith) (λ e. cc)
      (λ k small. elim (Bool-cases (k == 0)) [
        | inl here ↦ at_7 k (ground arith) ∙ ground arith
        | inr there ↦ elim (Bool-cases (k == 2)) [
          | inl here ↦ rest_7 k (ground arith) ∙ ground arith
          | inr far ↦
              ap value_of (gone_7 k small (ground (arith, there)) (ground (arith, far)))
              ∙ ground arith
        ]
      ])

two_groups-Legal : (h : ℕ) → Legal two_groups h
two_groups-Legal h = elim (Bool-cases (h == 3)) [
  | inl here ↦ let e : 3 ≡ h = ground arith in subst (Legal two_groups) e first_group
  | inr no3 ↦ elim (Bool-cases (h == 7)) [
    | inl here ↦ let e : 7 ≡ h = ground arith in subst (Legal two_groups) e second_group
    | inr no7 ↦ absent_group h (ground (arith, no3)) (ground (arith, no7))
  ]
]

abbrev two_group_db : PancyDb
two_group_db = record { next_version = 6; db = two_groups; recent_removes = [] }

two_groups-Filled : Filled two_groups
two_groups-Filled = (λ e. cc, (λ e. cc, (λ e. cc, (λ e. cc, tt))))

check-Legal_iff_example :
    (check two_group_db ≡ none → (g : ℕ) → Legal two_groups g)
    × (((g : ℕ) → Legal two_groups g) → check two_group_db ≡ none)
check-Legal_iff_example =
    check-Legal_iff two_group_db two_groups-IsSorted two_groups-AllKeys two_groups-Filled

-- Both sides hold of it.
two_groups_accepted : check two_group_db ≡ none
two_groups_accepted =
    check-Legal two_group_db two_groups-IsSorted two_groups-AllKeys two_groups-Legal
