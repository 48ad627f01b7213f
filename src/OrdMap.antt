-- ===== src/OrdMap.antt =====
-- `std::map`: an association list in the order of its keys, with the operations that the program
-- calls (pset4/pancydb.hh, pset4/tracker/state.cc). The laws are in the modules below.
pub mod Laws
pub mod Values
use traxos.Base.{◌≡◌, Ordering, Ordered, Option, none, some, List, [], ◌∷◌, Bool, true, false}

abbrev pub OrdMap {ℓ κ} : Type ℓ → Type κ → Type (ℓ ⊔ κ)
OrdMap K V = List (K × V)

module _ {ℓ} {K : Type ℓ} ⦃o : Ordered K⦄ where
  -- whether two keys are equivalent
  abbrev pub same : K → K → Bool
  same j k = elim (o.cmp j k) [ Ordering.eq ↦ true | _ ↦ false ]

module _ {ℓ κ} {K : Type ℓ} {V : Type κ} ⦃o : Ordered K⦄ where
  -- `m.find(k)`, as the value found
  unfoldable pub find : K → OrdMap K V → Option V
  find k [] = none
  find k ((j, w) ∷ m) = elim (o.cmp k j) [
    | Ordering.lt ↦ none
    | Ordering.eq ↦ some w
    | Ordering.gt ↦ find k m
  ]

  -- `m.emplace(k, v)`: keeps the value of a key that is there
  pub emplace : K → V → OrdMap K V → OrdMap K V
  emplace k v [] = (k, v) ∷ []
  emplace k v ((j, w) ∷ m) = elim (o.cmp k j) [
    | Ordering.lt ↦ (k, v) ∷ (j, w) ∷ m
    | Ordering.eq ↦ (j, w) ∷ m
    | Ordering.gt ↦ (j, w) ∷ emplace k v m
  ]

  -- `m.find(k)->second = v`: a key that is not there is not added
  pub assign : K → V → OrdMap K V → OrdMap K V
  assign k v [] = []
  assign k v ((j, w) ∷ m) = elim (o.cmp k j) [
    | Ordering.lt ↦ (j, w) ∷ m
    | Ordering.eq ↦ (j, v) ∷ m
    | Ordering.gt ↦ (j, w) ∷ assign k v m
  ]

  -- `m[k] = v`
  unfoldable pub insert_or_assign : K → V → OrdMap K V → OrdMap K V
  insert_or_assign k v [] = (k, v) ∷ []
  insert_or_assign k v ((j, w) ∷ m) = elim (o.cmp k j) [
    | Ordering.lt ↦ (k, v) ∷ (j, w) ∷ m
    | Ordering.eq ↦ (j, v) ∷ m
    | Ordering.gt ↦ (j, w) ∷ insert_or_assign k v m
  ]

  -- `m.erase(k)`
  unfoldable pub erase : K → OrdMap K V → OrdMap K V
  erase k [] = []
  erase k ((j, w) ∷ m) = elim (o.cmp k j) [
    | Ordering.lt ↦ (j, w) ∷ m
    | Ordering.eq ↦ m
    | Ordering.gt ↦ (j, w) ∷ erase k m
  ]

  -- `k` is below every key of the map
  abbrev pub Below : K → OrdMap K V → Type 0
  Below k [] = Unit
  Below k ((j, w) ∷ m) = (o.cmp k j ≡ Ordering.lt) × Below k m

  -- the keys rise strictly
  abbrev pub IsSorted : OrdMap K V → Type 0
  IsSorted [] = Unit
  IsSorted ((j, w) ∷ m) = Below j m × IsSorted m
