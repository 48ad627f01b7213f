-- ===== src/Lockseq/Groups.antt =====
-- The databases that the comment of `lockseq_model::check` describes: groups that are locked or not,
-- each with its values.
pub mod Order
pub mod Heads
pub mod Rounds
pub mod Slots
pub mod Passes
pub mod Accepts
pub mod Reads
pub mod Tails
pub mod Fronts
pub mod Told
pub mod Exact
mod Tests
use traxos.Base.{
  ℕ, ◌+◌, ◌^◌, ◌<◌, ◌≤◌, ◌≡◌, ◌≢◌, ◌⊎◌, Text, Option, none, some, [], ◌∷◌, if◌then◌else◌, ltb,
  length, All, text_ordered,
}
use traxos.OrdMap.{OrdMap, find}
use traxos.Pancy.Db.{Vv}
use traxos.Lockseq.{char_at, unsigned_max}
use traxos.Lockseq.Keys.{make_lock_key, make_value_key}

abbrev pub value_of : Option Vv → Option Text
value_of none = none
value_of (some v) = some v.value

-- The value of index `k` in the group `g`.
abbrev pub value_at : OrdMap Text Vv → ℕ → ℕ → Option Text
value_at m g k = value_of (find (make_value_key g k) m)

-- A sequence of values by its indices: the `a` first ones are `x`, there is a gap up to `b`, and then
-- come values `y` up to `n`.
abbrev pub slot : ℕ → Text → ℕ → ℕ → Text → ℕ → Option Text
slot a x b n y k =
    if ltb k a then some x else if ltb k b then none else if ltb k n then some y else none

-- The group has these values from the index `i` on, and none before.
abbrev pub Slots : OrdMap Text Vv → ℕ → ℕ → (ℕ → Option Text) → Type 0
Slots m g i f = (k : ℕ) → k < 1000 → value_at m g k ≡ (if ltb k i then none else f k)

-- A value of a lock: a client's key and more.
abbrev pub IsHolder : Text → Type 0
IsHolder x = (char_at x 0 ≡ b'c') × (4 ≤ length x)

-- A group that is not locked has values with no gap, all the same. A locked one has first the values of
-- its holder, and then the rest of another sequence, maybe behind a gap.
pub data Legal (m : OrdMap Text Vv) (g : ℕ) : Type 0 where
  unlocked :
      (n : ℕ) (y : Text)
      → find (make_lock_key g) m ≡ none
      → y ≢ []
      → Slots m g 0 (slot 0 [] 0 n y)
      → Legal m g
  locked :
      (v : Vv) (a b n : ℕ) (y : Text)
      → find (make_lock_key g) m ≡ some v
      → IsHolder v.value
      → a ≤ b
      → y ≢ []
      → Slots m g 0 (slot a v.value b n y)
      → Legal m g

-- A key that a client uses.
pub data IsKey (key : Text) : Type 0 where
  lock_key : (g : ℕ) → g < unsigned_max → key ≡ make_lock_key g → IsKey key
  value_key : (g k : ℕ) → g < unsigned_max → k < 1000 → key ≡ make_value_key g k → IsKey key

abbrev pub AllKeys : OrdMap Text Vv → Type 0
AllKeys m = All (λ e. IsKey e.0) m
