-- ===== src/Pancy/Db.antt =====
-- pset4/pancydb.hh, pset4/pancydb.cc: the versioned database. The methods run in a monad whose
-- state is the database and the static `vv::nonexistent_vv`, and where `none` is undefined
-- behaviour: a read or write through a pointer to no object, or a signed overflow.
pub mod Process
pub mod Spec
pub mod Direct
pub mod Diff
use mathlib.Core.Option
use traxos.Base.{
  ℕ, zero, suc, ◌+◌, ◌^◌, Text, Bool, true, false, Option, none, some, List, [], ◌∷◌, ltb,
  if◌then◌else◌, length, pop_back, text_ordered,
}
use traxos.OrdMap.{OrdMap, find, emplace, assign, erase}
use traxos.Pancy.Msgs.{nonexistent_version}

pub record Vv : Type 0 where
  pub value : Text
  pub version : ℕ

-- The initial value of `vv::nonexistent_vv`.
abbrev pub absent : Vv
absent = record { value = []; version = nonexistent_version }

pub record RecentRemove : Type 0 where
  pub key : Text
  pub vv : Vv
  pub remove_version : ℕ

pub record PancyDb : Type 0 where
  pub next_version : ℕ
  pub db : OrdMap Text Vv
  pub recent_removes : List RecentRemove

-- What a method can write: the database, and the static that all databases share.
pub record World : Type 0 where
  pub nonexistent_vv : Vv
  pub self : PancyDb
  pub open self use *

abbrev pub init : World
init = record {
  nonexistent_vv = absent;
  self = record { next_version = 1; db = []; recent_removes = [] };
}

abbrev pub max_recent_removes : ℕ
max_recent_removes = 100

-- The versions that an `int64_t` holds are below this.
abbrev pub version_limit : ℕ
version_limit = 2 ^ 63

abbrev pub Exec : Type 0 → Type 0
Exec A = World → Option (A × World)

infixl 5 ◌>>=◌ ◌>>◌
abbrev pub ◌>>=◌ : {A B : Type 0} → Exec A → (A → Exec B) → Exec B
◌>>=◌ m f w = elim (m w) [ none ↦ none | some (a, w') ↦ f a w' ]

abbrev pub ◌>>◌ : {A B : Type 0} → Exec A → Exec B → Exec B
m >> n = m >>= λ _. n

abbrev pub pure : {A : Type 0} → A → Exec A
pure a w = some (a, w)

-- `if (b) m else n`
abbrev pub branch : {A : Type 0} → Bool → Exec A → Exec A → Exec A
branch b m n w = if b then m w else n w

-- A `vv*`: null, the static, or the value in the map's entry for a key.
pub data VvPtr : Type 0 where
  null : VvPtr
  nonexistent : VvPtr
  entry : Text → VvPtr

is_null : VvPtr → Bool
is_null null = true
is_null p = false

-- `*p`
pub deref : VvPtr → Exec Vv
deref null w = none
deref nonexistent w = some (w.nonexistent_vv, w)
deref (entry k) w = Option.map (λ v. (v, w)) (find k w.db)

-- `*p = v`
store : VvPtr → Vv → Exec (Unit {0})
store null v w = none
store nonexistent v w = some (tt, record w { nonexistent_vv = v })
store (entry k) v w =
    Option.map (λ _. (tt, record w { self = record (w.self) { db = assign k v w.db } }))
      (find k w.db)

next : Exec ℕ
next w = some (w.next_version, w)

-- `++next_version_`
pub bump : Exec (Unit {0})
bump w =
    if ltb (w.next_version + 1) version_limit
    then some (tt, record w { self = record (w.self) { next_version = w.next_version + 1 } })
    else none

find_vvptr : Text → Exec VvPtr
find_vvptr key w = some (elim (find key w.db) [ none ↦ nonexistent | some _ ↦ entry key ], w)

-- The pair of `db_.emplace(key, vv{value, next_version_})`.
emplace_vvptr : Text → Text → Exec (VvPtr × Bool)
emplace_vvptr key value w =
    let v : Vv = record { value = value; version = w.next_version } in
    let w' = record w { self = record (w.self) { db = emplace key v w.db } } in
    some ((entry key, elim (find key w.db) [ none ↦ true | some _ ↦ false ]), w')

-- `while (size() > max_recent_removes) pop_back()`, with the length as fuel.
evict : ℕ → List RecentRemove → List RecentRemove
evict zero rs = rs
evict (suc fuel) rs =
    let rest = evict fuel (pop_back rs) in if ltb max_recent_removes (length rs) then rest else rs

-- `recent_removes_.emplace_front(*it, next_version_)` and the loop after it.
push_remove : Text → Vv → Exec (Unit {0})
push_remove key v w =
    let rs = record { key = key; vv = v; remove_version = w.next_version } ∷ w.recent_removes in
    some (tt, record w { self = record (w.self) { recent_removes = evict (length rs) rs } })

-- `db_.erase(it)`
erase_entry : Text → Exec (Unit {0})
erase_entry key w = some (tt, record w { self = record (w.self) { db = erase key w.db } })

-- `it` is the entry of `key`.
pub do_remove : Text → Exec (Unit {0})
unfolding deref push_remove erase_entry
do_remove key = do v ← deref (entry key); push_remove key v; bump; erase_entry key
