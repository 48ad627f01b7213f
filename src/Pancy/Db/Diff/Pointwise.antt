-- ===== src/Pancy/Db/Diff/Pointwise.antt =====
-- The loop of `diff` over two iterators, as a condition on each key by itself.
use traxos.Base.{
  ◌≡◌, refl, Text, Bool, false, if◌then◌else◌, Option, none, some, List, [], ◌∷◌, Ordering,
  Ordering-cases, text_cmp, text_cmp_iff, text_cmp_swap, text_ordered, arith, inl, inr,
}
use traxos.Base.Int.{ℤ}
use traxos.OrdMap.{OrdMap, find, same, erase, IsSorted}
use traxos.OrdMap.Laws.{find-erase}
use traxos.Pancy.Db.{Vv, RecentRemove}
use traxos.Pancy.Db.Diff.{find_recent_remove, differ, diff_loop}

module _ (ar br : List RecentRemove) (complete : Bool) (min : ℤ) where
  -- Whether what the two databases have at a key is an error.
  unfoldable pub clash : Text → Option Vv → Option Vv → Bool
  clash k none none = false
  clash k (some v) none = differ complete min (some v) (find_recent_remove br k min)
  clash k none (some w) = differ complete min (find_recent_remove ar k min) (some w)
  clash k (some v) (some w) = differ complete min (some v) (some w)

  abbrev pub Agrees : OrdMap Text Vv → OrdMap Text Vv → Type 0
  Agrees a b = (k : Text) → clash k (find k a) (find k b) ≡ false

find_head : (k : Text) (v : Vv) (m : OrdMap Text Vv) → find k ((k, v) ∷ m) ≡ some v
unfolding find
find_head k v m = ground (arith, text_cmp_iff k k)

find_nil : (k : Text) → find {V = Vv} k [] ≡ none
unfolding find
find_nil k = refl

find_tail :
    (k i : Text) (v : Vv) (m : OrdMap Text Vv)
    → IsSorted ((i, v) ∷ m)
    → find k m ≡ (if same k i then none else find k ((i, v) ∷ m))
unfolding find erase
find_tail k i v m s = ground (arith, text_cmp_iff i i, find-erase k i ((i, v) ∷ m) s)

find_lt :
    (k i : Text) (v : Vv) (m : OrdMap Text Vv)
    → text_cmp k i ≡ Ordering.lt
    → find k ((i, v) ∷ m) ≡ none
unfolding find
find_lt k i v m h = ground arith

module _ (ar br : List RecentRemove) (complete : Bool) (min : ℤ) where
  -- Past the head of the first map, of the second, and of both.
  skip_left :
      (i : Text) (v : Vv) (a b : OrdMap Text Vv)
      → IsSorted ((i, v) ∷ a)
      → find i b ≡ none
      → Agrees ar br complete min ((i, v) ∷ a) b
      → Agrees ar br complete min a b
  unfolding clash
  skip_left i v a b s gone h k = ground (arith, find_tail k i v a s, text_cmp_iff k i, h k)

  skip_right :
      (j : Text) (w : Vv) (a b : OrdMap Text Vv)
      → IsSorted ((j, w) ∷ b)
      → find j a ≡ none
      → Agrees ar br complete min a ((j, w) ∷ b)
      → Agrees ar br complete min a b
  unfolding clash
  skip_right j w a b s gone h k = ground (arith, find_tail k j w b s, text_cmp_iff k j, h k)

  skip_both :
      (i j : Text) (v w : Vv) (a b : OrdMap Text Vv)
      → i ≡ j
      → IsSorted ((i, v) ∷ a)
      → IsSorted ((j, w) ∷ b)
      → Agrees ar br complete min ((i, v) ∷ a) ((j, w) ∷ b)
      → Agrees ar br complete min a b
  unfolding clash
  skip_both i j v w a b e s t h k = ground (arith, find_tail k i v a s, find_tail k j w b t, h k)

  -- The loop finds nothing when no key is an error.
  pub diff_loop-Agrees :
      (a b : OrdMap Text Vv)
      → IsSorted a
      → IsSorted b
      → Agrees ar br complete min a b
      → diff_loop ar br complete min a b ≡ none
  unfolding diff_loop clash
  diff_loop-Agrees [] [] s t h = refl
  diff_loop-Agrees ((i, v) ∷ a) [] s t h = ground (
    arith,
    find_head i v a,
    find_nil i,
    h i,
    diff_loop-Agrees a [] s.1 t (skip_left i v a [] s (find_nil i) h),
  )
  diff_loop-Agrees [] ((j, w) ∷ b) s t h = ground (
    arith,
    find_head j w b,
    find_nil j,
    h j,
    diff_loop-Agrees [] b s t.1 (skip_right j w [] b t (find_nil j) h),
  )
  diff_loop-Agrees ((i, v) ∷ a) ((j, w) ∷ b) s t h = elim (Ordering-cases (text_cmp i j)) [
    | inl lt ↦
        let gone = find_lt i j w b lt in
        let rest = diff_loop-Agrees a ((j, w) ∷ b) s.1 t (skip_left i v a ((j, w) ∷ b) s gone h) in
        ground (arith, find_head i v a, h i)
    | inr (inl eq) ↦
        let e = (text_cmp_iff i j).0 eq in
        let rest = diff_loop-Agrees a b s.1 t.1 (skip_both i j v w a b e s t h) in
        ground (arith, find_head i v a, find_head j w b, h i)
    | inr (inr gt) ↦
        let gone = find_lt j i v a (ground (arith, text_cmp_swap i j)) in
        let rest = diff_loop-Agrees ((i, v) ∷ a) b s t.1 (skip_right j w ((i, v) ∷ a) b t gone h) in
        ground (arith, find_head j w b, h j)
  ]
