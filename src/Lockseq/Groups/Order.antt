-- ===== src/Lockseq/Groups/Order.antt =====
-- The order of the keys that the clients use.
use traxos.Base.{
  ℕ, ◌+◌, ◌<◌, ◌≡◌, ◌≢◌, inl, inr, refl, sym, ap, ◌∙◌, Text, Ordering, some, Option, [], ◌∷◌, ◌++◌,
  arith, text_cmp, Bool-cases, ◌==◌,
}
use mathlib.Core.List.{append_assoc}
use traxos.Base.Bytes.{codes, decimal, AllDigits, decimal-AllDigits, from_chars, from_chars-decimal}
use traxos.Lockseq.Keys.{make_lock_key, make_value_key, padded}
use traxos.Lockseq.Held.{group, value_key-group}
use traxos.Lockseq.Held.{lock_key-group}

-- `a` stands before `b`.
abbrev pub Before : Text → Text → Type 0
Before a b = text_cmp a b ≡ Ordering.lt

cmp-append : (p a b : Text) → text_cmp (p ++ a) (p ++ b) ≡ text_cmp a b
cmp-append [] a b = refl
cmp-append (c ∷ p) a b = ground (arith, cmp-append p a b)

-- Two numbers that are followed by a slash are told apart before what follows.
cmp_digits :
    (ds es t u : Text)
    → AllDigits ds
    → AllDigits es
    → ds ≢ es
    → text_cmp (ds ++ 47 ∷ t) (es ++ 47 ∷ u) ≡ text_cmp (ds ++ 47 ∷ []) (es ++ 47 ∷ [])
cmp_digits [] [] t u h k ne = absurd (ne refl)
cmp_digits [] (e ∷ es) t u h k ne = ground (arith, k.0)
cmp_digits (d ∷ ds) [] t u h k ne = ground (arith, h.0)
cmp_digits (d ∷ ds) (e ∷ es) t u h k ne = elim (Bool-cases (d == e)) [
  | inr other ↦ ground arith
  | inl same ↦
      let eq : d ≡ e = ground arith in
      let rest : ds ≢ es = λ q. ne (ap (◌∷◌ d) q ∙ ap (λ c. c ∷ es) eq) in
      ground (arith, cmp_digits ds es t u h.1 k.1 rest)
]

decimal_unique : (g h : ℕ) (t u : Text) → decimal g ++ 47 ∷ t ≡ decimal h ++ 47 ∷ u → g ≡ h
decimal_unique g h t u e =
    let read_g = from_chars-decimal (g + h) g (47 ∷ t) (omega arith) refl in
    let read_h = from_chars-decimal (g + h) h (47 ∷ u) (omega arith) refl in
    let same : ◌≡◌ {A = Option (ℕ × Text)} (some (g, 47 ∷ t)) (some (h, 47 ∷ u)) =
      sym read_g ∙ (ap (from_chars (g + h)) e ∙ read_h) in
    cc

tail_of : Text → Text
tail_of [] = []
tail_of (c ∷ cs) = cs

group_text : (g : ℕ) (t : Text) → group g ++ t ≡ 103 ∷ (decimal g ++ 47 ∷ t)
group_text g t = ap (λ x. 103 ∷ x) (append_assoc (decimal g) (codes "/") t)

pub group_unique : (g h : ℕ) (t u : Text) → group g ++ t ≡ group h ++ u → g ≡ h
unfolding tail_of
group_unique g h t u e =
    decimal_unique g h t u (ap tail_of (sym (group_text g t) ∙ (e ∙ group_text h u)))

pub cmp_groups :
    (g h : ℕ) (t u t' u' : Text)
    → g ≢ h
    → text_cmp (group g ++ t) (group h ++ u) ≡ text_cmp (group g ++ t') (group h ++ u')
cmp_groups g h t u t' u' ne =
    let apart : decimal g ≢ decimal h =
      λ e. ne (decimal_unique g h [] [] (ap (λ d. d ++ 47 ∷ []) e)) in
    let flat = λ (t u : Text).
      cmp_digits (decimal g) (decimal h) t u (decimal-AllDigits g) (decimal-AllDigits h) apart in
    let whole : (t u : Text)
        → text_cmp (group g ++ t) (group h ++ u)
          ≡ text_cmp (decimal g ++ 47 ∷ []) (decimal h ++ 47 ∷ []) =
      λ t u.
        ap (λ x. text_cmp x (group h ++ u)) (group_text g t)
        ∙ (ap (text_cmp (103 ∷ (decimal g ++ 47 ∷ t))) (group_text h u) ∙ flat t u) in
    whole t u ∙ sym (whole t' u')

pub lock-Before-value : (g k : ℕ) → Before (make_lock_key g) (make_value_key g k)
lock-Before-value g k =
    ap (λ x. text_cmp x (make_value_key g k)) (lock_key-group g)
    ∙ (ap (text_cmp (group g ++ codes "lock")) (value_key-group g k)
        ∙ cmp-append (group g) (codes "lock") (118 ∷ padded k))

padded-Before : (j k : ℕ) → j < k → k < 1000 → Before (118 ∷ padded j) (118 ∷ padded k)
padded-Before j k lt small = ground arith

pub value-Before : (g j k : ℕ) → j < k → k < 1000 → Before (make_value_key g j) (make_value_key g k)
value-Before g j k lt small =
    ap (λ x. text_cmp x (make_value_key g k)) (value_key-group g j)
    ∙ (ap (text_cmp (group g ++ 118 ∷ padded j)) (value_key-group g k)
        ∙ (cmp-append (group g) (118 ∷ padded j) (118 ∷ padded k) ∙ padded-Before j k lt small))
