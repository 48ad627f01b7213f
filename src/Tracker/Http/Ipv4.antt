-- ===== src/Tracker/Http/Ipv4.antt =====
-- Numbers and addresses of pset4/tracker/http.cc.
use Prim.Native.Nat.{bit_or, bit_and}
use traxos.Base.{
  ℕ, zero, suc, ◌+◌, ◌-◌, ◌*◌, ◌/◌, ◌%◌, ◌^◌, ◌≤◌, ◌<◌, ◌≡◌, refl, Text, if◌then◌else◌, ltb, ◌==◌,
  Option, none, some, [], ◌∷◌, ◌++◌, ap, ◌∙◌, length, arith,
}
use traxos.Base.Int.{ℤ, pos, negsuc}
use traxos.Base.Bits.{bit_or_byte, bit_and_byte}
use traxos.Base.Bytes.{
  from_chars, decimal, from_chars-decimal, length-decimal-pos, AllDigits, decimal-AllDigits,
}
use mathlib.Core.Option
use mathlib.Core.List.{append_assoc, append-nil}

abbrev whole {ℓ} : {A : Type ℓ} → A × Text → Option A
whole (n, []) = some n
whole (n, c ∷ cs) = none

-- `parse_number<T>` of an unsigned type whose greatest value is `max`: the whole text is the number.
unfoldable pub parse_number : ℕ → Text → Option ℕ
parse_number max value = elim (from_chars max value) [ none ↦ none | some parsed ↦ whole parsed ]

-- -n
abbrev negated : ℕ → ℤ
negated zero = pos 0
negated (suc n) = negsuc n

-- `parse_number<int32_t>`: a minus sign may stand in front.
pub parse_int32 : Text → Option ℤ
parse_int32 [] = none
parse_int32 (c ∷ cs) =
    if c == b'-'
    then Option.map negated (parse_number (2 ^ 31) cs)
    else Option.map pos (parse_number (2 ^ 31 - 1) (c ∷ cs))

-- `find('.', start)` in what is left of the text: the part before the dot, and what is left behind
-- it, or `none` where there is no dot.
cut : Text → Text × Option Text
cut [] = ([], none)
cut (c ∷ cs) =
    let (part, behind) = cut cs in if c == b'.' then ([], some cs) else (c ∷ part, behind)

-- The loop of `parse_ipv4`, over the rounds left; `start` is the text from `start` on. With no dot
-- `dot + 1` wraps to 0, the whole text.
ipv4_loop : ℕ → Text → Text → ℕ → Option (ℕ × Text)
unfolding cut
ipv4_loop zero dotted start ip = some (ip, start)
ipv4_loop (suc rounds) dotted start ip =
    let (text, behind) = cut start in
    elim (parse_number (2 ^ 32 - 1) text) [
      | none ↦ none
      | some part ↦
          let rest =
            ipv4_loop rounds dotted (Option.get_or behind dotted)
              (bit_or (ip * 2 ^ 8 % 2 ^ 32) part) in
          if ltb 255 part then none else rest
    ]

pub parse_ipv4 : Text → Option ℕ
parse_ipv4 value =
    let dotted = value ++ (b'.' ∷ []) in
    elim (ipv4_loop 4 dotted dotted 0) [ none ↦ none | some parsed ↦ whole parsed ]

abbrev octet : ℕ → ℕ → ℕ
octet ip shift = bit_and (ip / 2 ^ shift) 0xff

pub format_ipv4 : ℕ → Text
format_ipv4 ip =
    decimal (octet ip 24)
    ++ (b'.' ∷ decimal (octet ip 16)
        ++ (b'.' ∷ decimal (octet ip 8) ++ (b'.' ∷ decimal (octet ip 0))))

cut-append : (xs ys : Text) → AllDigits xs → cut (xs ++ b'.' ∷ ys) ≡ (xs, some ys)
unfolding cut
cut-append [] ys d = refl
cut-append (x ∷ xs) ys d = ground (arith, d.0, cut-append xs ys d.1)

pub parse_number-decimal : (max n : ℕ) → n ≤ max → parse_number max (decimal n) ≡ some n
unfolding parse_number
parse_number-decimal max n h =
    ground (arith, from_chars-decimal max n [] h tt, append-nil (decimal n))

-- One round reads one printed octet.
ipv4_round :
    (rounds : ℕ) (dotted rest : Text) (ip n : ℕ)
    → n < 256
    → ip < 2 ^ 24
    → ipv4_loop (suc rounds) dotted (decimal n ++ b'.' ∷ rest) ip
      ≡ ipv4_loop rounds dotted rest (ip * 256 + n)
unfolding ipv4_loop
ipv4_round rounds dotted rest ip n small fits =
    let shifted : ip * 2 ^ 8 % 2 ^ 32 ≡ ip * 256 = omega arith in
    ground (
      arith,
      cut-append (decimal n) rest (decimal-AllDigits n),
      parse_number-decimal (2 ^ 32 - 1) n (omega arith),
      bit_or_byte ip n small,
    )

abbrev dotted_quad : ℕ → ℕ → ℕ → ℕ → Text → Text
dotted_quad a b c d rest =
    decimal a ++ (b'.' ∷ decimal b ++ (b'.' ∷ decimal c ++ (b'.' ∷ decimal d ++ rest)))

dotted_quad-append :
    (a b c d : ℕ) → dotted_quad a b c d [] ++ (b'.' ∷ []) ≡ dotted_quad a b c d (b'.' ∷ [])
dotted_quad-append a b c d = simp append_assoc

ipv4_loop_end : (dotted : Text) (ip : ℕ) → ipv4_loop 0 dotted [] ip ≡ some (ip, [])
unfolding ipv4_loop
ipv4_loop_end dotted ip = refl

parse_ipv4_quad :
    (a b c d : ℕ)
    → a < 256
    → b < 256
    → c < 256
    → d < 256
    → parse_ipv4 (dotted_quad a b c d []) ≡ some (((a * 256 + b) * 256 + c) * 256 + d)
unfolding parse_ipv4
parse_ipv4_quad a b c d ha hb hc hd =
    let dotted = dotted_quad a b c d (b'.' ∷ []) in
    let one = (0 * 256) + a in
    let two = one * 256 + b in
    let three = two * 256 + c in
    ground (
      arith,
      dotted_quad-append a b c d,
      ipv4_round 3 dotted (decimal b ++ (b'.' ∷ decimal c ++ (b'.' ∷ decimal d ++ (b'.' ∷ [])))) 0 a
          ha (omega arith),
      ipv4_round 2 dotted (decimal c ++ (b'.' ∷ decimal d ++ (b'.' ∷ []))) one b hb (omega arith),
      ipv4_round 1 dotted (decimal d ++ (b'.' ∷ [])) two c hc (omega arith),
      ipv4_round 0 dotted [] three d hd (omega arith),
      ipv4_loop_end dotted (three * 256 + d),
    )

octet-lt : (ip shift : ℕ) → octet ip shift < 256
octet-lt ip shift = omega (arith, bit_and_byte (ip / 2 ^ shift))

format_ipv4-quad :
    (ip : ℕ) → format_ipv4 ip ≡ dotted_quad (octet ip 24) (octet ip 16) (octet ip 8) (octet ip 0) []
unfolding format_ipv4
format_ipv4-quad ip = rw (append-nil (decimal (octet ip 0)))

octets :
    (ip : ℕ)
    → ip < 2 ^ 32
    → ((octet ip 24 * 256 + octet ip 16) * 256 + octet ip 8) * 256 + octet ip 0 ≡ ip
octets ip h = omega (
  arith,
  bit_and_byte (ip / 2 ^ 24),
  bit_and_byte (ip / 2 ^ 16),
  bit_and_byte (ip / 2 ^ 8),
  bit_and_byte (ip / 2 ^ 0),
)

-- A printed 32-bit address reads back.
pub parse_ipv4-format_ipv4 : (ip : ℕ) → ip < 2 ^ 32 → parse_ipv4 (format_ipv4 ip) ≡ some ip
parse_ipv4-format_ipv4 ip h = ground (
  arith,
  format_ipv4-quad ip,
  octets ip h,
  parse_ipv4_quad (octet ip 24) (octet ip 16) (octet ip 8) (octet ip 0) (octet-lt ip 24)
      (octet-lt ip 16) (octet-lt ip 8) (octet-lt ip 0),
)

-- A printed `int32_t`.
abbrev pub signed : ℤ → Text
signed (pos n) = decimal n
signed (negsuc n) = b'-' ∷ decimal (suc n)

abbrev pub IsInt32 : ℤ → Type 0
IsInt32 (pos n) = n < 2 ^ 31
IsInt32 (negsuc n) = n < 2 ^ 31

unsigned_text :
    (n : ℕ) (t : Text)
    → t ≡ decimal n
    → AllDigits t
    → 0 < length t
    → n < 2 ^ 31
    → parse_int32 t ≡ some (pos n)
unfolding parse_int32
unsigned_text n [] e d h small = absurd (omega arith)
unsigned_text n (c ∷ cs) e d h small =
    let read = parse_number-decimal (2 ^ 31 - 1) n (omega arith) in
    let same : parse_number (2 ^ 31 - 1) (c ∷ cs) ≡ some n =
      ap (parse_number (2 ^ 31 - 1)) e ∙ read in
    ground (arith, d.0, same)

pub parse_int32-signed : (z : ℤ) → IsInt32 z → parse_int32 (signed z) ≡ some z
unfolding parse_int32
parse_int32-signed (pos n) h =
    unsigned_text n (decimal n) refl (decimal-AllDigits n) (length-decimal-pos n) h
parse_int32-signed (negsuc n) h = rw (parse_number-decimal (2 ^ 31) (suc n) (omega arith)) refl
