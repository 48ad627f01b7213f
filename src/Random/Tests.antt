-- ===== src/Random/Tests.antt =====
-- A string from a generator that counts.
use traxos.Base.{ℕ, ◌+◌, ◌≡◌, refl, Text, some, length, All, arith}
use traxos.Base.Bytes.{codes}
use traxos.Random.{uniform_hex, hex_loop, uniform, format_hex, hex_digits, hex_digit}
use traxos.Random.Hex.{IsHexDigit}
use traxos.Random.Draws.{Ranged, uniform_hex-digits}

abbrev counting : ℕ → ℕ → ℕ → ℕ × ℕ
counting min max e = (min, e + 1)

counting-Ranged : Ranged counting
counting-Ranged min max e le = (omega arith, le)

eleven_zeros : uniform_hex counting 11 0 ≡ some (codes "00000000000", 2)
unfolding uniform_hex hex_loop uniform format_hex hex_digits hex_digit
eleven_zeros = refl

uniform_hex-digits_example :
    (t : Text) × (e' : ℕ) × (uniform_hex counting 11 0 ≡ some (t, e'))
    × All IsHexDigit t
    × (length t ≡ 11)
uniform_hex-digits_example = uniform_hex-digits counting counting-Ranged 11 0
