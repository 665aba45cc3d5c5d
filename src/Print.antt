-- ===== src/Print.antt =====
-- The conversions of the format strings in the library's messages: %d, %zd, %x with a width, %s.
use libusbp.Base.{
  ℕ, ℤ, pos, negsuc, zero, suc, ◌+◌, ◌-◌, ◌/◌, ◌%◌, List, [], ◌∷◌, ltb, if◌then◌else◌,
}

unfoldable pub digit : ℕ → ℕ
digit d = if ltb d 10 then b'0' + d else b'a' + (d - 10)

-- At most `fuel` digits, the last first in the recursion: 20 digits hold every 64-bit number.
digits_of : ℕ → ℕ → ℕ → List ℕ → List ℕ
unfolding digit
digits_of base zero n rest = rest
digits_of base (suc fuel) n rest =
    let more = digits_of base fuel (n / base) (digit (n % base) ∷ rest) in
    if ltb n base then digit n ∷ rest else more

unfoldable pub decimal : ℕ → List ℕ
unfolding digits_of
decimal n = digits_of 10 20 n []

-- As %x prints it, without a width.
unfoldable pub hexadecimal : ℕ → List ℕ
unfolding digits_of
hexadecimal n = digits_of 16 16 n []

unfoldable pub integer : ℤ → List ℕ
unfolding decimal
integer (pos n) = decimal n
integer (negsuc n) = b'-' ∷ decimal (n + 1)

-- Exactly `width` hexadecimal digits, for a number that has no more.
unfoldable pub hex : ℕ → ℕ → List ℕ → List ℕ
unfolding digit
hex zero n rest = rest
hex (suc width) n rest = hex width (n / 16) (digit (n % 16) ∷ rest)
