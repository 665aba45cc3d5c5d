-- ===== src/Scan.antt =====
-- The conversions of `sscanf` that src/linux/udev_linux.c uses: %hx and %hhx with a width.
pub mod Digits
use libusbp.Base.{
  ℕ, zero, suc, ◌+◌, ◌-◌, ◌*◌, ◌%◌, ◌^◌, ◌<◌, ◌≡◌, Bool, true, false, ◌||◌, ◌&&◌, Option, none,
  some, List, [], ◌∷◌, ltb, leb, ◌==◌, if◌then◌else◌,
}

-- `isspace` in the C locale.
unfoldable pub is_space : ℕ → Bool
is_space c = c == b' ' || (leb 9 c && leb c 13)

unfoldable pub hex_value : ℕ → Option ℕ
hex_value c =
    if leb b'0' c && leb c b'9'
    then some (c - b'0')
    else if leb b'a' c && leb c b'f'
    then some (c - b'a' + 10)
    else if leb b'A' c && leb c b'F'
    then some (c - b'A' + 10)
    else none

-- A number and the characters behind it.
abbrev pub Read : Type 0
Read = ℕ × List ℕ

abbrev seen_value : Bool → ℕ → List ℕ → Option Read
seen_value true value s = some (value, s)
seen_value false value s = none

-- What was read so far if there is no digit, and else what follows it.
unfoldable pub after_digit : Option ℕ → Option Read → (ℕ → Option Read) → Option Read
after_digit none now more = now
after_digit (some d) now more = more d

-- Up to `width` more digits behind `value`, of which at least one in all.
unfoldable pub scan_digits : (width value : ℕ) → (seen : Bool) → List ℕ → Option Read
scan_digits zero value seen s = seen_value seen value s
scan_digits (suc width) value seen [] = seen_value seen value []
scan_digits (suc width) value seen (c ∷ s) =
    after_digit (hex_value c) (seen_value seen value (c ∷ s))
      (λ d. scan_digits width (value * 16 + d) true s)

-- A number may begin with 0x, which the width counts.
unfoldable pub scan_number : (width : ℕ) → List ℕ → Option Read
unfolding scan_digits
scan_number width (c ∷ x ∷ s) =
    if leb 2 width && (c == b'0' && (x == b'x' || x == b'X'))
    then scan_digits (width - 2) 0 false s
    else scan_digits width 0 false (c ∷ x ∷ s)
scan_number width s = scan_digits width 0 false s

abbrev negated : (bits : ℕ) → Option Read → Option Read
negated bits none = none
negated bits (some (value, s)) = some ((2 ^ bits - value % 2 ^ bits) % 2 ^ bits, s)

abbrev wrapped : (bits : ℕ) → Option Read → Option Read
wrapped bits none = none
wrapped bits (some (value, s)) = some (value % 2 ^ bits, s)

-- A sign counts in the width too, and a negative number wraps around.
unfoldable pub scan_signed : (width bits : ℕ) → List ℕ → Option Read
unfolding scan_number
scan_signed width bits [] = none
scan_signed width bits (c ∷ s) =
    if c == b'-'
    then negated bits (scan_number (width - 1) s)
    else if c == b'+'
    then wrapped bits (scan_number (width - 1) s)
    else wrapped bits (scan_number width (c ∷ s))

-- Space in front of the number is skipped.
unfoldable pub read_hex : (width bits : ℕ) → List ℕ → Option Read
unfolding scan_signed
read_hex width bits [] = none
read_hex width bits (c ∷ s) =
    let rest = read_hex width bits s in if is_space c then rest else scan_signed width bits (c ∷ s)

abbrev value_of : Option Read → Option ℕ
value_of none = none
value_of (some (value, s)) = some value

unfoldable pub scan_hex : (width bits : ℕ) → List ℕ → Option ℕ
unfolding read_hex
scan_hex width bits s = value_of (read_hex width bits s)
