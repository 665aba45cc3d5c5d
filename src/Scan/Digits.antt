-- ===== src/Scan/Digits.antt =====
-- Reading the hexadecimal digits that `printf` prints, of either case.
use libusbp.Base.{
  ℕ, ◌+◌, ◌*◌, ◌/◌, ◌%◌, ◌^◌, ◌<◌, ◌≡◌, refl, ap, ◌∙◌, false, ◌||◌, ◌&&◌, some, List, [], ◌∷◌,
  arith, ◌==◌,
}
use libusbp.Print.{hex, digit}
use libusbp.Scan.{
  hex_value, is_space, after_digit, scan_digits, scan_number, scan_signed, read_hex, scan_hex,
}

pub hex_value-digit : (d : ℕ) → d < 16 → hex_value (digit d) ≡ some d
unfolding hex_value digit
hex_value-digit d l = ground arith

is_space_of_digit : (c d : ℕ) → hex_value c ≡ some d → is_space c ≡ false
unfolding hex_value is_space
is_space_of_digit c d h = ground (arith, h)

-- A digit is none of the characters with a meaning of their own.
digit_ne :
    (c d : ℕ)
    → hex_value c ≡ some d
    → (c == b'-' || (c == b'+' || (c == b'x' || c == b'X'))) ≡ false
unfolding hex_value
digit_ne c d h = ground (arith, h)

module _ (p q r s : ℕ) (rest : List ℕ) (a b c d : ℕ) (pa : hex_value p ≡ some a)
    (qb : hex_value q ≡ some b) (rc : hex_value r ≡ some c) (sd : hex_value s ≡ some d)
    (l : ((a * 16 + b) * 16 + c) * 16 + d < 2 ^ 16) where
  abbrev four : List ℕ
  four = p ∷ q ∷ r ∷ s ∷ rest

  abbrev number : ℕ
  number = ((a * 16 + b) * 16 + c) * 16 + d

  scan_digits-four : scan_digits 4 0 false four ≡ some (number, rest)
  unfolding scan_digits after_digit
  scan_digits-four = simp (pa, qb, rc, sd) (ap (λ n. some (n, rest)) (omega arith))

  scan_number-four : scan_number 4 four ≡ some (number, rest)
  unfolding scan_number
  scan_number-four =
      let t : (p == b'0' && (q == b'x' || q == b'X')) ≡ false = ground (arith, digit_ne q b qb) in
      rw t scan_digits-four

  scan_signed-four : scan_signed 4 16 four ≡ some (number, rest)
  unfolding scan_signed
  scan_signed-four =
      let t : (p == b'-') ≡ false = ground (arith, digit_ne p a pa) in
      let u : (p == b'+') ≡ false = ground (arith, digit_ne p a pa) in
      simp (t, u, scan_number-four) (ap (λ n. some (n, rest)) (omega (arith, l)))

  -- Four digits of either case are read as the number, and no more.
  pub read_hex-four : read_hex 4 16 four ≡ some (number, rest)
  unfolding read_hex
  read_hex-four = simp (is_space_of_digit p a pa) scan_signed-four

module _ (n : ℕ) (l : n < 2 ^ 16) where
  pub read_hex-hex : (rest : List ℕ) → read_hex 4 16 (hex 4 n rest) ≡ some (n, rest)
  unfolding hex
  read_hex-hex rest =
      read_hex-four _ _ _ _ rest (n / 16 / 16 / 16 % 16) (n / 16 / 16 % 16) (n / 16 % 16) (n % 16)
        (hex_value-digit _ (omega arith)) (hex_value-digit _ (omega arith))
        (hex_value-digit _ (omega arith)) (hex_value-digit _ (omega arith)) (omega arith)
      ∙ ap (λ n. some (n, rest)) (omega arith)

-- Four hexadecimal digits, as the kernel prints the IDs of a device, are read back as the number.
pub scan_hex-hex : (n : ℕ) → n < 2 ^ 16 → scan_hex 4 16 (hex 4 n []) ≡ some n
unfolding scan_hex
scan_hex-hex n l = simp (read_hex-hex n l []) refl
