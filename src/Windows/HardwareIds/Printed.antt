-- ===== src/Windows/HardwareIds/Printed.antt =====
-- The hardware ID that Windows makes for a USB device.
use libusbp.Base.{ℕ, ◌^◌, ◌/◌, ◌%◌, ◌<◌, ◌≡◌, refl, ap, ◌∙◌, some, List, [], ◌++◌, arith, text}
use libusbp.Print.{hex, digit}
use libusbp.Scan.{read_hex, hex_value}
use libusbp.Scan.Digits.{read_hex-four}
use libusbp.Windows.HardwareIds.{
  capital, capitalize, literal, read_after, field, Ids, with_revision, with_product_id,
  with_vendor_id, scan_ids,
}

-- The ID with its numbers in four digits each, in any case of the letters.
abbrev pub hardware_id : Ids → List ℕ
hardware_id ids =
    text "USB\\Vid_"
    ++ hex 4 ids.vendor_id
        (text "&Pid_" ++ hex 4 ids.product_id (text "&Rev_" ++ hex 4 ids.revision []))

hex_value-capital : (d : ℕ) → d < 16 → hex_value (capital (digit d)) ≡ some d
unfolding hex_value digit
hex_value-capital d l = ground arith

capitalize-hex :
    (n : ℕ) (rest : List ℕ)
    → n < 2 ^ 16
    → read_hex 4 16 (capitalize (hex 4 n rest)) ≡ some (n, capitalize rest)
unfolding hex capitalize
capitalize-hex n rest l =
    read_hex-four _ _ _ _ (capitalize rest) (n / 16 / 16 / 16 % 16) (n / 16 / 16 % 16) (n / 16 % 16)
      (n % 16) (hex_value-capital _ (omega arith)) (hex_value-capital _ (omega arith))
      (hex_value-capital _ (omega arith)) (hex_value-capital _ (omega arith)) (omega arith)
    ∙ ap (λ n. some (n, capitalize rest)) (omega arith)

-- Once its letters are capital, the hardware ID `USB\Vid_...&Pid_...&Rev_...` with three 16-bit
-- numbers, each printed as four hexadecimal digits with small letters, gives back these as the vendor
-- ID, the product ID and the revision.
pub scan_ids-hardware_id :
    (ids : Ids)
    → ids.vendor_id < 2 ^ 16
    → ids.product_id < 2 ^ 16
    → ids.revision < 2 ^ 16
    → scan_ids (capitalize (hardware_id ids)) ≡ some ids
unfolding scan_ids with_vendor_id with_product_id with_revision field read_after literal capitalize
scan_ids-hardware_id ids lv lp lr =
    simp
      (
        capitalize-hex ids.vendor_id
            (text "&Pid_" ++ hex 4 ids.product_id (text "&Rev_" ++ hex 4 ids.revision [])) lv,
        capitalize-hex ids.product_id (text "&Rev_" ++ hex 4 ids.revision []) lp,
        capitalize-hex ids.revision [] lr,
      )
      refl
