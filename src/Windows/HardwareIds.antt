-- ===== src/Windows/HardwareIds.antt =====
-- src/windows/device_windows.c: what is read from the hardware IDs of a device. They are the bytes of
-- a REG_MULTI_SZ value: strings that end with 0, and an empty one at the end.
pub mod Walk
pub mod Ends
pub mod Printed
use libusbp.Base.{
  ℕ, ◌-◌, zero, suc, Bool, true, false, ◌&&◌, Option, none, some, List, [], ◌∷◌, map, text, leb,
  ◌==◌, if◌then◌else◌,
}
use libusbp.Scan.{Read, read_hex}

abbrev pub capital : ℕ → ℕ
capital c = if leb b'a' c && leb c b'z' then c - (b'a' - b'A') else c

-- The loop of `device_get_hardware_ids` that makes letters capital.
unfoldable pub capitalize : List ℕ → List ℕ
capitalize [] = []
capitalize (c ∷ s) = capital c ∷ capitalize s

-- The characters of a string, which ends before the first 0.
unfoldable pub string_at : List ℕ → List ℕ
string_at [] = []
string_at (c ∷ s) = let rest = string_at s in if c == 0 then [] else c ∷ rest

-- Literal characters of a format of `sscanf`, and what is left behind them.
unfoldable pub literal : List ℕ → List ℕ → Option (List ℕ)
literal [] s = some s
literal (f ∷ fs) [] = none
literal (f ∷ fs) (c ∷ s) = let rest = literal fs s in if f == c then rest else none

read_after : Option (List ℕ) → Option Read
read_after none = none
read_after (some s) = read_hex 4 16 s

-- Literal characters and %4hx.
field : List ℕ → List ℕ → Option Read
unfolding read_after
field prefix s = read_after (literal prefix s)

-- `vendor_id`, `product_id` and `revision`.
pub record Ids : Type 0 where
  pub vendor_id : ℕ
  pub product_id : ℕ
  pub revision : ℕ

with_revision : (vendor_id product_id : ℕ) → Option Read → Option Ids
with_revision vendor_id product_id none = none
with_revision vendor_id product_id (some (revision, s)) =
    some (record { vendor_id = vendor_id; product_id = product_id; revision = revision })

with_product_id : (vendor_id : ℕ) → Option Read → Option Ids
unfolding with_revision field
with_product_id vendor_id none = none
with_product_id vendor_id (some (product_id, s)) =
    with_revision vendor_id product_id (field (text "&REV_") s)

with_vendor_id : Option Read → Option Ids
unfolding with_product_id field
with_vendor_id none = none
with_vendor_id (some (vendor_id, s)) = with_product_id vendor_id (field (text "&PID_") s)

-- The call of `sscanf`: none where it does not convert three numbers.
pub scan_ids : List ℕ → Option Ids
unfolding with_vendor_id field
scan_ids s = with_vendor_id (field (text "USB\\VID_") s)

-- The IDs of the first string that has them, and none where there is none.
or_later : Option Ids → Option (Option Ids) → Option (Option Ids)
or_later none later = later
or_later (some ids) later = some (some ids)

-- The loop of `device_take_info_from_hardware_ids`, at the start of a string or within one. The
-- outer `none` is a read past the end of the bytes.
unfoldable pub find_ids : (at_start : Bool) → List ℕ → Option (Option Ids)
unfolding or_later scan_ids
find_ids at_start [] = none
find_ids true (c ∷ s) =
    let later = find_ids false s in
    if c == 0 then some none else or_later (scan_ids (string_at (c ∷ s))) later
find_ids false (c ∷ s) =
    let next = find_ids true s in let later = find_ids false s in if c == 0 then next else later
