-- ===== src/Udev/Sysattrs.antt =====
-- Reading the attributes of a device.
use libusbp.Base.{ℕ, ◌<◌, ◌^◌, ◌≡◌, refl, Option, Option-cases, inl, inr, none, some, List, []}
use libusbp.Heap.{Heap, no_blocks}
use libusbp.Heap.Returns
use libusbp.Heap.Returns.{Returns, returns}
use libusbp.Error.{ErrorPtr, Text}
use libusbp.Error.Chain.{Carries, error_create-Carries}
use libusbp.Steps.{Gets}
use libusbp.Print.{hex}
use libusbp.Scan.{scan_hex}
use libusbp.Scan.Digits.{scan_hex-hex}
use libusbp.Device.Copy.{CopiesText, string_copy-CopiesText}
use libusbp.Udev.{
  DeviceInfo, UdevDevice, get_sysattr_uint8, get_sysattr_uint16, get_sysattr_if_exists_copy,
  get_syspath_copy, read_number, copy_if_exists,
}

abbrev parsed : (bits : ℕ) → Option (List ℕ) → Option ℕ
parsed bits none = none
parsed bits (some str) = scan_hex 4 bits str

-- The number that a sysattr of a device stands for.
abbrev pub number_in : DeviceInfo → List ℕ → Option ℕ
number_in info name = parsed 16 (info.sysattr name)

abbrev pub number_of : UdevDevice → List ℕ → Option ℕ
number_of dev name = number_in dev.info name

abbrev pub small_number_of : DeviceInfo → List ℕ → Option ℕ
small_number_of info name = parsed 8 (info.sysattr name)

abbrev pub GotParsed : Option ℕ → Heap → ErrorPtr × Option ℕ → Heap → Type 0
GotParsed value = Gets (λ _. value ≡ none) (λ v. value ≡ some v) (λ _. no_blocks)

-- The number, and nothing is allocated; or an error, where the attribute is missing or no number.
abbrev pub GotNumber : UdevDevice → List ℕ → Heap → ErrorPtr × Option ℕ → Heap → Type 0
GotNumber dev name = GotParsed (number_of dev name)

failed-GotParsed :
    (value : Option ℕ) (chars : List ℕ) (h : Heap) (e : ErrorPtr) (g : Heap)
    → value ≡ none
    → Carries no_blocks chars [] h e g
    → GotParsed value h (e, none) g
failed-GotParsed value chars h none g q c = absurd c
failed-GotParsed value chars h (some e) g q c = (refl, (q, (c.valid, c.moves)))

read_number-GotParsed :
    (bits : ℕ) (name : List ℕ) (s : Option (List ℕ)) (h : Heap)
    → Returns (GotParsed (parsed bits s) h) (read_number 4 bits name s h)
unfolding read_number
read_number-GotParsed bits name none h =
    Returns.bind (error_create-Carries _ h) λ e g c. returns (failed-GotParsed none _ h e g refl c)
read_number-GotParsed bits name (some str) h = elim (Option-cases (scan_hex 4 bits str)) [
  | inl q ↦ simp q (
      Returns.bind (error_create-Carries _ h)
        λ e g c. returns (failed-GotParsed none _ h e g refl c))
  | inr (v, q) ↦ simp q (returns (refl, record { live = λ a. refl; same = refl }))
]

-- `udevw_get_sysattr_uint16` gives the number that the attribute stands for. Where the attribute is
-- missing or is no number, it returns an error and nothing else is allocated.
pub get_sysattr_uint16-GotNumber :
    (dev : UdevDevice) (name : List ℕ) (h : Heap)
    → Returns (GotNumber dev name h) (get_sysattr_uint16 dev name h)
unfolding get_sysattr_uint16
get_sysattr_uint16-GotNumber dev name h = read_number-GotParsed 16 name (dev.info.sysattr name) h

-- The number, without an error and with nothing allocated.
abbrev pub Reads : ℕ → Heap → ErrorPtr × Option ℕ → Heap → Type 0
Reads n h x g = (x ≡ (none, some n)) × (g ≡ h)

-- `udevw_get_sysattr_uint16` gives back every 16-bit number that the kernel prints as the attribute,
-- with four hexadecimal digits, without an error and without allocating anything.
pub get_sysattr_uint16-Reads :
    (dev : UdevDevice) (name : List ℕ) (n : ℕ) (h : Heap)
    → n < 2 ^ 16
    → dev.info.sysattr name ≡ some (hex 4 n [])
    → Returns (Reads n h) (get_sysattr_uint16 dev name h)
unfolding get_sysattr_uint16 read_number
get_sysattr_uint16-Reads dev name n h l q = simp (q, scan_hex-hex n l) (returns (refl, refl))

pub get_sysattr_uint8-GotParsed :
    (dev : UdevDevice) (name : List ℕ) (h : Heap)
    → Returns (GotParsed (small_number_of dev.info name) h) (get_sysattr_uint8 dev name h)
unfolding get_sysattr_uint8
get_sysattr_uint8-GotParsed dev name h = read_number-GotParsed 8 name (dev.info.sysattr name) h

abbrev pub copy_of : List ℕ → Text
copy_of str = record { at = 0; chars = str }

-- A copy of a text that may be missing.
abbrev pub CopiesIfExists : Option (List ℕ) → Heap → ErrorPtr × Option Text → Heap → Type 0
CopiesIfExists none h r g = (r ≡ (none, none)) × (g ≡ h)
CopiesIfExists (some str) h r g = CopiesText (copy_of str) h r g

copy_if_exists-CopiesIfExists :
    (s : Option (List ℕ)) (h : Heap) → Returns (CopiesIfExists s h) (copy_if_exists s h)
unfolding copy_if_exists
copy_if_exists-CopiesIfExists none h = returns (refl, refl)
copy_if_exists-CopiesIfExists (some str) h = string_copy-CopiesText (copy_of str) h

pub get_sysattr-CopiesIfExists :
    (dev : UdevDevice) (name : List ℕ) (h : Heap)
    → Returns (CopiesIfExists (dev.info.sysattr name) h) (get_sysattr_if_exists_copy dev name h)
unfolding get_sysattr_if_exists_copy
get_sysattr-CopiesIfExists dev name h = copy_if_exists-CopiesIfExists (dev.info.sysattr name) h

pub get_syspath_copy-CopiesText :
    (dev : UdevDevice) (h : Heap)
    → Returns (CopiesText (copy_of dev.info.syspath) h) (get_syspath_copy dev h)
unfolding get_syspath_copy
get_syspath_copy-CopiesText dev h = string_copy-CopiesText (copy_of dev.info.syspath) h
