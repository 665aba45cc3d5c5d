-- ===== src/Device.antt =====
-- src/string.c and src/linux/device_linux.c: copies of strings, and devices.
pub mod Copy
pub mod Getters
pub mod Steps
pub mod Plenty
use libusbp.Base.{ℕ, ◌+◌, Option, none, some, List, text}
use libusbp.Heap.{Blocks, block, block?, M, pure, fault, ◌>>=◌, ◌>>◌, malloc, free}
use libusbp.Error.{
  Text, ErrorPtr, error_create, error_add_code, error_no_memory, error_no_serial_number, text_block,
}
use libusbp.Usbfd.{store}

wrap_string : Text → Option ℕ → M (ErrorPtr × Option Text)
wrap_string t none = pure (some error_no_memory, none)
wrap_string t (some at) = pure (none, some (record { at = at; chars = t.chars }))

-- `string_copy` of a string that is not NULL: the error, and `*output_string`.
pub string_copy : Text → M (ErrorPtr × Option Text)
unfolding wrap_string
string_copy t = malloc >>= wrap_string t

-- `libusbp_string_free`
pub string_free : Option Text → M (Unit {0})
string_free t = free (text_block t)

-- `struct libusbp_device`, with its address `at`.
pub record Device : Type 0 where
  pub at : ℕ
  pub syspath : Text
  pub serial_number : Option Text
  pub product_id : ℕ
  pub vendor_id : ℕ
  pub revision : ℕ

abbrev pub owned : Device → Blocks
owned d a = block d.at a + block d.syspath.at a + block? (text_block d.serial_number) a

abbrev pub owned? : Option Device → Blocks
owned? none a = 0
owned? (some d) a = owned d a

-- `libusbp_device_free`
pub device_free : Option Device → M (Unit {0})
device_free none = pure tt
device_free (some d) = do
  free (text_block d.serial_number)
  free (some d.syspath.at)
  free (some d.at)
  pure tt

abbrev pub Copied : Type 0
Copied = ErrorPtr × Option Device

-- The end of `libusbp_device_copy` after an error, with what was allocated before it.
clean_up : ErrorPtr → (device syspath serial_number : Option ℕ) → M Copied
clean_up e device syspath serial_number = do
  free device
  free syspath
  free serial_number
  pure (e, none)

assemble_copy : Device → ℕ → Text → ErrorPtr × Option Text → M Copied
unfolding clean_up
assemble_copy source at syspath (some e, serial) =
    clean_up (some e) (some at) (some syspath.at) (text_block serial)
assemble_copy source at syspath (none, serial) =
    pure (none, some (record source { at = at; syspath = syspath; serial_number = serial }))

copy_serial_number : Option Text → M (ErrorPtr × Option Text)
copy_serial_number none = pure (none, none)
copy_serial_number (some s) = string_copy s

copy_behind_syspath : Device → ℕ → ErrorPtr × Option Text → M Copied
unfolding copy_serial_number assemble_copy clean_up
copy_behind_syspath source at (some e, syspath) =
    clean_up (some e) (some at) (text_block syspath) none
copy_behind_syspath source at (none, none) = fault
copy_behind_syspath source at (none, some syspath) =
    copy_serial_number source.serial_number >>= assemble_copy source at syspath

copy_into : Device → Option ℕ → M Copied
unfolding copy_behind_syspath clean_up
copy_into source none = clean_up (some error_no_memory) none none none
copy_into source (some at) = string_copy source.syspath >>= copy_behind_syspath source at

-- `libusbp_device_copy` with an output pointer that is not NULL.
pub device_copy : Option Device → M Copied
unfolding copy_into
device_copy none = pure (none, none)
device_copy (some source) = malloc >>= copy_into source

-- The getters of numbers: an error, and what the output pointer points to.
abbrev pub get_number :
    (null_output : List ℕ) → (Device → ℕ) → Option ℕ → Option Device → M (ErrorPtr × Option ℕ)
get_number null_output field none device = do e ← error_create null_output; pure (e, none)
get_number null_output field (some _) none = do
  e ← error_create (text "Device is null.")
  pure (e, some 0)
get_number null_output field (some _) (some d) = pure (none, some (field d))

unfoldable pub device_get_vendor_id : Option ℕ → Option Device → M (ErrorPtr × Option ℕ)
device_get_vendor_id = get_number (text "Vendor ID output pointer is null.") (λ d. d.vendor_id)

unfoldable pub device_get_product_id : Option ℕ → Option Device → M (ErrorPtr × Option ℕ)
device_get_product_id = get_number (text "Product ID output pointer is null.") (λ d. d.product_id)

unfoldable pub device_get_revision : Option ℕ → Option Device → M (ErrorPtr × Option ℕ)
device_get_revision = get_number (text "Device revision output pointer is null.") (λ d. d.revision)

serial_number_of : Option Text → M (ErrorPtr × Option Text)
serial_number_of none = do
  error ← error_create (text "Device does not have a serial number.")
  error ← error_add_code error error_no_serial_number
  pure (error, none)
serial_number_of (some s) = string_copy s

-- `libusbp_device_get_serial_number` with an output pointer that is not NULL.
pub device_get_serial_number : Option Device → M (ErrorPtr × Option Text)
unfolding serial_number_of
device_get_serial_number none = do e ← error_create (text "Device is null."); pure (e, none)
device_get_serial_number (some d) = serial_number_of d.serial_number

-- `libusbp_device_get_os_id` with an output pointer that is not NULL.
pub device_get_os_id : Option Device → M (ErrorPtr × Option Text)
device_get_os_id none = do e ← error_create (text "Device is null."); pure (e, none)
device_get_os_id (some d) = string_copy d.syspath
