-- ===== src/Windows/Device/Values.antt =====
-- src/windows/device_windows.c: copying and reading a device.
pub mod Copy
pub mod SerialNumber
use libusbp.Base.{
  ℕ, zero, suc, Bool, true, false, Option, none, some, List, [], ◌∷◌, text, length, ltb,
  if◌then◌else◌,
}
use libusbp.Heap.{M, pure, fault, ◌>>=◌, ◌>>◌, malloc}
use libusbp.Error.{Text, ErrorPtr, error_create, error_add, error_no_memory}
use libusbp.Device.{string_copy}
use libusbp.Windows.Device.{Device, device_free, Created}

-- The end of `libusbp_device_copy`.
finish_copy : (new_device : Option Device) → Created → M Created
finish_copy new_device result = do device_free new_device; pure result

copy_id : Device → (at : ℕ) → Text → Option ℕ → M Created
unfolding finish_copy
copy_id source at id none =
    finish_copy (some (record source { at = at; device_instance_id = none }))
      (some error_no_memory, none)
copy_id source at id (some new_id) = finish_copy none (
  none,
  some (record source {
    at = at;
    device_instance_id = some (record { at = new_id; chars = id.chars });
  }),
)

-- Without an instance ID the assertion fails.
copy_at : Device → (at : ℕ) → Option Text → M Created
unfolding copy_id
copy_at source at none = fault
copy_at source at (some id) = malloc >>= copy_id source at id

copy_in : Device → Option ℕ → M Created
unfolding copy_at finish_copy
copy_in source none = finish_copy none (some error_no_memory, none)
copy_in source (some at) = copy_at source at source.device_instance_id

-- `libusbp_device_copy` with an output pointer that is not NULL.
pub device_copy : Option Device → M Created
unfolding copy_in
device_copy none = pure (none, none)
device_copy (some source) = malloc >>= copy_in source

-- The getters of numbers: an error, and what the output pointer points to.
abbrev pub get_number :
    (null_output : List ℕ) → (Device → ℕ) → Option ℕ → Option Device → M (ErrorPtr × Option ℕ)
get_number null_output field none device = do error ← error_create null_output; pure (error, none)
get_number null_output field (some _) none = do
  error ← error_create (text "Device is null.")
  pure (error, some 0)
get_number null_output field (some _) (some d) = pure (none, some (field d))

unfoldable pub device_get_vendor_id : Option ℕ → Option Device → M (ErrorPtr × Option ℕ)
device_get_vendor_id = get_number (text "Vendor ID output pointer is null.") (λ d. d.vendor_id)

unfoldable pub device_get_product_id : Option ℕ → Option Device → M (ErrorPtr × Option ℕ)
device_get_product_id = get_number (text "Product ID output pointer is null.") (λ d. d.product_id)

unfoldable pub device_get_revision : Option ℕ → Option Device → M (ErrorPtr × Option ℕ)
device_get_revision = get_number (text "Device revision output pointer is null.") (λ d. d.revision)

os_id_of : Option Text → M (ErrorPtr × Option Text)
os_id_of none = fault
os_id_of (some id) = string_copy id

-- `libusbp_device_get_os_id` with an output pointer that is not NULL.
pub device_get_os_id : Option Device → M (ErrorPtr × Option Text)
unfolding os_id_of
device_get_os_id none = do error ← error_create (text "Device is null."); pure (error, none)
device_get_os_id (some d) = os_id_of d.device_instance_id

-- The characters from index `n` on.
abbrev pub from_index : ℕ → List ℕ → List ℕ
from_index zero s = s
from_index (suc n) [] = []
from_index (suc n) (c ∷ s) = from_index n s

add_failure : ErrorPtr × Option Text → M (ErrorPtr × Option Text)
add_failure (none, serial_number) = pure (none, serial_number)
add_failure (some e, serial_number) = do
  error ← error_add (some e) (text "Failed to get serial number.")
  pure (error, serial_number)

serial_number_of : List ℕ → M (ErrorPtr × Option Text)
serial_number_of id =
    if ltb (length id) 22
    then (do error ← error_create (text "Device instance ID is too short."); pure (error, none))
    else string_copy (record { at = 0; chars = from_index 22 id })

-- `strlen` of a NULL pointer is undefined.
read_serial_number : Option Text → M (ErrorPtr × Option Text)
unfolding serial_number_of add_failure
read_serial_number none = fault
read_serial_number (some id) = serial_number_of id.chars >>= add_failure

-- `libusbp_device_get_serial_number` with an output pointer that is not NULL.
pub device_get_serial_number : Option Device → M (ErrorPtr × Option Text)
unfolding read_serial_number
device_get_serial_number none = do error ← error_create (text "Device is null."); pure (error, none)
device_get_serial_number (some d) = read_serial_number d.device_instance_id
