-- ===== src/Listing.antt =====
-- src/linux/device_linux.c and src/linux/list_linux.c: making a device from what libudev knows, and
-- the list of the connected devices.
pub mod Creation
pub mod Adding
mod Tests
use libusbp.Base.{ℕ, Bool, true, false, Option, none, some, List, [], ◌∷◌, text}
use libusbp.Heap.{M, pure, fault, ◌>>=◌, ◌>>◌, malloc, free}
use libusbp.Error.{Text, ErrorPtr, error_no_memory, text_block}
use libusbp.Device.{Device, device_free}
use libusbp.Udev.{UdevDevice, get_sysattr_uint16, get_sysattr_if_exists_copy, get_syspath_copy}
use libusbp.Lists.{device_list_append}
use libusbp.Devices.{DeviceList}

abbrev pub Created : Type 0
Created = ErrorPtr × Option Device

-- The end of `device_create` after an error, with what was allocated before it.
clean_up : ErrorPtr → (serial_number syspath device : Option ℕ) → M Created
clean_up error serial_number syspath device = do
  free serial_number
  free syspath
  free device
  pure (error, none)

with_serial_number :
    (at : ℕ)
    → (syspath : Text) → (vendor_id product_id revision : ℕ) → ErrorPtr × Option Text
    → M Created
unfolding clean_up
with_serial_number at syspath vendor_id product_id revision (some e, serial) =
    clean_up (some e) (text_block serial) (some syspath.at) (some at)
with_serial_number at syspath vendor_id product_id revision (none, serial) = pure (
  none,
  some (record {
    at = at;
    syspath = syspath;
    serial_number = serial;
    product_id = product_id;
    vendor_id = vendor_id;
    revision = revision;
  }),
)

-- One of the three numbers, and what comes after it if it was read.
with_number : (at : ℕ) → Text → (ℕ → M Created) → ErrorPtr × Option ℕ → M Created
unfolding clean_up
with_number at syspath more (some e, value) = clean_up (some e) none (some syspath.at) (some at)
with_number at syspath more (none, none) = fault
with_number at syspath more (none, some value) = more value

read_serial_number : UdevDevice → (at : ℕ) → Text → (vendor_id product_id revision : ℕ) → M Created
unfolding with_serial_number
read_serial_number dev at syspath vendor_id product_id revision =
    get_sysattr_if_exists_copy dev (text "serial")
    >>= with_serial_number at syspath vendor_id product_id revision

read_revision : UdevDevice → (at : ℕ) → Text → (vendor_id product_id : ℕ) → M Created
unfolding with_number
read_revision dev at syspath vendor_id product_id =
    get_sysattr_uint16 dev (text "bcdDevice")
    >>= with_number at syspath (read_serial_number dev at syspath vendor_id product_id)

read_product_id : UdevDevice → (at : ℕ) → Text → (vendor_id : ℕ) → M Created
unfolding with_number
read_product_id dev at syspath vendor_id =
    get_sysattr_uint16 dev (text "idProduct")
    >>= with_number at syspath (read_revision dev at syspath vendor_id)

with_syspath : UdevDevice → (at : ℕ) → ErrorPtr × Option Text → M Created
unfolding clean_up with_number
with_syspath dev at (some e, syspath) = clean_up (some e) none (text_block syspath) (some at)
with_syspath dev at (none, none) = fault
with_syspath dev at (none, some syspath) =
    get_sysattr_uint16 dev (text "idVendor")
    >>= with_number at syspath (read_product_id dev at syspath)

create_at : UdevDevice → Option ℕ → M Created
unfolding clean_up with_syspath
create_at dev none = clean_up (some error_no_memory) none none none
create_at dev (some at) = get_syspath_copy dev >>= with_syspath dev at

pub device_create : UdevDevice → M Created
unfolding create_at
device_create dev = malloc >>= create_at dev

abbrev pub Added : Type 0
Added = ErrorPtr × DeviceList × ℕ

keep_or_free : Device → Added → M Added
keep_or_free device (none, l, count) = pure (none, l, count)
keep_or_free device (some e, l, count) = do device_free (some device); pure (some e, l, count)

add_created : DeviceList → (count : ℕ) → Created → M Added
unfolding keep_or_free
add_created l count (some e, device) = pure (some e, l, count)
add_created l count (none, none) = fault
add_created l count (none, some device) = device_list_append l count device >>= keep_or_free device

pub add_udev_device_to_list : UdevDevice → DeviceList → (count : ℕ) → M Added
unfolding add_created
add_udev_device_to_list dev l count = device_create dev >>= add_created l count
