-- ===== src/Udev.antt =====
-- src/linux/udev_linux.c: the wrappers of libudev with which devices are listed. libudev itself is
-- an argument, and its reference-counted objects are blocks of the heap.
pub mod Sysattrs
pub mod Objects
pub mod Copies
mod Tests
use libusbp.Base.{ℤ, ℕ, Bool, Option, none, some, List, [], ◌++◌, text, if◌then◌else◌}
use libusbp.Heap.{M, pure, ◌>>=◌, ◌>>◌, malloc, free}
use libusbp.Error.{Text, ErrorPtr, error_create}
use libusbp.LinuxError.{error_create_udev}
use libusbp.Usbfd.{equals}
use libusbp.Scan.{scan_hex}
use libusbp.Device.{string_copy}

-- What libudev knows of a device. Of the USB device above it only the syspath is used.
pub record DeviceInfo : Type 0 where
  pub syspath : List ℕ
  pub devtype : Option (List ℕ)
  pub subsystem : Option (List ℕ)
  pub driver : Option (List ℕ)
  pub devnode : Option (List ℕ)
  pub sysattr : List ℕ → Option (List ℕ)
  pub property : List ℕ → Option (List ℕ)
  pub parent_usb_device : Option (List ℕ)
  pub is_initialized : Bool

-- The answers of libudev: to `udev_device_new_from_syspath`, to the calls that set up an
-- enumeration, and the names in its list; and the same for the children of a device, by the syspath
-- of that.
pub record Libudev : Type 0 where
  pub device_of_syspath : List ℕ → Option DeviceInfo
  pub add_match_subsystem : ℤ
  pub scan_devices : ℤ
  pub names : List (List ℕ)
  pub add_match_parent : List ℕ → ℤ
  pub scan_children : List ℕ → ℤ
  pub child_names : List ℕ → List (List ℕ)

-- `struct udev_device *`
pub record UdevDevice : Type 0 where
  pub at : ℕ
  pub info : DeviceInfo

with_context : Option ℕ → M (ErrorPtr × Option ℕ)
with_context none = do
  error ← error_create (text "Failed to create a udev context.")
  pure (error, none)
with_context (some at) = pure (none, some at)

pub create_context : M (ErrorPtr × Option ℕ)
unfolding with_context
create_context = malloc >>= with_context

-- The end of `udevw_create_usb_list` after an error, with the list made before it.
drop_list : ErrorPtr → Option ℕ → M (ErrorPtr × Option ℕ)
drop_list error list = do free list; pure (error, none)

scan_list : (scanned : ℤ) → ℕ → M (ErrorPtr × Option ℕ)
unfolding drop_list
scan_list scanned at = if equals scanned 0 then pure (none, some at) else do
  error ← error_create_udev scanned (text "Failed to scan devices.")
  drop_list error (some at)

match_list : (matched : ℤ) → List ℕ → (scanned : ℤ) → Option ℕ → M (ErrorPtr × Option ℕ)
unfolding scan_list drop_list
match_list matched message scanned none = do
  error ← error_create (text "Failed to create a udev enumeration context.")
  drop_list error none
match_list matched message scanned (some at) =
    if equals matched 0
    then scan_list scanned at
    else do error ← error_create_udev matched message; drop_list error (some at)

pub create_usb_list : Libudev → M (ErrorPtr × Option ℕ)
unfolding match_list
create_usb_list lib =
    malloc
    >>= match_list lib.add_match_subsystem (text "Failed to add a subsystem match.")
        lib.scan_devices

pub create_child_list : Libudev → UdevDevice → M (ErrorPtr × Option ℕ)
unfolding match_list
create_child_list lib parent =
    malloc
    >>= match_list (lib.add_match_parent parent.info.syspath)
        (text "Failed to match by parent device.") (lib.scan_children parent.info.syspath)

no_device : List ℕ → M (ErrorPtr × Option UdevDevice)
no_device syspath = do
  error ← error_create (text "Failed to get udev device from syspath: " ++ (syspath ++ text "."))
  pure (error, none)

with_device : List ℕ → DeviceInfo → Option ℕ → M (ErrorPtr × Option UdevDevice)
unfolding no_device
with_device syspath info none = no_device syspath
with_device syspath info (some at) = pure (none, some (record { at = at; info = info }))

find_device : List ℕ → Option DeviceInfo → M (ErrorPtr × Option UdevDevice)
unfolding with_device
find_device syspath none = no_device syspath
find_device syspath (some info) = malloc >>= with_device syspath info

pub get_device_from_syspath : Libudev → List ℕ → M (ErrorPtr × Option UdevDevice)
unfolding find_device
get_device_from_syspath lib syspath = find_device syspath (lib.device_of_syspath syspath)

read_number : (width bits : ℕ) → (name : List ℕ) → Option (List ℕ) → M (ErrorPtr × Option ℕ)
read_number width bits name none = do
  error ← error_create (text "Device does not have sysattr " ++ (name ++ text "."))
  pure (error, none)
read_number width bits name (some str) = scanned (scan_hex width bits str)
  where
    scanned : Option ℕ → M (ErrorPtr × Option ℕ)
    scanned none = do
      error ← error_create (text "Failed to parse sysattr " ++ (name ++ text "."))
      pure (error, none)
    scanned (some value) = pure (none, some value)

-- The value, where there is no error.
pub get_sysattr_uint8 : UdevDevice → List ℕ → M (ErrorPtr × Option ℕ)
unfolding read_number
get_sysattr_uint8 dev name = read_number 4 8 name (dev.info.sysattr name)

pub get_sysattr_uint16 : UdevDevice → List ℕ → M (ErrorPtr × Option ℕ)
unfolding read_number
get_sysattr_uint16 dev name = read_number 4 16 name (dev.info.sysattr name)

copy_if_exists : Option (List ℕ) → M (ErrorPtr × Option Text)
copy_if_exists none = pure (none, none)
copy_if_exists (some str) = string_copy (record { at = 0; chars = str })

pub get_sysattr_if_exists_copy : UdevDevice → List ℕ → M (ErrorPtr × Option Text)
unfolding copy_if_exists
get_sysattr_if_exists_copy dev name = copy_if_exists (dev.info.sysattr name)

pub get_syspath_copy : UdevDevice → M (ErrorPtr × Option Text)
get_syspath_copy dev = string_copy (record { at = 0; chars = dev.info.syspath })

-- A text that libudev may not have for a device, which is the device's own.
or_error : List ℕ → Option (List ℕ) → M (ErrorPtr × Option (List ℕ))
or_error message none = do error ← error_create message; pure (error, none)
or_error message (some str) = pure (none, some str)

pub get_device_type : UdevDevice → M (ErrorPtr × Option (List ℕ))
unfolding or_error
get_device_type dev = or_error (text "Failed to get device type.") dev.info.devtype

-- The syspath of the parent, which is no new reference.
pub get_parent_usb_device : UdevDevice → M (ErrorPtr × Option (List ℕ))
unfolding or_error
get_parent_usb_device dev =
    or_error (text "Failed to get parent USB device.") dev.info.parent_usb_device

pub get_devnode : UdevDevice → M (ErrorPtr × Option (List ℕ))
unfolding or_error
get_devnode dev = or_error (text "No device node exists.") dev.info.devnode
