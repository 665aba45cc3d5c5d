-- ===== src/Connected.antt =====
-- src/linux/list_linux.c and src/find_device.c: the list of the connected devices, and the search
-- in it.
pub mod Loop
pub mod Listed
mod Tests
use libusbp.Base.{
  ℤ, ℕ, zero, Bool, true, false, not, ◌&&◌, Option, none, some, List, [], ◌∷◌, text, same_text,
  if◌then◌else◌,
}
use libusbp.Heap.{M, pure, fault, ◌>>=◌, ◌>>◌, free}
use libusbp.Error.{ErrorPtr, error_create, error_free}
use libusbp.Udev.{Libudev, UdevDevice, create_context, create_usb_list, get_device_from_syspath}
use libusbp.Lists.{device_list_create}
use libusbp.Devices.{DeviceList, Found, find_in_list}
use libusbp.Listing.{Added, add_udev_device_to_list}

-- Interfaces and devices that are not initialized are skipped.
abbrev pub is_listed : List ℕ → Bool → Bool
is_listed devtype is_initialized = same_text devtype (text "usb_device") && is_initialized

add_if_listed : UdevDevice → DeviceList → (count : ℕ) → Option (List ℕ) → M Added
add_if_listed dev l count none = do
  error ← error_create (text "Failed to get device type.")
  pure (error, l, count)
add_if_listed dev l count (some devtype) =
    if is_listed devtype dev.info.is_initialized
    then add_udev_device_to_list dev l count
    else pure (none, l, count)

-- `udev_device_unref`
unref_after : UdevDevice → Added → M Added
unref_after dev added = do free (some dev.at); pure added

add_found : DeviceList → (count : ℕ) → ErrorPtr × Option UdevDevice → M Added
unfolding add_if_listed unref_after
add_found l count (some e, dev) = pure (some e, l, count)
add_found l count (none, none) = fault
add_found l count (none, some dev) = add_if_listed dev l count dev.info.devtype >>= unref_after dev

pub add_if_needed : Libudev → List ℕ → DeviceList → (count : ℕ) → M Added
unfolding add_found
add_if_needed lib syspath l count = get_device_from_syspath lib syspath >>= add_found l count

-- An error is freed, and the loop goes on.
ignore_error : (DeviceList → ℕ → M (DeviceList × ℕ)) → Added → M (DeviceList × ℕ)
ignore_error more (none, l, count) = more l count
ignore_error more (some e, l, count) = do error_free (some e); more l count

pub list_loop : Libudev → List (List ℕ) → DeviceList → (count : ℕ) → M (DeviceList × ℕ)
unfolding ignore_error
list_loop lib [] l count = pure (l, count)
list_loop lib (name ∷ names) l count =
    add_if_needed lib name l count >>= ignore_error (list_loop lib names)

-- The error, `*device_list` and `*device_count`.
abbrev pub Listed : Type 0
Listed = ErrorPtr × Option DeviceList × ℕ

-- The end, with the enumeration and the context, each unless it is NULL.
finish_listing : Listed → (enumerate udev : Option ℕ) → M Listed
finish_listing result enumerate udev = do free enumerate; free udev; pure result

fill_list : Libudev → (udev enumerate : ℕ) → ErrorPtr × Option DeviceList → M Listed
unfolding finish_listing
fill_list lib udev enumerate (some e, l) =
    finish_listing (some e, none, 0) (some enumerate) (some udev)
fill_list lib udev enumerate (none, none) = fault
fill_list lib udev enumerate (none, some l) = do
  (l', count) ← list_loop lib lib.names l 0
  finish_listing (none, some l', count) (some enumerate) (some udev)

with_enumeration : Libudev → (udev : ℕ) → ErrorPtr × Option ℕ → M Listed
unfolding fill_list finish_listing
with_enumeration lib udev (some e, list) = finish_listing (some e, none, 0) none (some udev)
with_enumeration lib udev (none, none) = fault
with_enumeration lib udev (none, some enumerate) =
    device_list_create >>= fill_list lib udev enumerate

with_udev : Libudev → ErrorPtr × Option ℕ → M Listed
unfolding with_enumeration finish_listing
with_udev lib (some e, context) = finish_listing (some e, none, 0) none none
with_udev lib (none, none) = fault
with_udev lib (none, some udev) = create_usb_list lib >>= with_enumeration lib udev

-- `libusbp_list_connected_devices` with output pointers that are not NULL. The new list is NULL
-- wherever there is an error, so that the last call has nothing to free.
pub list_connected_devices : Libudev → M Listed
unfolding with_udev
list_connected_devices lib = create_context >>= with_udev lib

search_list : (vendor_id product_id : ℕ) → Listed → M Found
search_list vendor_id product_id (some e, l, count) = pure (some e, none)
search_list vendor_id product_id (none, none, count) = fault
search_list vendor_id product_id (none, some l, count) = find_in_list vendor_id product_id l

-- `libusbp_find_device_with_vid_pid` with an output pointer that is not NULL.
pub find_device_with_vid_pid : Libudev → (vendor_id product_id : ℕ) → M Found
unfolding search_list
find_device_with_vid_pid lib vendor_id product_id =
    list_connected_devices lib >>= search_list vendor_id product_id
