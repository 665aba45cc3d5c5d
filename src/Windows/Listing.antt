-- ===== src/Windows/Listing.antt =====
-- src/windows/list_windows.c: the list of the connected devices.
pub mod Leak
pub mod Listed
pub mod Loop
use libusbp.Base.{
  ℕ, Bool, true, false, Option, none, some, List, [], ◌∷◌, text, ◌==◌, if◌then◌else◌,
}
use libusbp.Heap.{M, pure, fault, ◌>>=◌, ◌>>◌, malloc, free}
use libusbp.Error.{ErrorPtr, error_free}
use libusbp.Lists.{ListOf, device_list_create, device_list_append, free_devices_and_list}
use libusbp.Windows.ErrorCode
use libusbp.Windows.Errors.{error_create_winapi}
use libusbp.Windows.Device.{Entry, Device, device_free, Created, create_device}

-- What SetupAPI enumerates, and what `GetLastError` gives where there is no handle and at the end.
pub record Enumeration : Type 0 where
  pub open_error : ℕ
  pub entries : List Entry
  pub end_error : ℕ
  pub format_message : ℕ → List ℕ

-- The assertion fails where there are an error and a device.
drop_error : Created → M (Option Device)
drop_error (none, device) = pure device
drop_error (some e, none) = do error_free (some e); pure none
drop_error (some e, some device) = fault

pub try_create_device : Entry → M (Option Device)
unfolding drop_error
try_create_device entry = create_device entry >>= drop_error

-- An error, `new_list` and `count`.
abbrev pub Added : Type 0
Added = ErrorPtr × ListOf Device × ℕ

pub append_created : ListOf Device → (count : ℕ) → Option Device → M Added
append_created l count none = pure (none, l, count)
append_created l count (some device) = device_list_append l count device

-- The test of the loop.
pub while_no_error : (ListOf Device → ℕ → M Added) → Added → M Added
while_no_error more (none, l, count) = more l count
while_no_error more (some e, l, count) = pure (some e, l, count)

pub list_loop : Enumeration → List Entry → ListOf Device → (count : ℕ) → M Added
unfolding while_no_error
list_loop enumeration [] l count =
    if enumeration.end_error == ErrorCode.no_more_items then pure (none, l, count) else (do
      error ←
          error_create_winapi enumeration.format_message enumeration.end_error
            (text "Failed to test for the end of the USB device list.")
      pure (error, l, count))
list_loop enumeration (entry ∷ entries) l count = do
  device ← try_create_device entry
  added ← append_created l count device
  while_no_error (list_loop enumeration entries) added

-- The error, `*device_list` and `*device_count`.
abbrev pub Listed : Type 0
Listed = ErrorPtr × Option (ListOf Device) × ℕ

-- The end, with the handle, unless it is not valid, and the list, unless it is NULL.
pub finish_listing : Listed → (handle : Option ℕ) → (new_list : Option (ListOf Device)) → M Listed
finish_listing result handle new_list = do
  free handle
  free_devices_and_list device_free new_list
  pure result

pub pass_list : (handle : ℕ) → Added → M Listed
unfolding finish_listing
pass_list handle (none, l, count) = finish_listing (none, some l, count) (some handle) none
pass_list handle (some e, l, count) = finish_listing (some e, none, 0) (some handle) (some l)

fill_list : Enumeration → (handle : ℕ) → ErrorPtr × Option (ListOf Device) → M Listed
unfolding finish_listing pass_list
fill_list enumeration handle (some e, l) = finish_listing (some e, none, 0) (some handle) l
fill_list enumeration handle (none, none) = fault
fill_list enumeration handle (none, some l) =
    list_loop enumeration enumeration.entries l 0 >>= pass_list handle

-- Where there is no handle nothing is listed.
with_handle : Enumeration → Option ℕ → M Listed
unfolding fill_list finish_listing
with_handle enumeration none = do
  error ←
      error_create_winapi enumeration.format_message enumeration.open_error
        (text "Failed to list all USB devices.")
  finish_listing (error, none, 0) none none
with_handle enumeration (some handle) = device_list_create >>= fill_list enumeration handle

-- `libusbp_list_connected_devices` with output pointers that are not NULL. The handle of the
-- enumeration is a block, which may not be given.
pub list_connected_devices : Enumeration → M Listed
unfolding with_handle
list_connected_devices enumeration = malloc >>= with_handle enumeration
