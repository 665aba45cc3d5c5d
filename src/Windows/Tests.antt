-- ===== src/Windows/Tests.antt =====
-- Tests of the code of src/windows.
use libusbp.Base.{ℕ, ◌+◌, none, refl, ◌≡◌, true, false, some, List, [], ◌∷◌, ◌++◌, text, arith}
use libusbp.Heap.{Heap, no_blocks, block, ◌>>=◌}
use libusbp.Heap.Moves.{Moves}
use libusbp.Heap.Returns.{Returns}
use libusbp.Error.{Text, error_no_memory}
use libusbp.Lists.{ListOf}
use libusbp.Windows.Device
use libusbp.Windows.Listing.{
  Enumeration, append_created, while_no_error, list_loop, pass_list, list_connected_devices,
}
use libusbp.Windows.Listing.Loop.{owned}
use libusbp.Windows.Listing.Listed.{IsListing, list_connected-Lists}
use libusbp.Windows.Listing.Leak.{append_created-leaks}
use libusbp.Samples.{heap_of, plenty}
use libusbp.Windows.ErrorCode
use libusbp.Windows.Errors.{error_create_overlapped}
use libusbp.Windows.Errors.Meaning.{CarriesOverlapped, error_create_overlapped-CarriesOverlapped}
use libusbp.Windows.HardwareIds.{capitalize, Ids, scan_ids, find_ids}
use libusbp.Windows.HardwareIds.Walk.{multi_sz, first_ids, find_ids-first}
use libusbp.Windows.HardwareIds.Printed.{hardware_id, scan_ids-hardware_id}
use libusbp.Windows.Device.{Entry, Device, create_device}
use libusbp.Windows.Device.Made.{Creates, create_device-Creates}
use libusbp.Windows.Device.Values.{device_get_serial_number}
use libusbp.Windows.Device.Values.SerialNumber.{
  instance_id, GetsSegment, device_get_serial_number-GetsSegment,
}

abbrev sentences : ℕ → List ℕ
sentences code = text "Access is denied. "

error_create_overlapped-CarriesOverlapped_example :
    Returns
      (CarriesOverlapped sentences ErrorCode.file_not_found
        (text "Asynchronous transfer failed.")
        (heap_of no_blocks))
      (error_create_overlapped sentences ErrorCode.file_not_found
        (text "Asynchronous transfer failed.")
        (heap_of no_blocks))
error_create_overlapped-CarriesOverlapped_example =
    error_create_overlapped-CarriesOverlapped sentences ErrorCode.file_not_found
      (text "Asynchronous transfer failed.") (heap_of no_blocks)

abbrev ids : Ids
ids = record { vendor_id = 0x1ffb; product_id = 0x2300; revision = 0x0100 }

scan_ids-hardware_id_example : scan_ids (capitalize (hardware_id ids)) ≡ some ids
scan_ids-hardware_id_example = scan_ids-hardware_id ids (omega arith) (omega arith) (omega arith)

-- An ID without a revision stands before the one with it.
abbrev strings : List (List ℕ)
strings = text "USB\\VID_1FFB&PID_2300" ∷ text "USB\\VID_1FFB&PID_2300&REV_0100" ∷ []

find_ids-first_example : find_ids true (multi_sz strings) ≡ some (first_ids strings)
find_ids-first_example = find_ids-first strings refl

abbrev entry : Entry
entry = record {
  instance_id = some (text "USB\\VID_1FFB&PID_2300\\12345");
  instance_id_error = 0;
  size_success = false;
  size_error = ErrorCode.insufficient_buffer;
  size = 32;
  ids_success = true;
  ids_error = 0;
  data_type = 7;
  contents = text "USB\\Vid_1ffb&Pid_2300&Rev_0100" ++ (0 ∷ 0 ∷ []);
  format_message = sentences;
}

create_device-Creates_example :
    Returns (Creates entry (heap_of no_blocks)) (create_device entry (heap_of no_blocks))
create_device-Creates_example = create_device-Creates entry (heap_of no_blocks) refl

abbrev id : Text
id = record { at = 2; chars = instance_id 0x1ffb 0x2300 (text "12345") }

abbrev device : Device
device = record {
  at = 1;
  device_instance_id = some id;
  vendor_id = 0x1ffb;
  product_id = 0x2300;
  revision = 0x0100;
}

device_get_serial_number-GetsSegment_example :
    Returns
      (GetsSegment (instance_id 0x1ffb 0x2300 (text "12345")) (heap_of no_blocks))
      (device_get_serial_number (some device) (heap_of no_blocks))
device_get_serial_number-GetsSegment_example =
    device_get_serial_number-GetsSegment device id 0x1ffb 0x2300 (text "12345") (heap_of no_blocks)
      refl refl refl

-- A device, and one whose hardware IDs cannot be read.
abbrev enumeration : Enumeration
enumeration = record {
  open_error = 0;
  entries = entry ∷ (record entry { ids_success = false; ids_error = ErrorCode.gen_failure }) ∷ [];
  end_error = ErrorCode.no_more_items;
  format_message = sentences;
}

list_connected-Lists_example :
    Returns
      (IsListing enumeration (heap_of no_blocks))
      (list_connected_devices enumeration (heap_of no_blocks))
list_connected-Lists_example =
    list_connected-Lists enumeration (heap_of no_blocks) (refl, (refl, tt))

abbrev list : ListOf Device
list = record { at = 4; devices = [] }

abbrev full : Heap
full = record (heap_of (λ a. block 3 a + (owned list a + Device.owned device a))) {
  surroundings = record plenty { grants = λ n. false };
}

append_created-leaks_example :
    Returns
      (λ r g.
        (r ≡ (some error_no_memory, none, 0))
        × Moves full (λ a. block 3 a + owned list a) no_blocks g)
      ((append_created list 0 (some device)
          >>= while_no_error (list_loop enumeration [])
          >>= pass_list 3)
        full)
append_created-leaks_example =
    append_created-leaks (list_loop enumeration []) 3 list 0 device full refl (λ a. omega arith)
