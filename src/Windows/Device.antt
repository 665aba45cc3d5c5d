-- ===== src/Windows/Device.antt =====
-- src/windows/device_windows.c and src/windows/device_instance_id_windows.c: devices.
pub mod Creation
pub mod Ends
pub mod InstanceId
pub mod Made
pub mod Values
use libusbp.Base.{
  ℕ, ℤ, pos, negsuc, ◌^◌, zero, suc, ◌+◌, ◌-◌, Bool, true, false, not, ◌&&◌, Option, none, some,
  List, [], ◌∷◌, ◌++◌, text, length, get_elem?, ltb, ◌==◌, if◌then◌else◌,
}
use libusbp.Print.{integer}
use libusbp.Heap.{Blocks, block, block?, M, pure, fault, ◌>>=◌, ◌>>◌, malloc, free}
use libusbp.Error.{Error, Text, ErrorPtr, error_create, error_add, error_no_memory, text_block}
use libusbp.Device.{string_copy}
use libusbp.Steps.{proceed, unless_error}
use libusbp.Windows.ErrorCode
use libusbp.Windows.Errors.{error_create_winapi}
use libusbp.Windows.HardwareIds.{capitalize, Ids, find_ids}

-- What SetupAPI tells of a device: its instance ID, if it has one, the size of its hardware IDs and
-- the bytes of them, and what `GetLastError` gives after each call.
pub record Entry : Type 0 where
  pub instance_id : Option (List ℕ)
  pub instance_id_error : ℕ
  pub size_success : Bool
  pub size_error : ℕ
  pub size : ℕ
  pub ids_success : Bool
  pub ids_error : ℕ
  pub data_type : ℕ
  pub contents : List ℕ
  pub format_message : ℕ → List ℕ

-- `struct libusbp_device`, with its address `at`.
pub record Device : Type 0 where
  pub at : ℕ
  pub device_instance_id : Option Text
  pub product_id : ℕ
  pub vendor_id : ℕ
  pub revision : ℕ

abbrev pub owned : Device → Blocks
owned d a = block? (text_block d.device_instance_id) a + block d.at a

abbrev pub owned? : Option Device → Blocks
owned? none a = 0
owned? (some d) a = owned d a

-- `libusbp_device_free`
pub device_free : Option Device → M (Unit {0})
device_free none = pure tt
device_free (some d) = do free (text_block d.device_instance_id); free (some d.at); pure tt

id_at : Entry → Option (List ℕ) → (at : ℕ) → M (ErrorPtr × Option Text)
id_at entry (some id) at = pure (none, some (record { at = at; chars = id }))
id_at entry none at = do
  free (some at)
  error ←
      error_create_winapi entry.format_message entry.instance_id_error
        (text "Error getting device instance ID.")
  pure (error, none)

id_in : Entry → Option ℕ → M (ErrorPtr × Option Text)
unfolding id_at
id_in entry none = pure (some error_no_memory, none)
id_in entry (some at) = id_at entry entry.instance_id at

pub create_id_string : Entry → M (ErrorPtr × Option Text)
unfolding id_in
create_id_string entry = malloc >>= id_in entry

-- The bytes of the hardware IDs, in a block of their own.
pub record MultiSz : Type 0 where
  pub at : ℕ
  pub bytes : List ℕ

abbrev HardwareIds : Type 0
HardwareIds = ErrorPtr × Option MultiSz

abbrev pub reg_multi_sz : ℕ
reg_multi_sz = 7

drop_ids : (at : ℕ) → ErrorPtr → M HardwareIds
drop_ids at error = do free (some at); pure (error, none)

-- A byte of the block: undefined behind its end.
is_zero : Option ℕ → M Bool
is_zero none = fault
is_zero (some c) = pure (c == 0)

not_terminated : (at : ℕ) → M HardwareIds
unfolding drop_ids
not_terminated at =
    error_create (text "Hardware IDs are empty or not terminated correctly.") >>= drop_ids at

check_last : Entry → (at : ℕ) → Bool → M HardwareIds
unfolding not_terminated
check_last entry at last =
    if last
    then pure (none, some (record { at = at; bytes = capitalize entry.contents }))
    else not_terminated at

check_second_last : Entry → (at : ℕ) → Bool → M HardwareIds
unfolding check_last is_zero not_terminated
check_second_last entry at second_last =
    if second_last
    then (is_zero (get_elem? entry.contents (entry.size - 1)) >>= check_last entry at)
    else not_terminated at

check_end : Entry → (at : ℕ) → M HardwareIds
unfolding check_second_last is_zero not_terminated
check_end entry at =
    if ltb entry.size 2
    then not_terminated at
    else (is_zero (get_elem? entry.contents (entry.size - 2)) >>= check_second_last entry at)

-- %ld prints a DWORD as a signed number.
abbrev as_long : ℕ → ℤ
as_long n = if ltb n (2 ^ 31) then pos n else negsuc (2 ^ 32 - 1 - n)

fill_ids : Entry → Option ℕ → M HardwareIds
unfolding check_end drop_ids
fill_ids entry none = pure (some error_no_memory, none)
fill_ids entry (some at) =
    if not entry.ids_success
    then (error_create_winapi entry.format_message entry.ids_error
          (text "Failed to get hardware IDs.")
        >>= drop_ids at)
    else if not (entry.data_type == reg_multi_sz)
    then (error_create (
          text "Hardware IDs are wrong data type: "
          ++ (integer (as_long entry.data_type) ++ text "."))
        >>= drop_ids at)
    else check_end entry at

pub device_get_hardware_ids : Entry → M HardwareIds
unfolding fill_ids
device_get_hardware_ids entry =
    if not entry.size_success && not (entry.size_error == ErrorCode.insufficient_buffer)
    then (do
      error ←
          error_create_winapi entry.format_message entry.size_error
            (text "Failed to get size of hardware IDs.")
      pure (error, none))
    else (malloc >>= fill_ids entry)

abbrev no_ids : Ids
no_ids = record { vendor_id = 0; product_id = 0; revision = 0 }

abbrev with_ids : Ids → Device → Device
with_ids ids d = record d {
  vendor_id = ids.vendor_id;
  product_id = ids.product_id;
  revision = ids.revision;
}

take_found : Device → Option (Option Ids) → M (ErrorPtr × Device)
take_found d none = fault
take_found d (some none) = do
  error ← error_create (text "Device has no hardware ID with the correct format.")
  pure (error, with_ids no_ids d)
take_found d (some (some ids)) = pure (none, with_ids ids d)

-- The error, and the device with the numbers.
device_take_info_from_hardware_ids : Device → List ℕ → M (ErrorPtr × Device)
unfolding take_found
device_take_info_from_hardware_ids d ids = take_found d (find_ids true ids)

abbrev pub Created : Type 0
Created = ErrorPtr × Option Device

-- The end of `create_device`, with its local variables.
pub finish : (new_ids : Option ℕ) → (new_device : Option Device) → Created → M Created
unfolding device_free
finish new_ids new_device result = do free new_ids; device_free new_device; pure result

pass_device : (new_ids : ℕ) → ErrorPtr × Device → M Created
unfolding finish
pass_device new_ids (some e, d) = finish (some new_ids) (some d) (some e, none)
pass_device new_ids (none, d) = finish (some new_ids) none (none, some d)

abbrev ids_block : Option MultiSz → Option ℕ
ids_block none = none
ids_block (some ids) = some ids.at

take_ids : Entry → Device → M Created
unfolding pass_device finish device_take_info_from_hardware_ids
take_ids entry d =
    device_get_hardware_ids entry
    >>= proceed (λ error ids. finish (ids_block ids) (some d) (some error, none))
        λ ids. device_take_info_from_hardware_ids d ids.bytes >>= pass_device ids.at

create_at : Entry → Option ℕ → M Created
unfolding take_ids finish
create_at entry none = finish none none (some error_no_memory, none)
create_at entry (some at) =
    let d : Device = record {
      at = at;
      device_instance_id = none;
      vendor_id = 0;
      product_id = 0;
      revision = 0;
    } in
    create_id_string entry
    >>= proceed
        (λ error id. finish none (some (record d { device_instance_id = id })) (some error, none))
        λ id. take_ids entry (record d { device_instance_id = some id })

pub create_device : Entry → M Created
unfolding create_at
create_device entry = malloc >>= create_at entry
