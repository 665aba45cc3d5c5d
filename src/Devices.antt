-- ===== src/Devices.antt =====
-- src/find_device.c: the lists of src/list.c for Linux, and the search for a device by its IDs.
pub mod Search
mod Tests
use libusbp.Base.{
  ℕ, zero, suc, ◌+◌, Bool, true, false, not, Option, none, some, List, [], ◌∷◌, ◌++◌, length, take,
  leb, ◌==◌, if◌then◌else◌,
}
use libusbp.Heap.{Blocks, block, M, pure, fault, ◌>>=◌, ◌>>◌, malloc, realloc, free}
use libusbp.Error.{ErrorPtr, error_no_memory}
use libusbp.Device.{Device, device_free, device_get_vendor_id, device_get_product_id}
use libusbp.Device
use libusbp.Lists
use libusbp.Lists.{list_free}

abbrev pub DeviceList : Type 0
DeviceList = Lists.ListOf Device

abbrev pub owned_all : List Device → Blocks
owned_all = Lists.owned_all Device.owned

abbrev pub owned : DeviceList → Blocks
owned = Lists.owned Device.owned

abbrev number_in : Option ℕ → ℕ
number_in none = 0
number_in (some n) = n

check_product : ℕ → ErrorPtr × Option ℕ → M (ErrorPtr × Bool)
check_product product_id (some e, device_pid) = pure (some e, false)
check_product product_id (none, device_pid) = pure (none, number_in device_pid == product_id)

check_vendor : Device → (vendor_id product_id : ℕ) → ErrorPtr × Option ℕ → M (ErrorPtr × Bool)
unfolding check_product
check_vendor device vendor_id product_id (some e, device_vid) = pure (some e, false)
check_vendor device vendor_id product_id (none, device_vid) =
    if not (number_in device_vid == vendor_id)
    then pure (none, false)
    else device_get_product_id (some 0) (some device) >>= check_product product_id

pub check_device_vid_pid : Device → (vendor_id product_id : ℕ) → M (ErrorPtr × Bool)
unfolding check_vendor
check_device_vid_pid device vendor_id product_id =
    device_get_vendor_id (some 0) (some device) >>= check_vendor device vendor_id product_id

abbrev pub Found : Type 0
Found = ErrorPtr × Option Device

-- What the loop does with a candidate that was checked: it is passed to the caller, or freed.
settle : (Option Device → M Found) → Device → ErrorPtr × Bool → M Found
settle more candidate (some e, matches) = pure (some e, none)
settle more candidate (none, true) = do device_free none; more (some candidate)
settle more candidate (none, false) = do device_free (some candidate); more none

-- The loop of `libusbp_find_device_with_vid_pid`, with `*device`.
find_loop : (vendor_id product_id : ℕ) → List Device → Option Device → M Found
unfolding settle
find_loop vendor_id product_id [] found = pure (none, found)
find_loop vendor_id product_id (c ∷ cs) (some d) = do
  device_free (some c)
  find_loop vendor_id product_id cs (some d)
find_loop vendor_id product_id (c ∷ cs) none =
    check_device_vid_pid c vendor_id product_id >>= settle (find_loop vendor_id product_id cs) c

-- `libusbp_find_device_with_vid_pid` once the list is made: the loop, and the end.
pub find_in_list : (vendor_id product_id : ℕ) → DeviceList → M Found
unfolding find_loop
find_in_list vendor_id product_id l = do
  (error, device) ← find_loop vendor_id product_id l.devices none
  list_free (some l)
  pure (error, device)
