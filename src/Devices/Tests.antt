-- ===== src/Devices/Tests.antt =====
-- Tests of the lists and the search of src/list.c and src/find_device.c.
use libusbp.Base.{ℕ, ◌+◌, ◌≡◌, none, some, [], ◌∷◌, text, arith}
use libusbp.Heap.Moves.{Moves}
use libusbp.Heap.Returns.{Returns}
use libusbp.Device
use libusbp.Device.{Device}
use libusbp.Devices.{DeviceList, owned, find_in_list}
use libusbp.Devices.Search.{find_in_list-Found}
use libusbp.Samples.{heap_of}

abbrev device_at : (at product_id : ℕ) → Device
device_at at product_id = record {
  at = at;
  syspath = record { at = at + 1; chars = text "/sys/devices/usb1" };
  serial_number = none;
  product_id = product_id;
  vendor_id = 0x1ffb;
  revision = 0x0100;
}

abbrev list : DeviceList
list = record {
  at = 1;
  devices = device_at 10 0x2300 ∷ device_at 20 0x2500 ∷ device_at 30 0x2500 ∷ [];
}

find_in_list-Found_example :
    Returns
      (λ r g.
        (r ≡ (none, some (device_at 20 0x2500)))
        × Moves (heap_of (owned list)) (owned list) (Device.owned (device_at 20 0x2500)) g)
      (find_in_list 0x1ffb 0x2500 list (heap_of (owned list)))
find_in_list-Found_example =
    find_in_list-Found 0x1ffb 0x2500 list (heap_of (owned list)) (λ a. omega arith)
