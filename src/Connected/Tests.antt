-- ===== src/Connected/Tests.antt =====
-- Tests of listing the connected devices.
use libusbp.Base.{pos, true, none, some, [], ◌∷◌, text}
use libusbp.Heap.{no_blocks}
use libusbp.Heap.Returns.{Returns}
use libusbp.Udev.{Libudev}
use libusbp.Connected.{list_connected_devices, find_device_with_vid_pid}
use libusbp.Connected.Listed.{IsListing, list_connected-IsListing, IsFound, find_device-IsFound}
use libusbp.Samples.{heap_of}

-- Every attribute of every device is the same text, which is also a number.
abbrev lib : Libudev
lib = record {
  device_of_syspath = λ syspath. some (record {
    syspath = syspath;
    devtype = some (text "usb_device");
    subsystem = some (text "usb");
    driver = some (text "usb");
    devnode = some (text "/dev/bus/usb/001/007");
    sysattr = λ name. some (text "1ffb");
    property = λ name. none;
    parent_usb_device = none;
    is_initialized = true;
  });
  add_match_subsystem = pos 0;
  scan_devices = pos 0;
  names = text "/sys/devices/usb1" ∷ text "/sys/devices/usb2" ∷ [];
  add_match_parent = λ syspath. pos 0;
  scan_children = λ syspath. pos 0;
  child_names = λ syspath. [];
}

list_connected-IsListing_example :
    Returns (IsListing lib (heap_of no_blocks)) (list_connected_devices lib (heap_of no_blocks))
list_connected-IsListing_example = list_connected-IsListing lib (heap_of no_blocks)

find_device-IsFound_example :
    Returns
      (IsFound lib 0x1ffb 0x1ffb (heap_of no_blocks))
      (find_device_with_vid_pid lib 0x1ffb 0x1ffb (heap_of no_blocks))
find_device-IsFound_example = find_device-IsFound lib 0x1ffb 0x1ffb (heap_of no_blocks)
