-- ===== src/Listing/Tests.antt =====
-- Tests of making and listing devices.
use libusbp.Base.{true, none, some, [], text}
use libusbp.Heap.{no_blocks}
use libusbp.Heap.Returns.{Returns}
use libusbp.Devices.{DeviceList}
use libusbp.Udev.{UdevDevice}
use libusbp.Listing.{device_create}
use libusbp.Listing.Creation.{IsCreated, device_create-IsCreated}
use libusbp.Samples.{heap_of}

-- Every attribute is the same text, which is also a number.
abbrev dev : UdevDevice
dev = record {
  at = 50;
  info = record {
    syspath = text "/sys/devices/usb1";
    devtype = some (text "usb_device");
    subsystem = some (text "usb");
    driver = some (text "usb");
    devnode = some (text "/dev/bus/usb/001/007");
    sysattr = λ name. some (text "1ffb");
    property = λ name. none;
    parent_usb_device = none;
    is_initialized = true;
  };
}

device_create-IsCreated_example :
    Returns (IsCreated dev (heap_of no_blocks)) (device_create dev (heap_of no_blocks))
device_create-IsCreated_example = device_create-IsCreated dev (heap_of no_blocks)

abbrev list : DeviceList
list = record { at = 1; devices = [] }
