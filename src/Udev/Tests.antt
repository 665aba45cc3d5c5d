-- ===== src/Udev/Tests.antt =====
-- Tests of reading the attributes of a device.
use libusbp.Base.{refl, arith, text}
use libusbp.Heap.{no_blocks}
use libusbp.Heap.Returns.{Returns}
use libusbp.Print.{hex}
use libusbp.Base.{some, none, true, []}
use libusbp.Udev.{UdevDevice, get_sysattr_uint16}
use libusbp.Udev.Sysattrs.{Reads, get_sysattr_uint16-Reads}
use libusbp.Samples.{heap_of}

abbrev dev : UdevDevice
dev = record {
  at = 50;
  info = record {
    syspath = text "/sys/devices/usb1";
    devtype = some (text "usb_device");
    subsystem = some (text "usb");
    driver = some (text "usb");
    devnode = some (text "/dev/bus/usb/001/007");
    sysattr = λ name. some (hex 4 0x1ffb []);
    property = λ name. none;
    parent_usb_device = none;
    is_initialized = true;
  };
}

get_sysattr_uint16-Reads_example :
    Returns
      (Reads 0x1ffb (heap_of no_blocks))
      (get_sysattr_uint16 dev (text "idVendor") (heap_of no_blocks))
get_sysattr_uint16-Reads_example =
    get_sysattr_uint16-Reads dev (text "idVendor") 0x1ffb (heap_of no_blocks) (omega arith) refl
