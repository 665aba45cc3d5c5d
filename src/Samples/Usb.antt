-- ===== src/Samples/Usb.antt =====
-- A USB device with an interface and its tty, as libudev would list them, for the tests of
-- src/linux/udev_linux.c and what is built on it.
use libusbp.Base.{
  pos, ℕ, ◌≡◌, refl, true, Option, none, some, List, [], ◌∷◌, text, same_text, if◌then◌else◌,
}
use libusbp.Scan.{
  scan_hex, read_hex, scan_signed, scan_number, scan_digits, hex_value, is_space, after_digit,
}
use libusbp.Usbfd.{Reply}
use libusbp.Device.{Device}
use libusbp.Udev.{Libudev, DeviceInfo, UdevDevice}
use libusbp.Finding.Found.{interface_of}
use libusbp.Interface.{Interface}

abbrev pub device_path : List ℕ
device_path = text "/usb1"

abbrev pub interface_path : List ℕ
interface_path = text "/usb1/2"

abbrev pub tty_path : List ℕ
tty_path = text "/usb1/2/tty"

abbrev pub node_path : List ℕ
node_path = text "/dev/007"

abbrev nothing : List ℕ → Option (List ℕ)
nothing name = none

abbrev pub device_info : DeviceInfo
device_info = record {
  syspath = device_path;
  devtype = some (text "usb_device");
  subsystem = some (text "usb");
  driver = some (text "usb");
  devnode = some node_path;
  sysattr = nothing;
  property = nothing;
  parent_usb_device = none;
  is_initialized = true;
}

-- Its number is 2, in every attribute.
abbrev pub interface_info : DeviceInfo
interface_info = record {
  syspath = interface_path;
  devtype = some (text "usb_interface");
  subsystem = some (text "usb");
  driver = some (text "usbfs");
  devnode = none;
  sysattr = λ name. some (text "02");
  property = nothing;
  parent_usb_device = some device_path;
  is_initialized = true;
}

abbrev pub tty_info : DeviceInfo
tty_info = record {
  syspath = tty_path;
  devtype = none;
  subsystem = some (text "tty");
  driver = none;
  devnode = some (text "/dev/ttyACM0");
  sysattr = nothing;
  property = λ name. some (text "/dev/ttyACM0");
  parent_usb_device = some device_path;
  is_initialized = true;
}

abbrev pub usb : Libudev
usb = record {
  device_of_syspath = λ path.
      if same_text path device_path
      then some device_info
      else if same_text path interface_path
      then some interface_info
      else if same_text path tty_path
      then some tty_info
      else none;
  add_match_subsystem = pos 0;
  scan_devices = pos 0;
  names = device_path ∷ interface_path ∷ [];
  add_match_parent = λ path. pos 0;
  scan_children = λ path. pos 0;
  child_names = λ path. interface_path ∷ tty_path ∷ [];
}

pub usb_interface : interface_of usb device_path 2 ≡ some (some interface_info)
unfolding scan_hex read_hex scan_signed scan_number scan_digits hex_value is_space after_digit
usb_interface = refl

abbrev pub device : Device
device = record {
  at = 1;
  syspath = record { at = 2; chars = device_path };
  serial_number = none;
  product_id = 0x2300;
  vendor_id = 0x1ffb;
  revision = 0x0100;
}

abbrev pub interface_dev : UdevDevice
interface_dev = record { at = 50; info = interface_info }

-- Every file exists.
abbrev pub access : List ℕ → Reply
access filename = record { result = pos 0; errno = pos 0 }

abbrev pub interface : Interface
interface = record {
  at = 3;
  device = device;
  interface_number = 2;
  syspath = record { at = 4; chars = interface_path };
  filename = record { at = 5; chars = node_path };
}
