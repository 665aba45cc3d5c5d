-- ===== src/Interface.antt =====
-- src/linux/generic_interface_linux.c: generic interfaces, which name an interface of a device and its
-- device node.
pub mod Objects
pub mod Ends
pub mod Creation
pub mod Success
mod Tests
use libusbp.Base.{
  ℕ, ◌+◌, Bool, true, false, not, ◌&&◌, ◌||◌, Option, none, some, List, [], ◌∷◌, ◌++◌, text,
  same_text, if◌then◌else◌,
}
use libusbp.Heap.{Blocks, block, block?, M, pure, ◌>>=◌, ◌>>◌, malloc, free}
use libusbp.Error.{Error, Text, ErrorPtr, error_create, error_add, error_no_memory, text_block}
use libusbp.Usbfd.{Reply, check_existence}
use libusbp.Device
use libusbp.Device.{Device, device_copy, device_free, device_get_os_id, string_copy, string_free}
use libusbp.Steps.{proceed, unless_error}
use libusbp.Udev.{Libudev, UdevDevice, create_context, get_syspath_copy}
use libusbp.Finding.{get_interface, get_devnode_copy_from_syspath}

-- `struct libusbp_generic_interface`, with its address `at`. None of its pointers is NULL.
pub record Interface : Type 0 where
  pub at : ℕ
  pub device : Device
  pub interface_number : ℕ
  pub syspath : Text
  pub filename : Text

abbrev pub owned : Interface → Blocks
owned gi a =
    block gi.at a + (Device.owned gi.device a + (block gi.syspath.at a + block gi.filename.at a))

abbrev pub Created : Type 0
Created = ErrorPtr × Option Interface

check_driver : Option (List ℕ) → M ErrorPtr
check_driver none = pure none
check_driver (some name) =
    if same_text name (text "usbfs") || same_text name (text "cp210x")
    then pure none
    else error_create (text "Device is attached to an incorrect driver: " ++ (name ++ text "."))

pub check_driver_installation : UdevDevice → M ErrorPtr
unfolding check_driver
check_driver_installation dev = check_driver dev.info.driver

-- The local variables of `libusbp_generic_interface_create`, which start as NULL.
pub record Locals : Type 0 where
  pub gi : Option ℕ
  pub device : Option Device
  pub device_syspath : Option Text
  pub udev : Option ℕ
  pub dev : Option ℕ
  pub interface_syspath : Option Text
  pub filename : Option Text

abbrev pub no_locals : Locals
no_locals = record {
  gi = none;
  device = none;
  device_syspath = none;
  udev = none;
  dev = none;
  interface_syspath = none;
  filename = none;
}

-- The end of `libusbp_generic_interface_create`.
pub finish : Locals → Created → M Created
finish l result = do
  string_free l.filename
  string_free l.interface_syspath
  string_free l.device_syspath
  device_free l.device
  free l.gi
  free l.dev
  free l.udev
  pure result

pub fail : Locals → Error → M Created
unfolding finish
fail l error = do
  error' ← error_add (some error) (text "Failed to initialize generic interface.")
  finish l (error', none)

abbrev address? : Option UdevDevice → Option ℕ
address? none = none
address? (some dev) = some dev.at

-- The steps, each with what the steps before it made.
module _ (lib : Libudev) (access : List ℕ → Reply) (interface_number : ℕ) where
  assemble : (at : ℕ) → Device → Text → (udev : ℕ) → UdevDevice → Text → Text → M Created
  unfolding finish
  assemble at device device_syspath udev dev interface_syspath filename =
      finish
        (record no_locals {
          device_syspath = some device_syspath;
          udev = some udev;
          dev = some dev.at;
        })
        (
          none,
          some (record {
            at = at;
            device = device;
            interface_number = interface_number;
            syspath = interface_syspath;
            filename = filename;
          }),
        )

  find_node : (at : ℕ) → Device → Text → (udev : ℕ) → UdevDevice → Text → M Created
  unfolding assemble fail
  find_node at device device_syspath udev dev interface_syspath =
      let l : Locals = record no_locals {
        gi = some at;
        device = some device;
        device_syspath = some device_syspath;
        udev = some udev;
        dev = some dev.at;
        interface_syspath = some interface_syspath;
      } in
      get_devnode_copy_from_syspath lib device_syspath.chars
      >>= proceed (λ error filename. fail (record l { filename = filename }) error)
          λ filename.
            check_existence (access filename.chars) filename.chars
            >>= unless_error (fail (record l { filename = some filename }))
                (assemble at device device_syspath udev dev interface_syspath filename)

  check_interface : (at : ℕ) → Device → Text → (udev : ℕ) → UdevDevice → M Created
  unfolding find_node fail
  check_interface at device device_syspath udev dev =
      let l : Locals = record no_locals {
        gi = some at;
        device = some device;
        device_syspath = some device_syspath;
        udev = some udev;
        dev = some dev.at;
      } in
      check_driver_installation dev
      >>= unless_error (fail l) (
          get_syspath_copy dev
          >>= proceed (λ error syspath. fail (record l { interface_syspath = syspath }) error)
              (find_node at device device_syspath udev dev))

  find_interface : (at : ℕ) → Device → Text → M Created
  unfolding check_interface fail
  find_interface at device device_syspath =
      let l : Locals = record no_locals {
        gi = some at;
        device = some device;
        device_syspath = some device_syspath;
      } in
      create_context
      >>= proceed (λ error udev. fail (record l { udev = udev }) error)
          λ udev.
            get_interface lib device_syspath.chars interface_number
            >>= proceed
                (λ error dev. fail (record l { udev = some udev; dev = address? dev }) error)
                (check_interface at device device_syspath udev)

  copy_device : Device → Option ℕ → M Created
  unfolding find_interface fail
  copy_device device none = fail no_locals error_no_memory
  copy_device device (some at) =
      let l : Locals = record no_locals { gi = some at } in
      device_copy (some device)
      >>= proceed (λ error copy. fail (record l { device = copy }) error)
          λ copy.
            device_get_os_id (some copy)
            >>= proceed
                (λ error syspath.
                  fail (record l { device = some copy; device_syspath = syspath }) error)
                (find_interface at copy)

  -- `libusbp_generic_interface_create` with an output pointer that is not NULL.
  pub interface_create : Option Device → M Created
  unfolding copy_device
  interface_create none = do error ← error_create (text "Device is null."); pure (error, none)
  interface_create (some device) = malloc >>= copy_device device
