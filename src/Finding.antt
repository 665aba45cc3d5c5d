-- ===== src/Finding.antt =====
-- src/linux/udev_linux.c: the search for an interface of a USB device and for the tty of an interface,
-- and the device node of a USB device.
pub mod Verdicts
pub mod Loop
pub mod Found
pub mod Nodes
mod Tests
use libusbp.Base.{
  ℕ, Bool, true, false, not, Option, none, some, List, [], ◌++◌, ◌∷◌, text, same_text, ◌==◌,
  if◌then◌else◌,
}
use libusbp.Print.{decimal}
use libusbp.Heap.{M, pure, ◌>>=◌, ◌>>◌, free}
use libusbp.Error.{Error, Text, ErrorPtr, error_create, error_add_code, error_not_ready}
use libusbp.Device.{string_copy}
use libusbp.Steps.{proceed}
use libusbp.Udev.{
  Libudev, UdevDevice, create_context, create_usb_list, create_child_list, get_device_from_syspath,
  get_device_type, get_sysattr_uint8, get_parent_usb_device, get_devnode,
}

broken_check : {A : Type 0} → Error → Option A → M (ErrorPtr × Bool)
broken_check error x = pure (some error, false)

check_parent : (device_syspath : List ℕ) → UdevDevice → M (ErrorPtr × Bool)
unfolding broken_check
check_parent device_syspath dev =
    get_parent_usb_device dev
    >>= proceed broken_check λ syspath. pure (none, same_text syspath device_syspath)

check_number : (device_syspath : List ℕ) → (interface_number : ℕ) → UdevDevice → M (ErrorPtr × Bool)
unfolding check_parent broken_check
check_number device_syspath interface_number dev =
    get_sysattr_uint8 dev (text "bInterfaceNumber")
    >>= proceed broken_check λ actual.
      if not (actual == interface_number)
      then pure (none, false)
      else check_parent device_syspath dev

pub check_if_device_is_specific_interface :
    (device_syspath : List ℕ) → (interface_number : ℕ) → UdevDevice → M (ErrorPtr × Bool)
unfolding check_number broken_check
check_if_device_is_specific_interface device_syspath interface_number dev =
    get_device_type dev
    >>= proceed broken_check λ devtype.
      if not (same_text devtype (text "usb_interface"))
      then pure (none, false)
      else check_number device_syspath interface_number dev

abbrev is_tty : Option (List ℕ) → Bool
is_tty none = false
is_tty (some subsystem) = same_text subsystem (text "tty")

pub check_tty : UdevDevice → M (ErrorPtr × Bool)
check_tty dev = pure (none, is_tty dev.info.subsystem)

-- The error and `found_device`, where the loop ends.
abbrev Search : Type 0
Search = M (ErrorPtr × Option UdevDevice)

-- The end of one round, where `rest` is the next.
after_check : Search → UdevDevice → ErrorPtr × Bool → Search
after_check rest dev (some error, correct) = do free (some dev.at); pure (some error, none)
after_check rest dev (none, correct) =
    if correct then pure (none, some dev) else do free (some dev.at); rest

broken_search : Error → Option UdevDevice → Search
broken_search error dev = pure (some error, none)

-- The loop over the names, with the check of one device.
pub find_loop : Libudev → (UdevDevice → M (ErrorPtr × Bool)) → List (List ℕ) → Search
unfolding after_check broken_search
find_loop lib check [] = pure (none, none)
find_loop lib check (name ∷ names) =
    get_device_from_syspath lib name
    >>= proceed broken_search λ dev. check dev >>= after_check (find_loop lib check names) dev

settle_absent : (list : ℕ) → ErrorPtr → Search
settle_absent list error = do free (some list); pure (error, none)

-- After the loop, with the enumeration.
settle : (message : List ℕ) → (list : ℕ) → ErrorPtr × Option UdevDevice → Search
unfolding settle_absent
settle message list (some error, dev) = do free (some list); pure (some error, none)
settle message list (none, some dev) = do free (some list); pure (none, some dev)
settle message list (none, none) = do
  error ← error_create message
  error ← error_add_code error error_not_ready
  settle_absent list error

broken_list : Error → Option ℕ → Search
broken_list error list = do free list; pure (some error, none)

pub get_interface : Libudev → (device_syspath : List ℕ) → (interface_number : ℕ) → Search
unfolding find_loop settle broken_list
get_interface lib device_syspath interface_number =
    create_usb_list lib
    >>= proceed broken_list λ list.
      find_loop lib (check_if_device_is_specific_interface device_syspath interface_number)
        lib.names
      >>= settle (text "Could not find interface " ++ (decimal interface_number ++ text ".")) list

pub get_tty : Libudev → (parent : UdevDevice) → Search
unfolding find_loop settle broken_list
get_tty lib parent =
    create_child_list lib parent
    >>= proceed broken_list λ list.
      find_loop lib check_tty (lib.child_names parent.info.syspath)
      >>= settle (text "Could not find tty device.") list

no_copy : Error → Option (List ℕ) → M (ErrorPtr × Option Text)
no_copy error str = pure (some error, none)

pub get_devnode_copy : UdevDevice → M (ErrorPtr × Option Text)
unfolding no_copy
get_devnode_copy dev =
    get_devnode dev >>= proceed no_copy λ str. string_copy (record { at = 0; chars = str })

-- The end of `udevw_get_devnode_copy_from_syspath`.
give_back : (device context : Option ℕ) → ErrorPtr × Option Text → M (ErrorPtr × Option Text)
give_back device context result = do free device; free context; pure result

abbrev address? : Option UdevDevice → Option ℕ
address? none = none
address? (some dev) = some dev.at

pub get_devnode_copy_from_syspath : Libudev → (syspath : List ℕ) → M (ErrorPtr × Option Text)
unfolding give_back
get_devnode_copy_from_syspath lib syspath =
    create_context
    >>= proceed (λ error context. give_back none context (some error, none))
        λ context.
          get_device_from_syspath lib syspath
          >>= proceed (λ error dev. give_back (address? dev) (some context) (some error, none))
              λ dev. get_devnode_copy dev >>= give_back (some dev.at) (some context)
