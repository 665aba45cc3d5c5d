-- ===== src/Handle/Opening.antt =====
-- src/linux/generic_handle_linux.c: opening a handle. Its device node is a parameter: what the kernel
-- replies to the calls, and the descriptor that it gives to `read`.
pub mod Checking
pub mod Setup
pub mod Opens
pub mod Faults
use libusbp.Base.{
  ℤ, ℕ, zero, suc, ◌+◌, not, Option, none, some, List, [], ◌∷◌, ◌++◌, text, ◌==◌, if◌then◌else◌,
}
use libusbp.Print.{hex}
use libusbp.Heap.{M, pure, fault, ◌>>=◌, ◌>>◌, malloc, free}
use libusbp.Error.{Error, Text, ErrorPtr, error_create}
use libusbp.PipeId.{max_endpoint_number}
use libusbp.Usbfd.{Reply, open_file, get_device_descriptor}
use libusbp.Device.{
  Device, device_free, string_free, device_get_vendor_id, device_get_product_id,
  device_get_revision,
}
use libusbp.Steps.{proceed, unless_error}
use libusbp.Interface.{Interface}
use libusbp.Interface.Objects.{interface_get_device_copy, interface_get_os_filename}
use libusbp.Handle.{Handle, handle_close}

-- The fields of `struct usb_device_descriptor` that are compared.
pub record Descriptor : Type 0 where
  pub id_vendor : ℕ
  pub id_product : ℕ
  pub bcd_device : ℕ

pub record Node : Type 0 where
  pub open_reply : List ℕ → Reply
  pub lseek_reply : Reply
  pub read_reply : Reply
  pub descriptor : Descriptor

abbrev pub Opened : Type 0
Opened = ErrorPtr × Option Handle

abbrev pub zeros : ℕ → List ℕ
zeros zero = []
zeros (suc n) = 0 ∷ zeros n

-- `calloc` leaves every timeout at 0.
abbrev pub new_handle : (at : ℕ) → Device → (fd : ℤ) → Handle
new_handle at device fd = record {
  at = at;
  device = some device;
  fd = fd;
  in_timeout = zeros (max_endpoint_number + 1);
  out_timeout = zeros (max_endpoint_number + 1);
}

-- The end of `generic_handle_setup`. A file descriptor that is not passed on is -1 there.
finish_setup : Option Text → Option Device → (handle : Option ℕ) → Opened → M Opened
finish_setup filename device handle result = do
  string_free filename
  device_free device
  free handle
  pure result

-- The new handle is written to where there is no error, and is not NULL there only if `calloc` gave
-- one: the code tests its output pointer instead.
assemble : (handle : Option ℕ) → Device → Text → ErrorPtr × ℤ → M Opened
unfolding finish_setup
assemble handle device filename (some e, fd) =
    finish_setup (some filename) (some device) handle (some e, none)
assemble none device filename (none, fd) = fault
assemble (some at) device filename (none, fd) =
    finish_setup (some filename) none none (none, some (new_handle at device fd))

open_node : Node → Interface → (handle : Option ℕ) → Device → M Opened
unfolding assemble finish_setup
open_node node gi handle device =
    interface_get_os_filename (some gi)
    >>= proceed (λ error filename. finish_setup filename (some device) handle (some error, none))
        λ filename.
          open_file (node.open_reply filename.chars) filename.chars
          >>= assemble handle device filename

setup_at : Node → Interface → (handle : Option ℕ) → M Opened
unfolding open_node finish_setup
setup_at node gi handle =
    interface_get_device_copy gi
    >>= proceed (λ error device. finish_setup none device handle (some error, none))
        (open_node node gi handle)

pub generic_handle_setup : Node → Interface → M Opened
unfolding setup_at
generic_handle_setup node gi = malloc >>= setup_at node gi

pass_error : {A : Type 0} → Error → Option A → M ErrorPtr
pass_error error x = pure (some error)

-- One comparison, and what comes after it.
check_field :
    (name : List ℕ) → (actual : ℕ) → (getter : M (ErrorPtr × Option ℕ)) → M ErrorPtr → M ErrorPtr
unfolding pass_error
check_field name actual getter more =
    getter
    >>= proceed pass_error λ expected.
      if not (actual == expected)
      then error_create (
          name
          ++ (text " mismatch: 0x" ++ hex 4 actual (text " != 0x" ++ hex 4 expected (text "."))))
      else more

compare_fields : Descriptor → Handle → M ErrorPtr
unfolding check_field
compare_fields descriptor handle =
    check_field (text "Vendor ID") descriptor.id_vendor
      (device_get_vendor_id (some 0) handle.device)
      (check_field (text "Product ID") descriptor.id_product
        (device_get_product_id (some 0) handle.device)
        (check_field (text "Device revision") descriptor.bcd_device
          (device_get_revision (some 0) handle.device) (pure none)))

pub check_device_descriptor : Node → Handle → M ErrorPtr
unfolding compare_fields
check_device_descriptor node handle =
    get_device_descriptor node.lseek_reply node.read_reply
    >>= unless_error (λ error. pure (some error)) (compare_fields node.descriptor handle)

-- The end of `libusbp_generic_handle_open`.
finish_open : Option Handle → Opened → M Opened
finish_open handle result = do _ ← handle_close handle; pure result

check_handle : Node → Handle → M Opened
unfolding check_device_descriptor finish_open
check_handle node handle =
    check_device_descriptor node handle
    >>= unless_error (λ error. finish_open (some handle) (some error, none))
        (finish_open none (none, some handle))

-- `libusbp_generic_handle_open` with an output pointer that is not NULL.
pub handle_open : Node → Option Interface → M Opened
unfolding generic_handle_setup check_handle finish_open
handle_open node none = do
  error ← error_create (text "Generic interface is null.")
  pure (error, none)
handle_open node (some gi) =
    generic_handle_setup node gi
    >>= proceed (λ error handle. finish_open handle (some error, none)) (check_handle node)
