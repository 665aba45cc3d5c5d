-- ===== src/Usbfd.antt =====
-- src/linux/usbfd_linux.c: the requests on a USB device node file. The kernel is an argument: a
-- function from the request to its reply, or the reply itself where the request has no content that
-- the library chooses.
pub mod Requests
pub mod Files
use libusbp.Base.{
  ℤ, pos, negsuc, ℕ, ◌^◌, ◌-◌, Bool, true, false, not, ◌&&◌, Option, none, some, List, [], ◌++◌,
  text, ltb, ◌==◌, if◌then◌else◌, is_some,
}
use libusbp.Print.{integer}
use libusbp.Heap.{M, pure, ◌>>=◌}
use libusbp.Error.{ErrorPtr, error_create, error_add_code, error_not_ready}
use libusbp.LinuxError.{error_create_errno}
use libusbp.LinuxError.Errno.{enoent, eagain, einval}
use libusbp.PipeId.{is_in}

-- The value that a system call returns, and errno after it.
pub record Reply : Type 0 where
  pub result : ℤ
  pub errno : ℤ

abbrev pub is_negative : ℤ → Bool
is_negative (pos n) = false
is_negative (negsuc n) = true

abbrev pub equals : ℤ → ℕ → Bool
equals (pos m) n = m == n
equals (negsuc m) n = false

abbrev pub to_ℕ : ℤ → ℕ
to_ℕ (pos n) = n
to_ℕ (negsuc n) = 0

abbrev pub is_minus_one : ℤ → Bool
is_minus_one (pos n) = false
is_minus_one (negsuc n) = n == 0

-- A write through an output pointer, NULL or with what it points to.
abbrev pub store {ℓ} : {A : Type ℓ} → A → Option A → Option A
store a none = none
store a (some _) = some a

unfoldable pub check_existence : Reply → List ℕ → M ErrorPtr
check_existence access filename =
    if equals access.result 0
    then pure none
    else if equals access.errno enoent
    then (do
      error ← error_create (text "File does not exist: " ++ (filename ++ text "."))
      error_add_code error error_not_ready)
    else error_create_errno access.errno (text "Failed to check file: " ++ (filename ++ text "."))

open_result : List ℕ → ℤ → ℤ → M (ErrorPtr × ℤ)
open_result filename errno (negsuc n) =
    if n == 0
    then (do
      error ← error_create_errno errno (text "Failed to open USB device " ++ (filename ++ text "."))
      pure (error, negsuc n))
    else pure (none, negsuc n)
open_result filename errno (pos n) = pure (none, pos n)

-- The descriptor, which is -1 where `open` fails.
unfoldable pub open_file : Reply → List ℕ → M (ErrorPtr × ℤ)
unfolding open_result
open_file reply filename = open_result filename reply.errno reply.result

-- `struct usb_device_descriptor` has 18 bytes.
abbrev pub device_descriptor_size : ℕ
device_descriptor_size = 18

-- The replies of `lseek` and `read`.
unfoldable pub get_device_descriptor : Reply → Reply → M ErrorPtr
get_device_descriptor lseek read =
    if is_minus_one lseek.result
    then error_create_errno lseek.errno (text "Failed to go to beginning of USB device file.")
    else if is_minus_one read.result
    then error_create_errno read.errno (text "Failed to read device descriptor.")
    else if not (equals read.result device_descriptor_size)
    then error_create (
        text "Failed to read device descriptor.  Expected "
        ++ (integer (pos device_descriptor_size)
            ++ (text "-byte device descriptor, read " ++ (integer read.result ++ text " bytes."))))
    else pure none

-- `struct usbdevfs_ctrltransfer`, with the address of the data or NULL.
pub record CtrlTransfer : Type 0 where
  pub request_type : ℕ
  pub request : ℕ
  pub value : ℕ
  pub index : ℕ
  pub length : ℕ
  pub timeout : ℕ
  pub data_at : Option ℕ

-- `struct usbdevfs_bulktransfer`
pub record BulkTransfer : Type 0 where
  pub ep : ℕ
  pub len : ℕ
  pub timeout : ℕ
  pub data_at : Option ℕ

-- What a transfer gives the caller: the error, and `*transferred`.
abbrev pub Outcome : Type 0
Outcome = ErrorPtr × Option ℕ

unfoldable pub control_transfer : (CtrlTransfer → Reply) → CtrlTransfer → Option ℕ → M Outcome
control_transfer kernel transfer transferred =
    let reply = kernel transfer in
    if is_negative reply.result
    then (do
      error ← error_create_errno reply.errno (text "Control transfer failed.")
      pure (error, store 0 transferred))
    else pure (none, store (to_ℕ reply.result) transferred)

abbrev pub uint_max : ℕ
uint_max = 2 ^ 32 - 1

abbrev pub refuse : List ℕ → Option ℕ → M Outcome
refuse message transferred = do error ← error_create message; pure (error, store 0 transferred)

unfoldable pub bulk_or_interrupt_transfer :
    (BulkTransfer → Reply) → (pipe timeout : ℕ) → Option ℕ → ℕ → Option ℕ → M Outcome
bulk_or_interrupt_transfer kernel pipe timeout buffer size transferred =
    if size == 0 && is_in pipe
    then refuse (text "Transfer size 0 is not allowed.") transferred
    else if ltb uint_max size
    then refuse (text "Transfer size is too large.") transferred
    else if not (is_some buffer) && not (size == 0)
    then refuse (text "Buffer is null.") transferred
    else let reply =
        kernel (record { ep = pipe; len = size; timeout = timeout; data_at = buffer }) in
      if is_negative reply.result
      then (do error ← error_create_errno reply.errno []; pure (error, store 0 transferred))
      else pure (none, store (to_ℕ reply.result) transferred)

unfoldable pub submit_urb : Reply → M ErrorPtr
submit_urb reply =
    if is_negative reply.result
    then error_create_errno reply.errno (text "Submitting USB request block failed.")
    else pure none

-- The address of the urb that was reaped, if there was one.
unfoldable pub reap_urb : {U : Type 0} → Reply → U → M (ErrorPtr × Option U)
reap_urb reply urb =
    if is_negative reply.result
    then if equals reply.errno eagain then pure (none, none) else (do
      error ← error_create_errno reply.errno (text "Failed to reap an asynchronous transfer.")
      pure (error, none))
    else pure (none, some urb)

-- What a request to discard a urb names: the file, and the address of the transfer that the urb
-- lies in.
pub record UrbRequest : Type 0 where
  pub fd : ℤ
  pub urb : ℕ

unfoldable pub discard_urb : (UrbRequest → Reply) → (fd : ℤ) → (urb : ℕ) → M ErrorPtr
discard_urb kernel fd urb =
    let reply = kernel (record { fd = fd; urb = urb }) in
    if is_negative reply.result
    then if equals reply.errno einval
      then pure none
      else error_create_errno reply.errno (text "Failed to cancel asynchronous transfer.")
    else pure none
