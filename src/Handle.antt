-- ===== src/Handle.antt =====
-- src/linux/generic_handle_linux.c: handles to USB devices, their timeouts and their transfers. The
-- handling of events is in Events.
pub mod Timeouts
pub mod Transfers
pub mod Opening
mod Tests
use Prim.Native.Nat.{bit_and}
use libusbp.Base.{
  ℤ, negsuc, ℕ, ◌+◌, Bool, true, false, Option, none, some, List, [], ◌++◌, text, get_elem?, set,
  if◌then◌else◌,
}
use libusbp.Heap.{Blocks, block, M, pure, fault, ◌>>=◌, ◌>>◌, free}
use libusbp.Error.{ErrorPtr, error_create, error_add}
use libusbp.PipeId.{is_in, max_endpoint_number, check_pipe_id, check_pipe_id_in, check_pipe_id_out}
use libusbp.Usbfd.{
  Reply, CtrlTransfer, BulkTransfer, Outcome, store, control_transfer, bulk_or_interrupt_transfer,
}
use libusbp.Device
use libusbp.Device.{Device, device_free}
use libusbp.Pipe

-- `struct libusbp_generic_handle`, with its address `at`. The timeouts are milliseconds, and 0 is
-- forever.
pub record Handle : Type 0 where
  pub at : ℕ
  pub device : Option Device
  pub fd : ℤ
  pub in_timeout : List ℕ
  pub out_timeout : List ℕ

-- `libusbp_generic_handle_close`. The result is the file descriptor that it closes.
pub handle_close : Option Handle → M (Option ℤ)
handle_close none = pure none
handle_close (some handle) = do
  device_free handle.device
  free (some handle.at)
  pure (some handle.fd)

-- The write of an array entry: undefined where there is none.
store_at : Option ℕ → List ℕ → ℕ → ℕ → M (List ℕ)
store_at none ts i v = fault
store_at (some _) ts i v = pure (set ts i v)

write_timeout : Handle → (pipe_id timeout : ℕ) → M Handle
unfolding store_at
write_timeout handle pipe_id timeout =
    let endpoint_number = bit_and pipe_id max_endpoint_number in
    if is_in pipe_id
    then (do
      ts ←
          store_at (get_elem? handle.in_timeout endpoint_number) handle.in_timeout endpoint_number
            timeout
      pure (record handle { in_timeout = ts }))
    else do
      ts ←
          store_at (get_elem? handle.out_timeout endpoint_number) handle.out_timeout endpoint_number
            timeout
      pure (record handle { out_timeout = ts })

set_if_accepted : Handle → (pipe_id timeout : ℕ) → ErrorPtr → M (ErrorPtr × Handle)
unfolding write_timeout
set_if_accepted handle pipe_id timeout (some e) = pure (some e, handle)
set_if_accepted handle pipe_id timeout none = do
  handle' ← write_timeout handle pipe_id timeout
  pure (none, handle')

-- `libusbp_generic_handle_set_timeout` on a handle that is not NULL.
pub set_timeout : Handle → (pipe_id timeout : ℕ) → M (ErrorPtr × Handle)
unfolding set_if_accepted
set_timeout handle pipe_id timeout = do
  error ← check_pipe_id pipe_id
  set_if_accepted handle pipe_id timeout error

-- The read of an array entry: undefined where there is none.
timeout_at : List ℕ → ℕ → M ℕ
timeout_at ts i = go (get_elem? ts i)
  where
    go : Option ℕ → M ℕ
    go none = fault
    go (some t) = pure t

-- `struct libusbp_setup_packet`
pub record SetupPacket : Type 0 where
  pub request_type : ℕ
  pub request : ℕ
  pub value : ℕ
  pub index : ℕ
  pub length : ℕ

abbrev null_handle : Option ℕ → M Outcome
null_handle transferred = do
  error ← error_create (text "Generic handle is null.")
  pure (error, store 0 transferred)

-- `libusbp_control_transfer`, with the address of the data or NULL.
pub handle_control_transfer :
    (CtrlTransfer → Reply)
    → Option Handle
    → SetupPacket
    → (data_at : Option ℕ) → Option ℕ
    → M Outcome
unfolding timeout_at
handle_control_transfer kernel none setup data_at transferred = null_handle transferred
handle_control_transfer kernel (some handle) setup data_at transferred = do
  timeout ← timeout_at handle.out_timeout 0
  control_transfer kernel
      (record {
        request_type = setup.request_type;
        request = setup.request;
        value = setup.value;
        index = setup.index;
        length = setup.length;
        timeout = timeout;
        data_at = data_at;
      })
      (store 0 transferred)

-- The transfer of `libusbp_read_pipe` and `libusbp_write_pipe`, where the pipe ID was accepted.
transfer_if_accepted :
    (BulkTransfer → Reply)
    → (timeouts : List ℕ) → (pipe_id : ℕ) → Option ℕ
    → ℕ
    → Option ℕ
    → ErrorPtr
    → M Outcome
unfolding timeout_at
transfer_if_accepted kernel timeouts pipe_id buffer size transferred (some e) =
    pure (some e, transferred)
transfer_if_accepted kernel timeouts pipe_id buffer size transferred none = do
  timeout ← timeout_at timeouts (bit_and pipe_id max_endpoint_number)
  bulk_or_interrupt_transfer kernel pipe_id timeout buffer size transferred

add_failure : List ℕ → Outcome → M Outcome
add_failure context (none, transferred) = pure (none, transferred)
add_failure context (some e, transferred) = do
  error ← error_add (some e) context
  pure (error, transferred)

-- `libusbp_read_pipe`
pub read_pipe :
    (BulkTransfer → Reply)
    → Option Handle
    → (pipe_id : ℕ) → (buffer : Option ℕ) → (size : ℕ) → Option ℕ
    → M Outcome
unfolding transfer_if_accepted add_failure
read_pipe kernel none pipe_id buffer size transferred = null_handle transferred
read_pipe kernel (some handle) pipe_id buffer size transferred = do
  error ← check_pipe_id_in pipe_id
  outcome ←
      transfer_if_accepted kernel handle.in_timeout pipe_id buffer size (store 0 transferred) error
  add_failure (text "Failed to read from pipe.") outcome

-- `libusbp_write_pipe`
pub write_pipe :
    (BulkTransfer → Reply)
    → Option Handle
    → (pipe_id : ℕ) → (buffer : Option ℕ) → (size : ℕ) → Option ℕ
    → M Outcome
unfolding transfer_if_accepted add_failure
write_pipe kernel none pipe_id buffer size transferred = null_handle transferred
write_pipe kernel (some handle) pipe_id buffer size transferred = do
  error ← check_pipe_id_out pipe_id
  outcome ←
      transfer_if_accepted kernel handle.out_timeout pipe_id buffer size (store 0 transferred) error
  add_failure (text "Failed to write to pipe.") outcome

-- `libusbp_generic_handle_get_fd`
pub get_fd : Option Handle → ℤ
get_fd none = negsuc 0
get_fd (some handle) = handle.fd

abbrev handle_fd : Option Handle → Option ℤ
handle_fd none = none
handle_fd (some handle) = some handle.fd

-- `libusbp_generic_handle_open_async_in_pipe`
pub open_async_in_pipe : (has_output : Bool) → Option Handle → (pipe_id : ℕ) → M Pipe.Outcome
open_async_in_pipe has_output handle pipe_id = Pipe.create has_output (handle_fd handle) pipe_id
