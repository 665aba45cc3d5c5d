-- ===== src/Transfer.antt =====
-- src/linux/async_in_transfer_linux.c: one asynchronous IN transfer and its USB request block.
pub mod Ownership
pub mod Completing
pub mod Results
mod Tests
use libusbp.Base.{
  ℤ, pos, negsuc, ℕ, zero, suc, ◌+◌, ◌-◌, ◌^◌, Bool, true, false, not, Option, none, some, List, [],
  ◌∷◌, ◌++◌, text, ltb, leb, take, ◌==◌, if◌then◌else◌,
}
use libusbp.Print.{integer}
use libusbp.Heap.{Blocks, block, M, pure, fault, ◌>>=◌, ◌>>◌, malloc, free}
use libusbp.Error.{
  ErrorPtr, owned?, error_create, error_add, error_free, error_copy, error_no_memory,
}
use libusbp.LinuxError.{error_from_urb_status}
use libusbp.Usbfd.{Reply, UrbRequest, submit_urb, discard_urb, store}

-- A block of `size` bytes, with those that the kernel has written at its front.
pub record Buffer : Type 0 where
  pub at : ℕ
  pub size : ℕ
  pub bytes : List ℕ

pub data UrbType : Type 0 where
  iso interrupt control bulk : UrbType

-- The fields of `struct usbdevfs_urb` that the library uses.
pub record Urb : Type 0 where
  pub kind : UrbType
  pub endpoint : ℕ
  pub status : ℤ
  pub buffer : Buffer
  pub buffer_length : ℤ
  pub actual_length : ℤ
  pub error_count : ℤ

-- `struct async_in_transfer`, with its address `at`, which is also the user context of its urb.
pub record Transfer : Type 0 where
  pub at : ℕ
  pub urb : Urb
  pub pending : Bool
  pub error : ErrorPtr
  pub fd : ℤ

abbrev pub owned : Transfer → Blocks
owned t a = block t.at a + block t.urb.buffer.at a + owned? t.error a

abbrev pub int_max : ℕ
int_max = 2 ^ 31 - 1

-- `calloc` clears the struct, so what is not set here is 0, false or NULL.
abbrev pub fresh_transfer : (fd : ℤ) (pipe_id transfer_size at buffer_at : ℕ) → Transfer
fresh_transfer fd pipe_id transfer_size at buffer_at = record {
  at = at;
  urb = record {
    kind = bulk;
    endpoint = pipe_id;
    status = pos 0;
    buffer = record { at = buffer_at; size = transfer_size; bytes = [] };
    buffer_length = pos transfer_size;
    actual_length = pos 0;
    error_count = pos 0;
  };
  pending = false;
  error = none;
  fd = fd;
}

abbrev pub Created : Type 0
Created = ErrorPtr × Option Transfer

assemble : (fd : ℤ) (pipe_id transfer_size at : ℕ) → Option ℕ → M Created
assemble fd pipe_id transfer_size at none = do free (some at); pure (some error_no_memory, none)
assemble fd pipe_id transfer_size at (some buffer_at) =
    pure (none, some (fresh_transfer fd pipe_id transfer_size at buffer_at))

create_buffer : (fd : ℤ) (pipe_id transfer_size : ℕ) → Option ℕ → M Created
unfolding assemble
create_buffer fd pipe_id transfer_size none = pure (some error_no_memory, none)
create_buffer fd pipe_id transfer_size (some at) = malloc >>= assemble fd pipe_id transfer_size at

-- `async_in_transfer_create`, for a handle with the file descriptor `fd`. The caller's pointer is
-- written only where there is no error.
pub create : (fd : ℤ) (pipe_id transfer_size : ℕ) → M Created
unfolding create_buffer
create fd pipe_id transfer_size =
    if transfer_size == 0
    then fault
    else if ltb int_max transfer_size
    then (do error ← error_create (text "Transfer size is too large."); pure (error, none))
    else malloc >>= create_buffer fd pipe_id transfer_size

-- `async_in_transfer_free`: a pending transfer is leaked, since the kernel may still write to it.
pub transfer_free : Transfer → M (Unit {0})
transfer_free t =
    if t.pending
    then pure tt
    else do error_free t.error; free (some t.urb.buffer.at); free (some t.at); pure tt

settle_submission : Transfer → ErrorPtr → Transfer
settle_submission t none = record t { pending = true; error = none }
settle_submission t (some e) = record t { pending = false; error = some e }

-- `async_in_transfer_submit`, with the kernel's reply to the request.
pub submit : Reply → Transfer → M Transfer
unfolding settle_submission
submit reply t =
    if t.pending
    then fault
    else do error_free t.error; error ← submit_urb reply; pure (settle_submission t error)

-- What the kernel has written to a urb when it is reaped.
pub record Completion : Type 0 where
  pub status : ℤ
  pub actual_length : ℤ
  pub error_count : ℤ
  pub bytes : List ℕ

abbrev pub written : Completion → Transfer → Transfer
written c t = record t {
  urb = record (t.urb) {
    status = c.status;
    buffer = record (t.urb.buffer) { bytes = c.bytes };
    actual_length = c.actual_length;
    error_count = c.error_count;
  };
}

pub is_zero : ℤ → Bool
is_zero (pos zero) = true
is_zero (pos (suc n)) = false
is_zero (negsuc n) = false

-- The second check is made only where the first found no error.
check_error_count : ℤ → ErrorPtr → M ErrorPtr
unfolding is_zero
check_error_count count (some e) = pure (some e)
check_error_count count none =
    if is_zero count
    then pure none
    else error_create (text "Non-zero error count for USB request: " ++ (integer count ++ text "."))

add_context : ErrorPtr → M ErrorPtr
add_context none = pure none
add_context (some e) = error_add (some e) (text "Asynchronous IN transfer failed.")

-- `async_in_transfer_handle_completion`, on a transfer whose urb the kernel has written to.
pub handle_completion : Transfer → M Transfer
unfolding check_error_count add_context
handle_completion t = do
  error ← error_from_urb_status t.urb.status
  error ← check_error_count t.urb.error_count error
  error ← add_context error
  pure (record t { pending = false; error = error })

-- A conversion to `size_t`, which has 64 bits.
abbrev pub to_size : ℤ → ℕ
to_size (pos n) = n
to_size (negsuc n) = 2 ^ 64 - 1 - n

abbrev pub clamped_length : Urb → ℕ
clamped_length u =
    if ltb (to_size u.buffer_length) (to_size u.actual_length)
    then to_size u.buffer_length
    else to_size u.actual_length

-- What the caller's output pointers point to, each NULL or with the old value.
pub record Outputs : Type 0 where
  pub buffer : Option (List ℕ)
  pub transferred : Option ℕ
  pub transfer_error : Option ErrorPtr

-- `memcpy` of `n` bytes: undefined past the end of the buffer that it reads.
copy_bytes : Buffer → ℕ → Option (List ℕ) → M (Option (List ℕ))
copy_bytes b n none = pure none
copy_bytes b n (some _) = if leb n b.size then pure (some (take n b.bytes)) else fault

copy_error : ErrorPtr → Option ErrorPtr → M (Option ErrorPtr)
copy_error e none = pure none
copy_error e (some _) = do c ← error_copy e; pure (some c)

-- `async_in_transfer_get_results`, which never returns an error.
unfoldable pub get_results : Transfer → Outputs → M Outputs
unfolding copy_bytes copy_error
get_results t out = if t.pending then fault else do
  buffer ← copy_bytes t.urb.buffer (clamped_length t.urb) out.buffer
  transfer_error ← copy_error t.error out.transfer_error
  pure (record {
    buffer = buffer;
    transferred = store (clamped_length t.urb) out.transferred;
    transfer_error = transfer_error;
  })

-- `async_in_transfer_cancel`: the transfer itself is left for the kernel to complete.
unfoldable pub cancel : (UrbRequest → Reply) → Transfer → M ErrorPtr
cancel kernel t = discard_urb kernel t.fd t.at
