-- ===== src/Pipe.antt =====
-- src/async_in_pipe.c: asynchronous IN pipes, a ring of transfers, as compiled for Linux. Where a
-- NULL pipe is an argument, it is `none`.
pub mod Ring
pub mod Blocks
pub mod Invariant
pub mod Submit
pub mod Start
pub mod Release
pub mod Making
pub mod Allocate
pub mod Finish
pub mod Create
pub mod Cancel
mod Null
mod Tests
use libusbp.Base.{
  ℤ, ℕ, zero, suc, ◌+◌, ◌-◌, Bool, true, false, not, Option, none, some, List, [], ◌∷◌, text, ltb,
  leb, ◌==◌, if◌then◌else◌, get_elem?, set, is_some,
}
use libusbp.Heap.{M, pure, fault, ◌>>=◌, ◌>>◌, malloc, free}
use libusbp.Error.{ErrorPtr, error_create, error_add, error_no_memory}
use libusbp.PipeId.{check_pipe_id, is_in}
use libusbp.Usbfd.{Reply, UrbRequest, store}
use libusbp.Transfer
use libusbp.Transfer.{Transfer, Outputs, Created}

-- The block of the array, and its entries. While the array is built its other entries are NULL.
pub record TransferArray : Type 0 where
  pub at : ℕ
  pub transfers : List Transfer

-- `struct libusbp_async_in_pipe`, with its address `at`. Of its generic handle it uses the file
-- descriptor alone.
pub record Pipe : Type 0 where
  pub at : ℕ
  pub handle_fd : ℤ
  pub pipe_id : ℕ
  pub transfer_array : Option TransferArray
  pub transfer_size : ℕ
  pub transfer_count : ℕ
  pub endless_transfers_enabled : Bool
  pub pending_count : ℕ
  pub next_finish : ℕ
  pub next_submit : ℕ

abbrev pub transfers_in : Option TransferArray → List Transfer
transfers_in none = []
transfers_in (some a) = a.transfers

abbrev pub transfers_of : Pipe → List Transfer
transfers_of p = transfers_in p.transfer_array

abbrev pub with_transfers : List Transfer → Option TransferArray → Option TransferArray
with_transfers ts none = none
with_transfers ts (some a) = some (record a { transfers = ts })

abbrev pub increment_and_wrap_size : ℕ → ℕ → ℕ
increment_and_wrap_size n bound = if leb bound (n + 1) then 0 else n + 1

pub free_transfers : List Transfer → M (Unit {0})
free_transfers [] = pure tt
free_transfers (t ∷ ts) = do Transfer.transfer_free t; free_transfers ts

pub array_free : Option TransferArray → M (Unit {0})
array_free none = pure tt
array_free (some a) = do free_transfers a.transfers; free (some a.at); pure tt

-- `libusbp_async_in_pipe_close`
pub close : Option Pipe → M (Unit {0})
close none = pure tt
close (some p) = do array_free p.transfer_array; free (some p.at); pure tt

abbrev pub fresh_pipe : ℤ → (pipe_id at : ℕ) → Pipe
fresh_pipe fd pipe_id at = record {
  at = at;
  handle_fd = fd;
  pipe_id = pipe_id;
  transfer_array = none;
  transfer_size = 0;
  transfer_count = 0;
  endless_transfers_enabled = false;
  pending_count = 0;
  next_finish = 0;
  next_submit = 0;
}

-- An error and what is left of an object.
abbrev pub Outcome : Type 0
Outcome = ErrorPtr × Option Pipe

pub wrap_pipe : ℤ → ℕ → Option ℕ → M Outcome
wrap_pipe fd pipe_id none = pure (some error_no_memory, none)
wrap_pipe fd pipe_id (some at) = pure (none, some (fresh_pipe fd pipe_id at))

pub allocate_pipe : ℤ → ℕ → ErrorPtr → M Outcome
unfolding wrap_pipe
allocate_pipe fd pipe_id (some e) = pure (some e, none)
allocate_pipe fd pipe_id none = malloc >>= wrap_pipe fd pipe_id

pub check_direction : ℕ → ErrorPtr → M ErrorPtr
check_direction pipe_id (some e) = pure (some e)
check_direction pipe_id none =
    if is_in pipe_id
    then pure none
    else error_create (text "Asynchronous pipes for OUT endpoints are not supported.")

pub create_on : Option ℤ → ℕ → M Outcome
unfolding check_direction allocate_pipe
create_on none pipe_id = do e ← error_create (text "Generic handle is null."); pure (e, none)
create_on (some fd) pipe_id = do
  error ← check_pipe_id pipe_id
  error ← check_direction pipe_id error
  allocate_pipe fd pipe_id error

-- `async_in_pipe_create`, by whether the output pointer is not NULL and with the file descriptor of
-- the handle, if that is not NULL. `async_in_pipe_setup` does nothing on Linux.
pub create : (has_output : Bool) → Option ℤ → (pipe_id : ℕ) → M Outcome
unfolding create_on
create has_output handle pipe_id =
    if has_output
    then create_on handle pipe_id
    else do e ← error_create (text "Pipe output pointer is null."); pure (e, none)

abbrev pub Made : Type 0
Made = ErrorPtr × List Transfer

-- The transfers made so far are kept where the next fails.
pub collect : M Made → Created → M Made
collect more (none, some t) = do (error, ts) ← more; pure (error, t ∷ ts)
collect more (error, _) = pure (error, [])

pub create_transfers : ℤ → (pipe_id transfer_size : ℕ) → ℕ → M Made
create_transfers fd pipe_id transfer_size zero = pure (none, [])
create_transfers fd pipe_id transfer_size (suc n) =
    Transfer.create fd pipe_id transfer_size
    >>= collect (create_transfers fd pipe_id transfer_size n)

pub fail_allocation : ErrorPtr → M ErrorPtr
fail_allocation e = error_add e (text "Failed to allocate transfers for asynchronous IN pipe.")

pub install : Pipe → (count size at : ℕ) → Made → M (ErrorPtr × Pipe)
install p count size at (none, ts) = pure (
  none,
  record p {
    transfer_array = some (record { at = at; transfers = ts });
    transfer_count = count;
    transfer_size = size;
  },
)
install p count size at (some e, ts) = do
  array_free (some (record { at = at; transfers = ts }))
  error ← fail_allocation (some e)
  pure (error, p)

pub allocate_in : Pipe → (count size : ℕ) → Option ℕ → M (ErrorPtr × Pipe)
allocate_in p count size none = do error ← fail_allocation (some error_no_memory); pure (error, p)
allocate_in p count size (some at) =
    create_transfers p.handle_fd p.pipe_id size count >>= install p count size at

abbrev pub refuse : List ℕ → Pipe → M (ErrorPtr × Pipe)
refuse message p = do e ← error_create message; pure (e, p)

-- The test for a NULL pipe with which the public functions begin.
pub on_pipe : (Pipe → M (ErrorPtr × Pipe)) → Option Pipe → M Outcome
on_pipe f none = do e ← error_create (text "Pipe argument is null."); pure (e, none)
on_pipe f (some p) = do (e, p') ← f p; pure (e, some p')

-- `libusbp_async_in_pipe_allocate_transfers` on a pipe that is not NULL.
pub allocate_transfers : Pipe → (transfer_count transfer_size : ℕ) → M (ErrorPtr × Pipe)
allocate_transfers p count size =
    if is_some p.transfer_array
    then refuse (text "Transfers were already allocated for this pipe.") p
    else if count == 0
    then refuse (text "Transfer count cannot be zero.") p
    else if size == 0
    then refuse (text "Transfer size cannot be zero.") p
    else malloc >>= allocate_in p count size

-- The read of an array entry: undefined where there is none.
abbrev pub entry : Option Transfer → M Transfer
entry none = fault
entry (some t) = pure t

pub submit_next_transfer : Reply → Pipe → M Pipe
submit_next_transfer reply p =
    if ltb p.pending_count p.transfer_count
    then (do
      t ← entry (get_elem? (transfers_of p) p.next_submit)
      t' ← Transfer.submit reply t
      pure (record p {
        transfer_array = with_transfers (set (transfers_of p) p.next_submit t') p.transfer_array;
        pending_count = p.pending_count + 1;
        next_submit = increment_and_wrap_size p.next_submit p.transfer_count;
      }))
    else fault

-- The loop of `start_endless_transfers`, with the kernel's replies in order.
pub submit_all : ℕ → (ℕ → Reply) → Pipe → M Pipe
submit_all zero replies p = fault
submit_all (suc fuel) replies p =
    if ltb p.pending_count p.transfer_count
    then (do p' ← submit_next_transfer (replies 0) p; submit_all fuel (λ n. replies (n + 1)) p')
    else pure p

-- `libusbp_async_in_pipe_start_endless_transfers`
pub start_endless_transfers : (ℕ → Reply) → Pipe → M (ErrorPtr × Pipe)
start_endless_transfers replies p =
    if is_some p.transfer_array
    then (do
      p' ← submit_all (p.transfer_count + 1) replies (record p { endless_transfers_enabled = true })
      pure (none, p'))
    else refuse (text "Pipe transfers have not been allocated yet.") p

-- The output pointers of `handle_finished_transfer`, each NULL or with what it points to.
pub record FinishOutputs : Type 0 where
  pub finished : Option Bool
  pub results : Outputs

abbrev pub cleared : FinishOutputs → FinishOutputs
cleared out = record {
  finished = store false out.finished;
  results = record (out.results) {
    transferred = store 0 out.results.transferred;
    transfer_error = store none out.results.transfer_error;
  };
}

abbrev pub Finished : Type 0
Finished = ErrorPtr × Pipe × FinishOutputs

unfoldable pub advance : Pipe → Pipe
advance p = record p {
  pending_count = p.pending_count - 1;
  next_finish = increment_and_wrap_size p.next_finish p.transfer_count;
}

unfoldable pub resubmit : Reply → Pipe → M Pipe
resubmit reply p = if p.endless_transfers_enabled then submit_next_transfer reply p else pure p

unfoldable pub finish : Reply → Pipe → FinishOutputs → Transfer → M Finished
finish reply p out t = do
  results ← Transfer.get_results t out.results
  p' ← resubmit reply (advance p)
  pure (none, p', record { finished = store true out.finished; results = results })

-- `libusbp_async_in_pipe_handle_finished_transfer` of a pipe, with the kernel's reply to a
-- resubmission.
unfoldable pub handle_finished_transfer : Reply → Pipe → FinishOutputs → M Finished
handle_finished_transfer reply p out =
    if p.pending_count == 0 then pure (none, p, cleared out) else do
      t ← entry (get_elem? (transfers_of p) p.next_finish)
      if t.pending then pure (none, p, cleared out) else finish reply p (cleared out) t

-- `libusbp_async_in_pipe_handle_finished_transfer`, whose pipe may be NULL.
pub handle_finished_on :
    Reply → Option Pipe → FinishOutputs → M (ErrorPtr × Option Pipe × FinishOutputs)
handle_finished_on reply none out = do
  error ← error_create (text "Pipe argument is null.")
  pure (error, none, cleared out)
handle_finished_on reply (some p) out = do
  (error, p', out') ← handle_finished_transfer reply p out
  pure (error, some p', out')

-- The loop of `cancel_transfers`, which stops at the first error.
pub stop_at_error : M ErrorPtr → ErrorPtr → M ErrorPtr
stop_at_error more none = more
stop_at_error more (some e) = pure (some e)

-- The kernel answers each request in its turn.
pub cancel_loop : ℕ → (kernel : ℕ → UrbRequest → Reply) → List Transfer → M ErrorPtr
unfolding stop_at_error
cancel_loop zero kernel ts = pure none
cancel_loop (suc n) kernel [] = fault
cancel_loop (suc n) kernel (t ∷ ts) =
    Transfer.cancel (kernel 0) t >>= stop_at_error (cancel_loop n (λ i. kernel (i + 1)) ts)

-- `libusbp_async_in_pipe_cancel_transfers`
unfoldable pub cancel_transfers : (ℕ → UrbRequest → Reply) → Pipe → M (ErrorPtr × Pipe)
unfolding cancel_loop
cancel_transfers kernel p = do
  error ← cancel_loop p.transfer_count kernel (transfers_of p)
  pure (error, record p { endless_transfers_enabled = false })

-- `libusbp_async_in_pipe_has_pending_transfers`, with what the output pointer points to.
pub has_pending_transfers : Option Bool → Option Pipe → M (ErrorPtr × Option Bool)
has_pending_transfers none pipe = do
  e ← error_create (text "Boolean output pointer is null.")
  pure (e, none)
has_pending_transfers (some _) none = do
  e ← error_create (text "Pipe argument is null.")
  pure (e, some false)
has_pending_transfers (some _) (some p) = pure (none, some (not (p.pending_count == 0)))
