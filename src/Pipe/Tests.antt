-- ===== src/Pipe/Tests.antt =====
-- Tests of the pipes of src/async_in_pipe.c.
use libusbp.Base.{pos, ℕ, zero, suc, ◌+◌, ◌≡◌, refl, true, false, some, arith, ◌==◌, if◌then◌else◌}
use libusbp.Heap.{no_blocks, block}
use libusbp.Heap.Moves.{Moves}
use libusbp.Heap.Returns.{Returns}
use libusbp.Usbfd.{Reply, UrbRequest}
use libusbp.Pipe.{
  create, close, allocate_transfers, start_endless_transfers, cancel_transfers,
  submit_next_transfer, fresh_pipe,
}
use libusbp.Pipe.Blocks.{owned}
use libusbp.Pipe.Create.{IsOpened, create-IsOpened, fresh-IsValid}
use libusbp.Pipe.Allocate.{Allocated, Unchanged, allocate_transfers-Allocated}
use libusbp.Pipe.Submit.{SubmittedNext, submit_next-SubmittedNext}
use libusbp.Pipe.Start.{Started, start-Started}
use libusbp.Pipe.Release.{released_array, close-Moves}
use libusbp.Pipe.Cancel.{Cancelled, cancel_transfers-Cancelled}
use libusbp.Samples.{
  heap_of, accepted_reply, failed_reply, fresh_pair, fresh_pair-IsValid, busy_pair,
  busy_pair-IsValid,
}

create-IsOpened_example :
    Returns
      (IsOpened true (some (pos 3)) 0x82 (heap_of no_blocks))
      (create true (some (pos 3)) 0x82 (heap_of no_blocks))
create-IsOpened_example = create-IsOpened true (some (pos 3)) 0x82 (heap_of no_blocks) (omega arith)

allocate_transfers-Allocated_example :
    Returns
      (λ r g.
        Allocated (fresh_pipe (pos 3) 0x82 10) 2 5 (heap_of (block 10)) r g
        × (false ≡ true → Unchanged (fresh_pipe (pos 3) 0x82 10) (heap_of (block 10)) r.0 r.1 g))
      (allocate_transfers (fresh_pipe (pos 3) 0x82 10) 2 5 (heap_of (block 10)))
allocate_transfers-Allocated_example =
    allocate_transfers-Allocated (fresh_pipe (pos 3) 0x82 10) 2 5 (heap_of (block 10))
      (fresh-IsValid (pos 3) 0x82 10)

submit_next-SubmittedNext_example :
    Returns
      (SubmittedNext accepted_reply fresh_pair (heap_of (owned fresh_pair)))
      (submit_next_transfer accepted_reply fresh_pair (heap_of (owned fresh_pair)))
submit_next-SubmittedNext_example =
    submit_next-SubmittedNext fresh_pair fresh_pair-IsValid (omega arith) accepted_reply
      (heap_of (owned fresh_pair)) (λ a. omega arith)

-- The kernel takes the first request only.
abbrev replies : ℕ → Reply
replies zero = accepted_reply
replies (suc n) = failed_reply

start-Started_example :
    Returns
      (Started fresh_pair (heap_of (owned fresh_pair)))
      (start_endless_transfers replies fresh_pair (heap_of (owned fresh_pair)))
start-Started_example =
    start-Started replies fresh_pair (heap_of (owned fresh_pair)) fresh_pair-IsValid refl
      (λ a. omega arith)

-- The kernel knows the urb of one transfer.
abbrev kernel : ℕ → UrbRequest → Reply
kernel i request = if request.urb == 20 then accepted_reply else failed_reply

cancel_transfers-Cancelled_example :
    Returns
      (Cancelled kernel busy_pair (heap_of (owned busy_pair)))
      (cancel_transfers kernel busy_pair (heap_of (owned busy_pair)))
cancel_transfers-Cancelled_example =
    cancel_transfers-Cancelled kernel busy_pair (heap_of (owned busy_pair)) busy_pair-IsValid

close-Moves_example :
    Returns
      (λ _ g.
        Moves
          (heap_of (owned busy_pair))
          (λ a. block 10 a + released_array busy_pair.transfer_array a)
          no_blocks
          g)
      (close (some busy_pair) (heap_of (owned busy_pair)))
close-Moves_example = close-Moves busy_pair (heap_of (owned busy_pair)) (λ a. omega arith)
