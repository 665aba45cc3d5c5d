-- ===== src/Transfer/Tests.antt =====
-- Tests of the transfers of src/linux/async_in_transfer_linux.c.
use libusbp.Base.{pos, negsuc, refl, false, none, some, [], ◌∷◌, arith}
use libusbp.Heap.Returns.{Returns}
use libusbp.Transfer.{Transfer, Outputs, written, owned, submit, handle_completion, get_results}
use libusbp.Transfer.Ownership.{IsSound, Submitted, submit-Submitted}
use libusbp.Transfer.Completing.{Completed, handle_completion-Completed}
use libusbp.Transfer.Results.{GotResults, get_results-GotResults}
use libusbp.Samples.{heap_of, failed_reply, idle_transfer, busy_transfer, idle-IsSound}

submit-Submitted_example :
    Returns
      (Submitted (idle_transfer 20) failed_reply (heap_of (owned (idle_transfer 20))))
      (submit failed_reply (idle_transfer 20) (heap_of (owned (idle_transfer 20))))
submit-Submitted_example =
    submit-Submitted failed_reply (idle_transfer 20) (heap_of (owned (idle_transfer 20)))
      (idle-IsSound 20) refl (λ a. omega arith)

-- The kernel reports an overflow, and more bytes than were asked for.
abbrev overflow : Transfer
overflow =
    written
      (record {
        status = negsuc 74;
        actual_length = pos 9;
        error_count = pos 0;
        bytes = 1 ∷ 2 ∷ 3 ∷ 4 ∷ 5 ∷ [];
      })
      (busy_transfer 20)

overflow-IsSound : IsSound overflow
overflow-IsSound = record { quiet = λ p. refl; error_valid = tt; sized = refl }

handle_completion-Completed_example :
    Returns
      (Completed overflow (heap_of (owned overflow)))
      (handle_completion overflow (heap_of (owned overflow)))
handle_completion-Completed_example =
    handle_completion-Completed overflow (heap_of (owned overflow)) overflow-IsSound refl refl

abbrev completed : Transfer
completed = record overflow { pending = false }

completed-IsSound : IsSound completed
completed-IsSound = record { quiet = λ p. refl; error_valid = tt; sized = refl }

abbrev outputs : Outputs
outputs = record { buffer = some []; transferred = some 0; transfer_error = some none }

get_results-GotResults_example :
    Returns
      (GotResults completed outputs (heap_of (owned completed)))
      (get_results completed outputs (heap_of (owned completed)))
get_results-GotResults_example =
    get_results-GotResults completed outputs (heap_of (owned completed)) completed-IsSound refl
