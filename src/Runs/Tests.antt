-- ===== src/Runs/Tests.antt =====
-- Tests of runs of a pipe.
use libusbp.Base.{◌≡◌, refl, true, false, none, some, [], ◌∷◌, arith}
use libusbp.Heap.{Heap}
use libusbp.Transfer.{get_results}
use libusbp.Pipe
use libusbp.Pipe.{Pipe, FinishOutputs, handle_finished_transfer, resubmit, advance}
use libusbp.Pipe.Blocks.{owned}
use libusbp.Runs.{Run, done, finish}
use libusbp.Runs.Order.{Ran, run-Ran}
use libusbp.Samples.{heap_of, accepted_reply, done_pair, done_pair-IsValid}

abbrev outputs : FinishOutputs
outputs = record {
  finished = some false;
  results = record { buffer = some []; transferred = some 0; transfer_error = none };
}

abbrev finished : FinishOutputs
finished = record {
  finished = some true;
  results = record { buffer = some []; transferred = some 0; transfer_error = none };
}

abbrev h : Heap
h = heap_of (owned done_pair)

abbrev one_left : Pipe
one_left = record done_pair { pending_count = 1; next_finish = 1 }

abbrev none_left : Pipe
none_left = record done_pair { pending_count = 0; next_finish = 0 }

first_finished :
    handle_finished_transfer accepted_reply done_pair outputs h
    ≡ some ((none, one_left, finished), h)
unfolding handle_finished_transfer Pipe.finish resubmit advance get_results
first_finished = refl

second_finished :
    handle_finished_transfer accepted_reply one_left outputs h
    ≡ some ((none, none_left, finished), h)
unfolding handle_finished_transfer Pipe.finish resubmit advance get_results
second_finished = refl

both_finished : Run done_pair h (0 ∷ 1 ∷ []) none_left h
both_finished = finish accepted_reply outputs finished none one_left h refl first_finished (
    finish accepted_reply outputs finished none none_left h refl second_finished (done none_left h))

run-Ran_example : Ran done_pair h (0 ∷ 1 ∷ []) none_left h
run-Ran_example = run-Ran done_pair-IsValid (λ a. omega arith) both_finished
