-- ===== src/Events/Tests.antt =====
-- Tests of the handling of events of src/linux/generic_handle_linux.c.
use libusbp.Base.{pos, negsuc, ℕ, refl, true, some, List, [], ◌∷◌}
use libusbp.Heap.Returns.{Returns}
use libusbp.Transfer.{bulk, Completion}
use libusbp.Pipe.{transfers_of}
use libusbp.Pipe.Blocks.{owned}
use libusbp.Events.{Reap, reaped, failed, generic_handle_events}
use libusbp.Events.Delivery.{Deliverable}
use libusbp.Events.Pipes.{EventsHandledOf, generic_handle_events-EventsHandled}
use libusbp.Samples.{heap_of, busy_pair, busy_pair-IsValid, busy_transfer}

abbrev stalled : Completion
stalled = record { status = negsuc 31; actual_length = pos 0; error_count = pos 0; bytes = [] }

abbrev reap_of : (slot : ℕ) → Reap
reap_of slot =
    reaped (record { usercontext = some slot; kind = bulk; endpoint = 0x82; completion = stalled })

-- The second transfer is given back, then the first, and then errno is EAGAIN.
abbrev reaps : List Reap
reaps = reap_of 1 ∷ reap_of 0 ∷ failed (pos 11) ∷ []

reaps-Deliverable : Deliverable (transfers_of busy_pair) reaps
reaps-Deliverable = (
  1,
  (
    refl,
    (
      refl,
      (
        (busy_transfer 30, (refl, refl)),
        (((λ e. cc), tt), (0, (refl, (refl, ((busy_transfer 20, (refl, refl)), (tt, tt)))))),
      ),
    ),
  ),
)

generic_handle_events-EventsHandled_example :
    Returns
      (EventsHandledOf busy_pair reaps (heap_of (owned busy_pair)))
      (generic_handle_events true reaps busy_pair (heap_of (owned busy_pair)))
generic_handle_events-EventsHandled_example =
    generic_handle_events-EventsHandled reaps busy_pair (heap_of (owned busy_pair))
      busy_pair-IsValid reaps-Deliverable
