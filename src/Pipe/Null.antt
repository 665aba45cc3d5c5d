-- ===== src/Pipe/Null.antt =====
-- Finishing a transfer of a pipe that may be NULL.
use libusbp.Base.{◌≡◌, refl, Option, none, some, [], text}
use libusbp.Heap.{Heap, Blocks, no_blocks}
use libusbp.Heap.Moves.{Owned}
use libusbp.Heap.Returns
use libusbp.Heap.Returns.{Returns, returns}
use libusbp.Error.{ErrorPtr}
use libusbp.Error.Chain.{Carries, error_create-Carries}
use libusbp.Usbfd.{Reply}
use libusbp.Pipe.{Pipe, FinishOutputs, cleared, handle_finished_on}
use libusbp.Pipe.Blocks.{owned}
use libusbp.Pipe.Invariant.{IsValid}
use libusbp.Pipe.Finish.{HandledFinished, handle_finished-HandledFinished}

abbrev IsValid? : Option Pipe → Type 0
IsValid? none = Unit {0}
IsValid? (some p) = IsValid p

abbrev owned? : Option Pipe → Blocks
owned? none = no_blocks
owned? (some p) = owned p

-- For NULL the error says so and the outputs are cleared; and else it is as on that pipe.
abbrev HandledOn :
    Option Pipe → FinishOutputs → Heap → ErrorPtr × Option Pipe × FinishOutputs → Heap → Type 0
HandledOn none out h (e, none, out') g =
    (out' ≡ cleared out) × Carries no_blocks (text "Pipe argument is null.") [] h e g
HandledOn none out h (e, some q, out') g = ⊥
HandledOn (some p) out h (e, none, out') g = ⊥
HandledOn (some p) out h (e, some q, out') g = HandledFinished p out h (e, q, out') g

handle_finished_on-HandledOn :
    (reply : Reply) (p : Option Pipe) (out : FinishOutputs) (h : Heap)
    → IsValid? p
    → Owned (owned? p) h
    → Returns (HandledOn p out h) (handle_finished_on reply p out h)
unfolding handle_finished_on
handle_finished_on-HandledOn reply none out h v o =
    Returns.bind (error_create-Carries (text "Pipe argument is null.") h) λ e g c. returns (refl, c)
handle_finished_on-HandledOn reply (some p) out h v o =
    Returns.bind (handle_finished-HandledFinished reply p out h v o) λ (e, q, out') g f. returns f
