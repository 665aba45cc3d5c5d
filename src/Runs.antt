-- ===== src/Runs.antt =====
-- Sequences of calls on one asynchronous IN pipe (src/async_in_pipe.c), together with the handling
-- of events (src/linux/generic_handle_linux.c).
pub mod Order
mod Tests
use libusbp.Base.{
  ℤ, ℕ, ◌≤◌, ◌≡◌, Bool, true, false, Option, none, some, List, [], ◌∷◌, ◌++◌, is_some,
}
use libusbp.Heap.{Heap}
use libusbp.Heap.Moves.{Owned}
use libusbp.Error.{ErrorPtr}
use libusbp.Usbfd.{Reply, UrbRequest}
use libusbp.Pipe.{
  Pipe, FinishOutputs, transfers_of, start_endless_transfers, handle_finished_transfer,
  cancel_transfers,
}
use libusbp.Pipe.Blocks.{owned}
use libusbp.Events.{Reap, generic_handle_events}
use libusbp.Events.Delivery.{Deliverable}

-- The slot that a call of `handle_finished_transfer` finished, as `*finished` says.
abbrev pub finished_slots : Pipe → Option Bool → List ℕ
finished_slots p none = []
finished_slots p (some false) = []
finished_slots p (some true) = p.next_finish ∷ []

-- `Run p h slots p' h'`: calls that return lead from the pipe `p` and the heap `h` to `p'` and `h'`,
-- and `slots` are those that were finished, in order. Between calls the rest of the program does
-- with the other blocks of the heap what it likes.
pub data Run : Pipe → Heap → List ℕ → Pipe → Heap → Type 0 where
  done : (p : Pipe) (h : Heap) → Run p h [] p h
  elsewhere :
      {p p' : Pipe} {h h' : Heap} {slots : List ℕ} (k : Heap)
      → Owned (owned p) k
      → Run p k slots p' h'
      → Run p h slots p' h'
  start :
      {p p' : Pipe} {h h' : Heap} {slots : List ℕ} (replies : ℕ → Reply) (e : ErrorPtr) (q : Pipe)
      (k : Heap)
      → is_some p.transfer_array ≡ true
      → start_endless_transfers replies p h ≡ some ((e, q), k)
      → Run q k slots p' h'
      → Run p h slots p' h'
  finish :
      {p p' : Pipe} {h h' : Heap} {slots : List ℕ} (reply : Reply) (out out' : FinishOutputs)
      (e : ErrorPtr) (q : Pipe) (k : Heap)
      → is_some out.finished ≡ true
      → handle_finished_transfer reply p out h ≡ some ((e, q, out'), k)
      → Run q k slots p' h'
      → Run p h (finished_slots p out'.finished ++ slots) p' h'
  cancel :
      {p p' : Pipe} {h h' : Heap} {slots : List ℕ} (kernel : ℕ → UrbRequest → Reply) (e : ErrorPtr)
      (q : Pipe) (k : Heap)
      → cancel_transfers kernel p h ≡ some ((e, q), k)
      → Run q k slots p' h'
      → Run p h slots p' h'
  events :
      {p p' : Pipe} {h h' : Heap} {slots : List ℕ} (rs : List Reap) (e : ErrorPtr) (q : Pipe)
      (k : Heap)
      → Deliverable (transfers_of p) rs
      → generic_handle_events true rs p h ≡ some ((e, q), k)
      → Run q k slots p' h'
      → Run p h slots p' h'
