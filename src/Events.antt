-- ===== src/Events.antt =====
-- src/linux/generic_handle_linux.c: handling the USB request blocks that the kernel has completed.
-- The transfers that they belong to are those of one pipe.
pub mod Delivery
pub mod Loop
pub mod Pipes
mod Tests
use libusbp.Base.{
  ℤ, pos, negsuc, ℕ, Bool, true, false, ◌&&◌, Option, none, some, List, [], ◌∷◌, text, get_elem?,
  set, if◌then◌else◌,
}
use libusbp.Heap.{M, pure, fault, ◌>>=◌, ◌>>◌}
use libusbp.Error.{ErrorPtr, error_create}
use libusbp.PipeId.{is_in}
use libusbp.Usbfd.{Reply, reap_urb}
use libusbp.Transfer.{
  Transfer, UrbType, bulk, iso, interrupt, control, Completion, written, handle_completion,
}
use libusbp.Pipe.{Pipe, entry, transfers_of, with_transfers}

-- A request block that the kernel gives back: the slot of the transfer that its user context points
-- to, unless that is NULL, its type and endpoint, and what the kernel has written to it.
pub record Reaped : Type 0 where
  pub usercontext : Option ℕ
  pub kind : UrbType
  pub endpoint : ℕ
  pub completion : Completion

-- How the kernel answers one request for a completed block.
pub data Reap : Type 0 where
  reaped : Reaped → Reap
  failed : (errno : ℤ) → Reap

abbrev pub reply_of : Reap → Reply
reply_of (reaped r) = record { result = pos 0; errno = pos 0 }
reply_of (failed errno) = record { result = negsuc 0; errno = errno }

abbrev pub is_bulk : UrbType → Bool
is_bulk iso = false
is_bulk interrupt = false
is_bulk control = false
is_bulk bulk = true

abbrev pub Handled : Type 0
Handled = ErrorPtr × List Transfer

pub complete_transfer : Completion → ℕ → List Transfer → M Handled
complete_transfer c i ts = do
  t ← entry (get_elem? ts i)
  t' ← handle_completion (written c t)
  pure (none, set ts i t')

abbrev pub refuse : List ℕ → List Transfer → M Handled
refuse message ts = do e ← error_create message; pure (e, ts)

handle_context : Option ℕ → Reaped → List Transfer → M Handled
handle_context none r ts = refuse (text "A completed USB request block has a NULL usercontext.") ts
handle_context (some i) r ts =
    if is_bulk r.kind && is_in r.endpoint
    then complete_transfer r.completion i ts
    else refuse (text "A completed USB request block was unrecognized.") ts

pub handle_completed_urb : Reaped → List Transfer → M Handled
unfolding handle_context
handle_completed_urb r ts = handle_context r.usercontext r ts

go_on : (List Transfer → M Handled) → Handled → M Handled
go_on more (none, ts) = more ts
go_on more (some e, ts) = pure (some e, ts)

on_reaped : (List Transfer → M Handled) → List Transfer → ErrorPtr × Option Reap → M Handled
unfolding go_on
on_reaped more ts (some e, r) = pure (some e, ts)
on_reaped more ts (none, none) = pure (none, ts)
on_reaped more ts (none, some (reaped r)) = handle_completed_urb r ts >>= go_on more
on_reaped more ts (none, some (failed errno)) = fault

-- The loop of `generic_handle_events`, with the kernel's answers in order: it ends only at an answer
-- that is not a request block, or at an error.
pub handle_events : List Reap → List Transfer → M Handled
unfolding on_reaped
handle_events [] ts = fault
handle_events (r ∷ rs) ts = reap_urb (reply_of r) r >>= on_reaped (handle_events rs) ts

-- `generic_handle_events`, by whether the handle is not NULL, with the pipe on that handle.
pub generic_handle_events : (has_handle : Bool) → List Reap → Pipe → M (ErrorPtr × Pipe)
generic_handle_events false rs p = do
  e ← error_create (text "Generic handle argument is null.")
  pure (e, p)
generic_handle_events true rs p = do
  (error, ts) ← handle_events rs (transfers_of p)
  pure (error, record p { transfer_array = with_transfers ts p.transfer_array })
