-- ===== src/Samples.antt =====
-- Concrete heaps, replies, transfers and pipes (src/linux/async_in_transfer_linux.c and
-- src/async_in_pipe.c) for the tests.
pub mod Usb
use libusbp.Base.{
  pos, negsuc, ℕ, zero, suc, ◌+◌, ◌≤◌, ◌≡◌, refl, subst, Bool, true, false, none, some,
  some-injective, [], ◌∷◌, text, arith, get_elem?,
}
use libusbp.Heap.{Heap, Surroundings, Blocks}
use libusbp.Usbfd.{Reply}
use libusbp.Transfer.{Transfer, fresh_transfer}
use libusbp.Transfer.Ownership.{IsSound}
use libusbp.Pipe.{Pipe, FinishOutputs}
use libusbp.Pipe.Ring.{offset}
use libusbp.Pipe.Invariant.{IsValid}

abbrev pub plenty : Surroundings
plenty = record { grants = λ n. true; strerror = λ errno. some (text "Some message.") }

-- A heap with these blocks, in which every request for memory succeeds.
abbrev pub heap_of : Blocks → Heap
heap_of blocks = record { next = 100; live = blocks; surroundings = plenty }

abbrev pub accepted_reply : Reply
accepted_reply = record { result = pos 0; errno = pos 0 }

-- errno is ENODEV.
abbrev pub failed_reply : Reply
failed_reply = record { result = negsuc 0; errno = pos 19 }

abbrev pub idle_transfer : (at : ℕ) → Transfer
idle_transfer at = fresh_transfer (pos 3) 0x82 5 at (at + 1)

abbrev pub busy_transfer : (at : ℕ) → Transfer
busy_transfer at = record (idle_transfer at) { pending = true }

pub idle-IsSound : (at : ℕ) → IsSound (idle_transfer at)
idle-IsSound at = record { quiet = λ p. refl; error_valid = tt; sized = refl }

pub busy-IsSound : (at : ℕ) → IsSound (busy_transfer at)
busy-IsSound at = record { quiet = λ p. refl; error_valid = tt; sized = refl }

abbrev pub pipe_of : (endless : Bool) (pending : ℕ) (submit : ℕ) → Transfer → Transfer → Pipe
pipe_of endless pending submit t u = record {
  at = 10;
  handle_fd = pos 3;
  pipe_id = 0x82;
  transfer_array = some (record { at = 11; transfers = t ∷ u ∷ [] });
  transfer_size = 5;
  transfer_count = 2;
  endless_transfers_enabled = endless;
  pending_count = pending;
  next_finish = 0;
  next_submit = submit;
}

pair_each :
    (t u : Transfer)
    → IsSound t
    → IsSound u
    → (i : ℕ) (v : Transfer) → get_elem? (t ∷ u ∷ []) i ≡ some v
    → IsSound v
pair_each t u s r zero v e = subst IsSound (some-injective _ _ e) s
pair_each t u s r (suc zero) v e = subst IsSound (some-injective _ _ e) r
pair_each t u s r (suc (suc i)) v e = cc

-- Nothing was submitted yet.
abbrev pub fresh_pair : Pipe
fresh_pair = pipe_of false 0 0 (idle_transfer 20) (idle_transfer 30)

pair_idle :
    (t u : Transfer)
    → t.pending ≡ false
    → u.pending ≡ false
    → (i : ℕ) (v : Transfer) → get_elem? (t ∷ u ∷ []) i ≡ some v
    → v.pending ≡ false
pair_idle t u s r zero v e = subst (λ x. x.pending ≡ false) (some-injective _ _ e) s
pair_idle t u s r (suc zero) v e = subst (λ x. x.pending ≡ false) (some-injective _ _ e) r
pair_idle t u s r (suc (suc i)) v e = cc

pub fresh_pair-IsValid : IsValid fresh_pair
fresh_pair-IsValid = record {
  counted = refl;
  allocated = λ e. omega arith;
  bounded = omega arith;
  finish = omega arith;
  submit = refl;
  ring = record {
    each = pair_each (idle_transfer 20) (idle_transfer 30) (idle-IsSound 20) (idle-IsSound 30);
    idle = λ i t e o. pair_idle (idle_transfer 20) (idle_transfer 30) refl refl i t e;
  };
}

-- Both transfers were submitted and are completed, but none is finished.
abbrev pub done_pair : Pipe
done_pair = pipe_of false 2 0 (idle_transfer 20) (idle_transfer 30)

pub done_pair-IsValid : IsValid done_pair
done_pair-IsValid = record {
  counted = refl;
  allocated = λ e. omega arith;
  bounded = omega arith;
  finish = omega arith;
  submit = refl;
  ring = record {
    each = pair_each (idle_transfer 20) (idle_transfer 30) (idle-IsSound 20) (idle-IsSound 30);
    idle = λ i t e o. pair_idle (idle_transfer 20) (idle_transfer 30) refl refl i t e;
  };
}

-- An endless pipe whose transfers are both pending.
abbrev pub busy_pair : Pipe
busy_pair = pipe_of true 2 0 (busy_transfer 20) (busy_transfer 30)

pub busy_pair-IsValid : IsValid busy_pair
busy_pair-IsValid = record {
  counted = refl;
  allocated = λ e. omega arith;
  bounded = omega arith;
  finish = omega arith;
  submit = refl;
  ring = record {
    each = pair_each (busy_transfer 20) (busy_transfer 30) (busy-IsSound 20) (busy-IsSound 30);
    idle = busy_idle;
  };
}
  where
    busy_idle :
        (i : ℕ) (t : Transfer)
        → get_elem? (busy_transfer 20 ∷ busy_transfer 30 ∷ []) i ≡ some t
        → 2 ≤ offset 0 2 i
        → t.pending ≡ false
    busy_idle zero t e o = absurd (omega (arith, o))
    busy_idle (suc zero) t e o = absurd (omega (arith, o))
    busy_idle (suc (suc i)) t e o = cc

abbrev pub outputs : FinishOutputs
outputs = record {
  finished = some false;
  results = record { buffer = some []; transferred = some 0; transfer_error = some none };
}
