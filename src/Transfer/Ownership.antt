-- ===== src/Transfer/Ownership.antt =====
-- A transfer's memory and its state through creation, submission, completion and release.
use libusbp.Base.{
  ℤ, pos, ℕ, ◌+◌, ◌≡◌, ◌≢◌, refl, ap, ◌∙◌, ◌⊎◌, inl, inr, true, false, not, Bool-cases, Option,
  none, some, List, [], text, arith, ltb, ◌==◌, ◌≤◌, ◌^◌, if◌then◌else◌,
}
use libusbp.Heap.{Heap, Blocks, no_blocks, block, block?}
use libusbp.Heap.Moves.{Moves, Owned, malloc-Moves, free-Moves}
use libusbp.Heap.Returns
use libusbp.Heap.Returns.{Returns, returns}
use libusbp.Error.{Error, ErrorPtr, owned?, error_no_memory}
use libusbp.Error.Ownership.{IsValid?, error_free-Moves}
use libusbp.Error.Chain.{Carries, Carried, error_create-Carries, no_memory-Carries}
use libusbp.Usbfd.{Reply, is_negative}
use libusbp.Usbfd.Requests.{Reported, submit_urb-Reported}
use libusbp.Transfer.{
  Transfer, Created, owned, int_max, fresh_transfer, assemble, create_buffer, create, transfer_free,
  settle_submission, submit,
}

-- A pending transfer has no error, and the urb knows the size of its buffer.
pub record IsSound (t : Transfer) : Type 0 where
  pub quiet : t.pending ≡ true → t.error ≡ none
  pub error_valid : IsValid? t.error
  pub sized : t.urb.buffer_length ≡ pos t.urb.buffer.size

abbrev pub owned_opt : Option Transfer → Blocks
owned_opt none a = 0
owned_opt (some t) a = owned t a

-- Either a new transfer that is not pending and owns all that was allocated, or an error that does.
pub data IsCreated (fd : ℤ) (pipe_id size : ℕ) (h : Heap) : Created → Heap → Type 0 where
  created :
      (at buffer_at : ℕ) {g : Heap}
      → Moves h no_blocks (owned (fresh_transfer fd pipe_id size at buffer_at)) g
      → IsCreated fd pipe_id size h (none, some (fresh_transfer fd pipe_id size at buffer_at)) g
  failed :
      (e : ErrorPtr) (chars : List ℕ) {g : Heap}
      → Carries no_blocks chars [] h e g
      → IsCreated fd pipe_id size h (e, none) g

out_of_memory :
    (fd : ℤ) (pipe_id size : ℕ) {h g : Heap}
    → Moves h no_blocks no_blocks g
    → IsCreated fd pipe_id size h (some error_no_memory, none) g
out_of_memory fd pipe_id size m = failed _ [] (no_memory-Carries [] [] m)

assemble-IsCreated :
    (fd : ℤ) (pipe_id size at : ℕ) (b : Option ℕ) {h : Heap} (g : Heap)
    → Moves h no_blocks (λ a. block at a + block? b a) g
    → Returns (IsCreated fd pipe_id size h) (assemble fd pipe_id size at b g)
unfolding assemble
assemble-IsCreated fd pipe_id size at none g m =
    Returns.bind (free-Moves (some at) g (λ a. omega (arith, m.live a))) λ _ k f. returns (
      out_of_memory fd pipe_id size
        (record { live = λ a. omega (arith, m.live a, f.live a); same = f.same ∙ m.same }))
assemble-IsCreated fd pipe_id size at (some b) g m =
    returns (created at b (record { live = λ a. omega (arith, m.live a); same = m.same }))

create_buffer-IsCreated :
    (fd : ℤ) (pipe_id size : ℕ) (p : Option ℕ) {h : Heap} (g : Heap)
    → Moves h no_blocks (block? p) g
    → Returns (IsCreated fd pipe_id size h) (create_buffer fd pipe_id size p g)
unfolding create_buffer
create_buffer-IsCreated fd pipe_id size none g m =
    returns (out_of_memory fd pipe_id size (record { live = m.live; same = m.same }))
create_buffer-IsCreated fd pipe_id size (some at) g m = Returns.bind (malloc-Moves g) λ b k n.
    assemble-IsCreated fd pipe_id size at b k
      (record { live = λ a. omega (arith, m.live a, n.live a); same = n.same ∙ m.same })

-- For a size that is not 0, `async_in_transfer_create` gives a new transfer of exactly that size
-- which is not pending, or an error. It never does more than 2^31 - 1 bytes, and whatever fails, all
-- that stays allocated belongs to what it returns.
pub create-IsCreated :
    (fd : ℤ) (pipe_id size : ℕ) (h : Heap)
    → size ≢ 0
    → Returns
        (λ r g. IsCreated fd pipe_id size h r g × (2 ^ 31 ≤ size → r.1 ≡ none))
        (create fd pipe_id size h)
unfolding create
create-IsCreated fd pipe_id size h z = elim (Bool-cases (size == 0)) [
  | inl e ↦ absurd (z (ground arith))
  | inr e ↦ elim (Bool-cases (ltb int_max size)) [
    | inl l ↦
        simp (e, l)
          (Returns.bind (error_create-Carries (text "Transfer size is too large.") h)
            λ r g c. returns (failed r _ c, λ _. refl))
    | inr l ↦
        simp (e, l)
          (Returns.bind (malloc-Moves h) λ p g m.
            Returns.mono (create_buffer-IsCreated fd pipe_id size p g m)
              λ r k c. (c, λ big. absurd (ground arith)))
  ]
]

-- `async_in_transfer_free` gives back all that a transfer owns if it is not pending, and touches
-- nothing of a pending one, which the kernel may still write to.
pub transfer_free-Moves :
    (t : Transfer) (h : Heap)
    → Owned (owned t) h
    → Returns
        (λ _ g. if t.pending then g ≡ h else Moves h (owned t) no_blocks g)
        (transfer_free t h)
unfolding transfer_free
transfer_free-Moves t h o = elim (Bool-cases t.pending) [
  | inl p ↦ simp p (returns refl)
  | inr p ↦ simp p (
      Returns.bind (error_free-Moves t.error h (λ a. omega (arith, o a))) λ _ h₁ m₁.
        Returns.bind (free-Moves (some t.urb.buffer.at) h₁ (λ a. omega (arith, o a, m₁.live a)))
          λ _ h₂ m₂.
            Returns.bind (free-Moves (some t.at) h₂ (λ a. omega (arith, o a, m₁.live a, m₂.live a)))
              λ _ g m₃. returns (record {
                live = λ a. omega (arith, m₁.live a, m₂.live a, m₃.live a);
                same = m₃.same ∙ m₂.same ∙ m₁.same;
              }))
]

-- What `async_in_transfer_submit` leaves: pending exactly where the kernel took the request, else
-- with an error of its own. Nothing else of the transfer has changed.
pub record Submitted (t : Transfer) (reply : Reply) (h : Heap) (t' : Transfer) (g : Heap)
    : Type 0 where
  pub moves : Moves h (owned t) (owned t') g
  pub sound : IsSound t'
  pub at : t'.at ≡ t.at
  pub urb : t'.urb ≡ t.urb
  pub fd : t'.fd ≡ t.fd
  pub pending : t'.pending ≡ not (is_negative reply.result)
  pub error : (t'.pending ≡ true) ⊎ (t'.error ≢ none)

lost : {e : Error} {P : Type 0} → ◌≡◌ {A = ErrorPtr} (some e) none × P → ⊥
lost p = cc (p.0)

settle-Submitted :
    (t : Transfer) (reply : Reply) (e : ErrorPtr) {h h₁ : Heap} (g : Heap)
    → IsSound t
    → Moves h (owned? t.error) no_blocks h₁
    → Reported reply (text "Submitting USB request block failed.") h₁ e g
    → Submitted t reply h (settle_submission t e) g
unfolding settle_submission
settle-Submitted t reply none {h₁} g s m r = elim (Bool-cases (is_negative reply.result)) [
  | inl n ↦ absurd (rw n at r)
  | inr n ↦
      let unchanged = rw n at r in
      record {
        moves = record {
          live = λ a. omega (arith, m.live a, ap (λ k. k.live a) unchanged.1);
          same = ap (λ k. k.surroundings) unchanged.1 ∙ m.same;
        };
        sound = record { quiet = λ p. refl; error_valid = tt; sized = s.sized };
        at = refl;
        urb = refl;
        fd = refl;
        pending = rw n;
        error = inl refl;
      }
]
settle-Submitted t reply (some e) {h₁} g s m r = elim (Bool-cases (is_negative reply.result)) [
  | inl n ↦
      let c : Carried no_blocks _ _ h₁ e g = rw n at r in
      record {
        moves = record {
          live = λ a. omega (arith, m.live a, c.moves.live a);
          same = c.moves.same ∙ m.same;
        };
        sound = record { quiet = λ p. cc; error_valid = c.valid; sized = s.sized };
        at = refl;
        urb = refl;
        fd = refl;
        pending = rw n;
        error = inr (λ p. cc);
      }
  | inr n ↦ absurd (lost (rw n at r))
]

-- A sound transfer that is not pending can be submitted: its old error is freed, and the result is
-- what `Submitted` says, without undefined behaviour.
pub submit-Submitted :
    (reply : Reply) (t : Transfer) (h : Heap)
    → IsSound t
    → t.pending ≡ false
    → Owned (owned t) h
    → Returns (Submitted t reply h) (submit reply t h)
unfolding submit
submit-Submitted reply t h s idle o = simp idle (
    Returns.bind (error_free-Moves t.error h (λ a. omega (arith, o a))) λ _ h₁ m.
      Returns.bind (submit_urb-Reported reply h₁)
        λ e g r. returns (settle-Submitted t reply e g s m r))
