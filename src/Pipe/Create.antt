-- ===== src/Pipe/Create.antt =====
-- Creating a pipe.
use libusbp.Base.{
  ℤ, ℕ, ◌<◌, ◌≡◌, refl, subst, ◌⊎◌, inl, inr, Bool, true, false, Bool-cases, ◌&&◌, Option, none,
  some, List, [], text, arith, is_some,
}
use libusbp.Heap.{Heap, no_blocks, block?}
use libusbp.Heap.Moves.{Moves, malloc-Moves}
use libusbp.Heap.Returns
use libusbp.Heap.Returns.{Returns, returns}
use libusbp.Error.{Error, ErrorPtr}
use libusbp.Error.Chain.{Carries, Carried, HasMemoryCode, error_create-Carries, no_memory-Carries}
use libusbp.PipeId.{is_in}
use libusbp.PipeId.Range.{is_pipe_id, is_pipe_id_in, is_in_lem, Checked, check_pipe_id-Checked}
use libusbp.Pipe.{Outcome, fresh_pipe, wrap_pipe, allocate_pipe, check_direction, create_on, create}
use libusbp.Pipe.Blocks.{owned}
use libusbp.Pipe.Invariant.{IsValid}

pub fresh-IsValid : (fd : ℤ) (pipe_id at : ℕ) → IsValid (fresh_pipe fd pipe_id at)
fresh-IsValid fd pipe_id at = record {
  counted = refl;
  allocated = λ e. cc;
  bounded = omega arith;
  finish = omega arith;
  submit = refl;
  ring = record { each = λ i t e. cc; idle = λ i t e o. cc };
}

abbrev pub is_usable : (has_output : Bool) → Option ℤ → ℕ → Bool
is_usable has_output handle pipe_id = has_output && (is_some handle && is_pipe_id_in pipe_id)

-- For usable arguments a new valid pipe without transfers; for others, or where memory runs out, an
-- error. What is allocated belongs to it.
pub data IsOpened (has_output : Bool) (handle : Option ℤ) (pipe_id : ℕ) (h : Heap)
    : Outcome → Heap → Type 0 where
  opened :
      (fd : ℤ) (at : ℕ) {g : Heap}
      → is_usable has_output handle pipe_id ≡ true
      → handle ≡ some fd
      → IsValid (fresh_pipe fd pipe_id at)
      → Moves h no_blocks (owned (fresh_pipe fd pipe_id at)) g
      → IsOpened has_output handle pipe_id h (none, some (fresh_pipe fd pipe_id at)) g
  refused :
      (e : Error) (chars : List ℕ) {g : Heap}
      → Carried no_blocks chars [] h e g
      → (is_usable has_output handle pipe_id ≡ false) ⊎ HasMemoryCode e
      → IsOpened has_output handle pipe_id h (some e, none) g

fail-IsOpened :
    (has_output : Bool) (handle : Option ℤ) (pipe_id : ℕ) (chars : List ℕ) {h : Heap} (e : ErrorPtr)
    (g : Heap)
    → is_usable has_output handle pipe_id ≡ false
    → Carries no_blocks chars [] h e g
    → IsOpened has_output handle pipe_id h (e, none) g
fail-IsOpened has_output handle pipe_id chars none g u c = absurd c
fail-IsOpened has_output handle pipe_id chars (some e) g u c = refused e chars c (inl u)

wrap_pipe-IsOpened :
    (fd : ℤ) (pipe_id : ℕ) (p : Option ℕ) {h : Heap} (g : Heap)
    → is_pipe_id_in pipe_id ≡ true
    → Moves h no_blocks (block? p) g
    → Returns (IsOpened true (some fd) pipe_id h) (wrap_pipe fd pipe_id p g)
unfolding wrap_pipe
wrap_pipe-IsOpened fd pipe_id none g u m =
    returns
      (refused _ [] (no_memory-Carries [] [] (record { live = m.live; same = m.same })) (inr refl))
wrap_pipe-IsOpened fd pipe_id (some at) g u m = returns (
    opened fd at u refl (fresh-IsValid fd pipe_id at)
      (record { live = λ a. omega (arith, m.live a); same = m.same }))

-- The error of the two checks: none exactly for the ID of an IN pipe, with the heap as it was.
abbrev BothChecked : ℕ → Heap → ErrorPtr → Heap → Type 0
BothChecked pipe_id h none g = (g ≡ h) × (is_pipe_id_in pipe_id ≡ true)
BothChecked pipe_id h (some e) g =
    ((chars : List ℕ) × Carries no_blocks chars [] h (some e) g) × (is_pipe_id_in pipe_id ≡ false)

raised-BothChecked :
    (pipe_id : ℕ) (chars : List ℕ) (h : Heap) (e : ErrorPtr) (g : Heap)
    → is_pipe_id_in pipe_id ≡ false
    → Carries no_blocks chars [] h e g
    → BothChecked pipe_id h e g
raised-BothChecked pipe_id chars h none g u c = absurd c
raised-BothChecked pipe_id chars h (some e) g u c = ((chars, c), u)

abbrev unsupported : List ℕ
unsupported = text "Asynchronous pipes for OUT endpoints are not supported."

Raised-at :
    {A : Type 0} (P : A → Heap → Heap → Type 0) (a : A) {h g : Heap} (k : Heap)
    → g ≡ h
    → P a g k
    → P a h k
Raised-at P a k e p = subst (λ x. P a x k) e p

check_direction-BothChecked :
    (pipe_id : ℕ) (e : ErrorPtr) (h g : Heap)
    → pipe_id < 256
    → Checked (is_pipe_id pipe_id) pipe_id h e g
    → Returns (BothChecked pipe_id h) (check_direction pipe_id e g)
unfolding check_direction
check_direction-BothChecked pipe_id (some e) h g b c = elim (Bool-cases (is_pipe_id pipe_id)) [
  | inl ok ↦ let q : (some e ≡ none) × (g ≡ h) = rw ok at c in cc q.0
  | inr bad ↦ returns ((_, rw bad at c), ground arith)
]
check_direction-BothChecked pipe_id none h g b c = elim (Bool-cases (is_pipe_id pipe_id)) [
  | inl ok ↦
      let q : (none ≡ none) × (g ≡ h) = rw ok at c in
      elim (Bool-cases (is_in pipe_id)) [
        | inl i ↦ rw i (returns (q.1, ground (arith, is_in_lem pipe_id b)))
        | inr o ↦ rw o (
            Returns.mono (error_create-Carries _ g) λ e k m.
              raised-BothChecked pipe_id unsupported h e k (ground (arith, is_in_lem pipe_id b))
                (Raised-at (λ r x y. Carries no_blocks unsupported [] x r y) e k q.1 m))
      ]
  | inr bad ↦ absurd (rw bad at c)
]

allocate_pipe-IsOpened :
    (fd : ℤ) (pipe_id : ℕ) (e : ErrorPtr) (h g : Heap)
    → BothChecked pipe_id h e g
    → Returns (IsOpened true (some fd) pipe_id h) (allocate_pipe fd pipe_id e g)
unfolding allocate_pipe
allocate_pipe-IsOpened fd pipe_id (some e) h g c =
    returns (fail-IsOpened true (some fd) pipe_id c.0.0 (some e) g c.1 c.0.1)
allocate_pipe-IsOpened fd pipe_id none h g c = Returns.bind (malloc-Moves g) λ p k m.
    wrap_pipe-IsOpened fd pipe_id p k c.1 (subst (λ x. Moves x no_blocks (block? p) k) c.0 m)

create_on-IsOpened :
    (handle : Option ℤ) (pipe_id : ℕ) (h : Heap)
    → pipe_id < 256
    → Returns (IsOpened true handle pipe_id h) (create_on handle pipe_id h)
unfolding create_on
create_on-IsOpened none pipe_id h b =
    Returns.bind (error_create-Carries _ h)
      λ e g c. returns (fail-IsOpened true none pipe_id _ e g refl c)
create_on-IsOpened (some fd) pipe_id h b = Returns.bind (check_pipe_id-Checked pipe_id h b) λ e g c.
    Returns.bind (check_direction-BothChecked pipe_id e h g b c)
      λ e' g' c'. allocate_pipe-IsOpened fd pipe_id e' h g' c'

-- `async_in_pipe_create` opens a valid pipe without transfers where the output pointer and the
-- handle are not NULL and the ID is that of an IN endpoint. Otherwise, or where memory runs out, it
-- returns an error and no pipe, and only the error stays allocated.
pub create-IsOpened :
    (has_output : Bool) (handle : Option ℤ) (pipe_id : ℕ) (h : Heap)
    → pipe_id < 256
    → Returns (IsOpened has_output handle pipe_id h) (create has_output handle pipe_id h)
unfolding create
create-IsOpened true handle pipe_id h b = create_on-IsOpened handle pipe_id h b
create-IsOpened false handle pipe_id h b =
    Returns.bind (error_create-Carries _ h)
      λ e g c. returns (fail-IsOpened false handle pipe_id _ e g refl c)
