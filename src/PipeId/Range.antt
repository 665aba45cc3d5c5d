-- ===== src/PipeId/Range.antt =====
-- The checks on pipe IDs against the endpoint numbers of USB.
use Prim.Native.Nat.{bit_and}
use libusbp.Base.{
  ℕ, zero, suc, ◌%◌, ◌<◌, ◌≡◌, refl, inl, inr, Bool, true, false, not, ◌&&◌, ◌||◌, none, [], ◌++◌,
  text, arith, ltb, leb, ◌==◌, if◌then◌else◌, Bool-cases,
}
use libusbp.Print.{hex}
use libusbp.Heap.{Heap, no_blocks}
use libusbp.Heap.Returns.{Returns, returns}
use libusbp.Error.{ErrorPtr}
use libusbp.Error.Chain.{Carries, error_create-Carries}
use libusbp.PipeId.{is_in, is_rejected, check_pipe_id, check_pipe_id_in, check_pipe_id_out}

-- Control endpoint 0, OUT endpoints 1 to 15 and IN endpoints 1 to 15 with bit 7 set.
abbrev pub is_pipe_id : ℕ → Bool
is_pipe_id p = ltb p 16 || (ltb 0x80 p && ltb p 0x90)

-- Whether a test holds of every number under the bound.
holds_under : (test : ℕ → Bool) (bound : ℕ) → Bool
holds_under test zero = true
holds_under test (suc bound) = holds_under test bound && test bound

holds_under_lem :
    (test : ℕ → Bool) (bound value : ℕ)
    → value < bound
    → holds_under test bound ≡ true
    → test value ≡ true
unfolding holds_under
holds_under_lem test zero value l all = absurd (omega arith)
holds_under_lem test (suc bound) value l all = ground (arith, holds_under_lem test bound value)

abbrev same : Bool → Bool → Bool
same true b = b
same false b = not b

same_iff : (a b : Bool) → same a b ≡ true → a ≡ b
same_iff true b h = ground arith
same_iff false b h = ground arith

rejected_table : holds_under (λ p. same (is_rejected p) (not (is_pipe_id p))) 256 ≡ true
unfolding holds_under
rejected_table = refl

is_in_table : holds_under (λ p. same (is_in p) (leb 0x80 p)) 256 ≡ true
unfolding holds_under
is_in_table = refl

endpoint_table : holds_under (λ p. bit_and p 15 == p % 16) 256 ≡ true
unfolding holds_under
endpoint_table = refl

pub endpoint_lem : (p : ℕ) → p < 256 → bit_and p 15 ≡ p % 16
endpoint_lem p h =
    ground (arith, holds_under_lem (λ p. bit_and p 15 == p % 16) 256 p h endpoint_table)

pub is_rejected_lem : (p : ℕ) → p < 256 → is_rejected p ≡ not (is_pipe_id p)
is_rejected_lem p h =
    same_iff _ _
      (holds_under_lem (λ p. same (is_rejected p) (not (is_pipe_id p))) 256 p h rejected_table)

pub is_in_lem : (p : ℕ) → p < 256 → is_in p ≡ leb 0x80 p
is_in_lem p h =
    same_iff _ _ (holds_under_lem (λ p. same (is_in p) (leb 0x80 p)) 256 p h is_in_table)

-- NULL and an untouched heap where the ID is accepted, an error that says so where it is not.
abbrev pub Checked : Bool → ℕ → Heap → ErrorPtr → Heap → Type 0
Checked accepted p h r g =
    if accepted
    then (r ≡ none) × (g ≡ h)
    else Carries no_blocks (text "Invalid pipe ID 0x" ++ hex 2 p (text ".")) [] h r g

-- `check_pipe_id` accepts exactly 0 to 15 and 0x81 to 0x8f, and otherwise returns an error with the
-- message for the ID (or the code for a lack of memory).
pub check_pipe_id-Checked :
    (p : ℕ) (h : Heap) → p < 256 → Returns (Checked (is_pipe_id p) p h) (check_pipe_id p h)
unfolding check_pipe_id
check_pipe_id-Checked p h b = rw (is_rejected_lem p b) (elim (Bool-cases (is_pipe_id p)) [
  | inl e ↦ rw e (returns (refl, refl))
  | inr e ↦ rw e (error_create-Carries _ h)
])

abbrev pub is_pipe_id_in : ℕ → Bool
is_pipe_id_in p = ltb 0x80 p && ltb p 0x90

-- `check_pipe_id_in` accepts exactly 0x81 to 0x8f, with the same error for the others.
pub check_pipe_id_in-Checked :
    (p : ℕ) (h : Heap) → p < 256 → Returns (Checked (is_pipe_id_in p) p h) (check_pipe_id_in p h)
unfolding check_pipe_id_in
check_pipe_id_in-Checked p h b = rw (is_in_lem p b) (elim (Bool-cases (leb 0x80 p)) [
  | inl e ↦ rw e (rw (in_part e) (check_pipe_id-Checked p h b))
  | inr e ↦ rw (e, out_part e) (error_create-Carries _ h)
])
  where
    in_part : leb 0x80 p ≡ true → is_pipe_id_in p ≡ is_pipe_id p
    in_part e = ground arith

    out_part : leb 0x80 p ≡ false → is_pipe_id_in p ≡ false
    out_part e = ground arith

-- `check_pipe_id_out` accepts exactly 0 to 15, with the same error for the others.
pub check_pipe_id_out-Checked :
    (p : ℕ) (h : Heap) → p < 256 → Returns (Checked (ltb p 16) p h) (check_pipe_id_out p h)
unfolding check_pipe_id_out
check_pipe_id_out-Checked p h b = rw (is_in_lem p b) (elim (Bool-cases (leb 0x80 p)) [
  | inl e ↦ rw (e, in_part e) (error_create-Carries _ h)
  | inr e ↦ rw e (rw (out_part e) (check_pipe_id-Checked p h b))
])
  where
    in_part : leb 0x80 p ≡ true → ltb p 16 ≡ false
    in_part e = ground arith

    out_part : leb 0x80 p ≡ false → ltb p 16 ≡ is_pipe_id p
    out_part e = ground arith
