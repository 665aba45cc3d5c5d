-- ===== src/PipeId.antt =====
-- src/pipe_id.c: which pipe IDs the library takes, and the errors for the others.
pub mod Range
mod Tests
use Prim.Native.Nat.{bit_and}
use libusbp.Base.{ℕ, Bool, not, ◌||◌, none, [], ◌++◌, text, ltb, ◌==◌, if◌then◌else◌}
use libusbp.Print.{hex}
use libusbp.Heap.{M, pure}
use libusbp.Error.{ErrorPtr, error_create}

abbrev pub max_endpoint_number : ℕ
max_endpoint_number = 15

abbrev pub error_invalid_pipe_id : ℕ → M ErrorPtr
error_invalid_pipe_id pipe_id = error_create (text "Invalid pipe ID 0x" ++ hex 2 pipe_id (text "."))

-- `pipe_id & 0x80`, as a condition.
abbrev pub is_in : ℕ → Bool
is_in pipe_id = not (bit_and pipe_id 0x80 == 0)

-- The argument is a `uint8_t`, promoted to a 32-bit `int` under `& ~0x80`.
abbrev pub is_rejected : ℕ → Bool
is_rejected pipe_id = ltb max_endpoint_number (bit_and pipe_id 0xffff_ff7f) || pipe_id == 0x80

unfoldable pub check_pipe_id : ℕ → M ErrorPtr
check_pipe_id pipe_id = if is_rejected pipe_id then error_invalid_pipe_id pipe_id else pure none

unfoldable pub check_pipe_id_in : ℕ → M ErrorPtr
check_pipe_id_in pipe_id =
    if not (is_in pipe_id) then error_invalid_pipe_id pipe_id else check_pipe_id pipe_id

unfoldable pub check_pipe_id_out : ℕ → M ErrorPtr
check_pipe_id_out pipe_id =
    if is_in pipe_id then error_invalid_pipe_id pipe_id else check_pipe_id pipe_id
