-- ===== src/Error/Tests.antt =====
-- Tests of the error objects of src/error.c.
use libusbp.Base.{refl, false, true, some, [], ◌∷◌, text, arith}
use libusbp.Heap.Returns.{Returns}
use libusbp.Error.{
  Error, owned, error_copy, error_add_v, error_add_code, error_timeout, error_stall,
}
use libusbp.Error.Ownership.{IsValid}
use libusbp.Error.Message.{AddsMessage, error_add_v-AddsMessage}
use libusbp.Error.Codes.{HasCode, Extends, add_code-Extends, has_code-contains}
use libusbp.Error.Copy.{Copies, error_copy-Copies}
use libusbp.Samples.{heap_of}

-- An error with a message and the code for a timeout.
abbrev timed_out : Error
timed_out = record {
  at = 1;
  do_not_free = false;
  message = some (record { at = 2; chars = text "Too late." });
  code_count = 1;
  code_array = some (record { at = 3; codes = error_timeout ∷ [] });
}

timed_out-IsValid : IsValid timed_out
timed_out-IsValid = record { counted = refl; has_message = refl }

timed_out-HasCode : HasCode (some timed_out) error_timeout
timed_out-HasCode = has_code-contains (some timed_out) error_timeout timed_out-IsValid

error_copy-Copies_example :
    Returns
      (Copies (some timed_out) (heap_of (owned timed_out)))
      (error_copy (some timed_out) (heap_of (owned timed_out)))
error_copy-Copies_example =
    error_copy-Copies (some timed_out) (heap_of (owned timed_out)) timed_out-IsValid

error_add_v-AddsMessage_example :
    Returns
      (AddsMessage (some timed_out) (some (text "Reading failed.")) (heap_of (owned timed_out)))
      (error_add_v (some timed_out) (some (text "Reading failed.")) (heap_of (owned timed_out)))
error_add_v-AddsMessage_example =
    error_add_v-AddsMessage (some timed_out) (some (text "Reading failed."))
      (heap_of (owned timed_out)) timed_out-IsValid (λ a. omega arith)

add_code-Extends_example :
    Returns
      (λ r g. Extends error_stall error_timeout true r)
      (error_add_code (some timed_out) error_stall (heap_of (owned timed_out)))
add_code-Extends_example =
    add_code-Extends (some timed_out) error_stall error_timeout true (heap_of (owned timed_out))
      timed_out-IsValid (λ a. omega arith) (omega arith) timed_out-HasCode
