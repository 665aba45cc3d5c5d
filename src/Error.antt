-- ===== src/Error.antt =====
-- src/error.c: error objects with a message and a list of codes, and who owns their memory.
pub mod Ownership
pub mod Message
pub mod Codes
pub mod Copy
pub mod Chain
mod Tests
use libusbp.Base.{
  ℕ, ◌+◌, ◌*◌, ◌/◌, ◌^◌, ◌-◌, Bool, true, false, ◌&&◌, ◌||◌, not, Option, none, some, List, [], ◌∷◌,
  ◌++◌, text, take, zero, suc, ◌==◌, leb, if◌then◌else◌, is_some,
}
use libusbp.Heap.{
  Blocks, no_blocks, block, block?, M, pure, fault, ◌>>=◌, ◌>>◌, malloc, free, realloc,
}

-- A `char *` to a block of the heap, with the characters before its terminator.
pub record Text : Type 0 where
  pub at : ℕ
  pub chars : List ℕ

-- The block behind a `uint32_t *`.
pub record CodeArray : Type 0 where
  pub at : ℕ
  pub codes : List ℕ

-- `struct libusbp_error`, with the address `at` of its own block.
pub record Error : Type 0 where
  pub at : ℕ
  pub do_not_free : Bool
  pub message : Option Text
  pub code_count : ℕ
  pub code_array : Option CodeArray

-- `libusbp_error *`: `none` is NULL, which stands for success.
abbrev pub ErrorPtr : Type 0
ErrorPtr = Option Error

-- `enum libusbp_error_code`.
abbrev pub error_memory : ℕ
error_memory = 1

abbrev pub error_not_ready : ℕ
error_not_ready = 2

abbrev pub error_access_denied : ℕ
error_access_denied = 3

abbrev pub error_no_serial_number : ℕ
error_no_serial_number = 4

abbrev pub error_timeout : ℕ
error_timeout = 5

abbrev pub error_device_disconnected : ℕ
error_device_disconnected = 6

abbrev pub error_stall : ℕ
error_stall = 7

abbrev pub error_cancelled : ℕ
error_cancelled = 8

-- The static objects, which stand in no block of the heap: the addresses are not used.
abbrev pub static_error : Option Text → ℕ → Option CodeArray → Error
static_error message n codes = record {
  at = 0;
  do_not_free = true;
  message = message;
  code_count = n;
  code_array = codes;
}

abbrev pub mem_error_code_array : CodeArray
mem_error_code_array = record { at = 0; codes = error_memory ∷ [] }

abbrev pub error_no_memory : Error
error_no_memory =
    static_error (some (record { at = 0; chars = text "Failed to allocate memory." })) 1
      (some mem_error_code_array)

abbrev pub error_masked_by_no_memory : Error
error_masked_by_no_memory =
    static_error
      (some (record { at = 0; chars = text "Failed to allocate memory for reporting an error." })) 1
      (some mem_error_code_array)

abbrev pub error_blank : Error
error_blank = static_error none 0 none

abbrev pub text_block : Option Text → Option ℕ
text_block none = none
text_block (some t) = some t.at

abbrev pub array_block : Option CodeArray → Option ℕ
array_block none = none
array_block (some c) = some c.at

abbrev pub chars_of : Option Text → List ℕ
chars_of none = []
chars_of (some t) = t.chars

abbrev pub codes_of : Option CodeArray → List ℕ
codes_of none = []
codes_of (some c) = c.codes

abbrev pub owned : Error → Blocks
owned e a =
    if e.do_not_free
    then 0
    else block e.at a + block? (text_block e.message) a + block? (array_block e.code_array) a

abbrev pub owned? : ErrorPtr → Blocks
owned? none a = 0
owned? (some e) a = owned e a

-- `libusbp_error_free`
pub error_free : ErrorPtr → M (Unit {0})
error_free none = pure tt
error_free (some e) =
    if e.do_not_free
    then pure tt
    else do free (text_block e.message); free (array_block e.code_array); free (some e.at); pure tt

copy_failed : Option ℕ → Option ℕ → Option ℕ → M Error
copy_failed e m c = do free e; free m; free c; pure error_masked_by_no_memory

-- The part of `libusbp_error_copy` behind the three allocations, by which of them failed.
copy_into : Error → ℕ → Option ℕ → Option ℕ → Option ℕ → M Error
unfolding copy_failed
copy_into src n (some e) (some m) (some c) = pure (record {
  at = e;
  do_not_free = false;
  message = some (record { at = m; chars = chars_of src.message });
  code_count = n;
  code_array = some (record { at = c; codes = take n (codes_of src.code_array) });
})
copy_into src n (some e) (some m) none =
    if n == 0
    then pure (record {
      at = e;
      do_not_free = false;
      message = some (record { at = m; chars = chars_of src.message });
      code_count = n;
      code_array = none;
    })
    else copy_failed (some e) (some m) none
copy_into src n e m c = copy_failed e m c

pub copy : Error → M Error
unfolding copy_into
copy src = do
  new_error ← malloc
  new_message ← malloc
  new_code_array ← malloc
  copy_into src (if is_some src.code_array then src.code_count else 0) new_error new_message
      new_code_array

-- `libusbp_error_copy`
pub error_copy : ErrorPtr → M ErrorPtr
unfolding copy
error_copy none = pure none
error_copy (some src) = do e ← copy src; pure (some e)

or_blank : ErrorPtr → Error
or_blank none = error_blank
or_blank (some e) = e

-- It never returns NULL, so the result is an error and no pointer.
pub error_make_mutable : ErrorPtr → M Error
unfolding copy or_blank
error_make_mutable error =
    if (or_blank error).do_not_free then copy (or_blank error) else pure (or_blank error)

-- The characters that `error_add_v` writes: the outer message, a separator, the inner message.
abbrev separator : List ℕ → List ℕ → List ℕ
separator (x ∷ xs) (y ∷ ys) = text "  "
separator _ _ = []

-- Where the message is NULL, a string literal takes its place and is freed, which is undefined.
replace_message : Error → List ℕ → Option ℕ → Option Text → M Error
unfolding error_free
replace_message e outer m none = fault
replace_message e outer none (some old) = do error_free (some e); pure error_masked_by_no_memory
replace_message e outer (some m) (some old) = do
  free (some old.at)
  pure (record e {
    message = some (record { at = m; chars = outer ++ (separator outer old.chars ++ old.chars) });
  })

put_message : Error → List ℕ → Option ℕ → M Error
unfolding replace_message
put_message e outer m = replace_message e outer m e.message

pub add_message : Error → List ℕ → M Error
unfolding put_message
add_message e outer = if e.do_not_free then pure e else do m ← malloc; put_message e outer m

-- `error_add_v`, given what its format prints.
pub error_add_v : ErrorPtr → Option (List ℕ) → M ErrorPtr
unfolding error_make_mutable add_message
error_add_v error none = pure error
error_add_v error (some outer) = do
  e ← error_make_mutable error
  e' ← add_message e outer
  pure (some e')

put_code : Error → ℕ → Option ℕ → M Error
unfolding error_free
put_code e code none = do error_free (some e); pure error_masked_by_no_memory
put_code e code (some p) = pure (record e {
  code_count = e.code_count + 1;
  code_array =
      some (record { at = p; codes = take e.code_count (codes_of e.code_array) ++ (code ∷ []) });
})

abbrev pub size_max : ℕ
size_max = 2 ^ 64 - 1

pub append_code : Error → ℕ → M Error
unfolding put_code
append_code e code =
    if e.do_not_free || leb (size_max / 4) e.code_count
    then pure e
    else do p ← realloc (array_block e.code_array); put_code e code p

pub error_add_code : ErrorPtr → ℕ → M ErrorPtr
unfolding error_make_mutable append_code
error_add_code error code = do e ← error_make_mutable error; e' ← append_code e code; pure (some e')

pub error_add : ErrorPtr → List ℕ → M ErrorPtr
unfolding error_add_v
error_add error message = error_add_v error (some message)

pub error_create : List ℕ → M ErrorPtr
unfolding error_add_v
error_create message = error_add_v none (some message)

-- The loop of `libusbp_error_has_code`, with the rounds left. `none` is a read past the array.
has_code_loop : ℕ → List ℕ → ℕ → Option Bool
has_code_loop zero codes code = some false
has_code_loop (suc n) [] code = none
has_code_loop (suc n) (c ∷ codes) code =
    let rest = has_code_loop n codes code in if c == code then some true else rest

pub error_has_code : ErrorPtr → ℕ → Option Bool
unfolding has_code_loop
error_has_code none code = some false
error_has_code (some e) code = has_code_loop e.code_count (codes_of e.code_array) code

pub error_get_message : ErrorPtr → List ℕ
error_get_message none = text "No error."
error_get_message (some e) = chars_of e.message
