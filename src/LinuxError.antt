-- ===== src/LinuxError.antt =====
-- src/linux/error_linux.c: errors from errno, from the status of a USB request, and from libudev.
pub mod Errno
pub mod Meaning
mod Tests
use libusbp.Base.{
  ℤ, pos, negsuc, neg, zero, suc, ℕ, Bool, true, false, Option, none, some, List, [], ◌∷◌, ◌++◌,
  text, ◌^◌, ◌==◌, if◌then◌else◌,
}
use libusbp.Print.{integer}
use libusbp.Heap.{M, pure, fault, ◌>>=◌}
use libusbp.Error.{
  ErrorPtr, error_create, error_add, error_add_v, error_add_code, error_memory, error_access_denied,
  error_timeout, error_device_disconnected, error_stall, error_cancelled,
}

-- What a case of the switch does to the error: a message of its own in place of the standard one
-- (`skip_standard_message`), then codes in this order.
pub record Case : Type 0 where
  pub own_message : Option (List ℕ)
  pub codes : List ℕ

abbrev standard : List ℕ → Case
standard codes = record { own_message = none; codes = codes }

abbrev own : List ℕ → List ℕ → Case
own message codes = record { own_message = some message; codes = codes }

-- The switch on a positive error number.
pub case_of_errno : ℕ → Case
case_of_errno n =
    if n == Errno.eacces
    then standard (error_access_denied ∷ [])
    else if n == Errno.enomem
    then standard (error_memory ∷ [])
    else if n == Errno.epipe
    then own (text "The request was invalid or there was an I/O problem.")
        (error_stall ∷ error_device_disconnected ∷ [])
    else if n == Errno.enodev
    then own (text "The device was removed.") (error_device_disconnected ∷ [])
    else if n == Errno.eshutdown
    then own (text "The device was removed.") (error_device_disconnected ∷ [])
    else if n == Errno.eproto
    then standard (error_device_disconnected ∷ [])
    else if n == Errno.etime
    then standard (error_device_disconnected ∷ [])
    else if n == Errno.etimedout
    then own (text "The operation timed out.") (error_timeout ∷ [])
    else if n == Errno.eoverflow
    then own (text "The transfer overflowed.") []
    else if n == Errno.eilseq
    then own
        (text
          "Illegal byte sequence: the device may have been disconnected or the request may have been cancelled.")
        (error_device_disconnected ∷ error_cancelled ∷ [])
    else standard []

-- No error number is 0 or negative, so those take no case.
pub case_of : ℤ → Case
unfolding case_of_errno
case_of (pos n) = case_of_errno n
case_of (negsuc n) = standard []

pub add_own_message : Option (List ℕ) → ErrorPtr → M ErrorPtr
add_own_message none error = pure error
add_own_message (some message) error = error_add error message

pub add_codes : List ℕ → ErrorPtr → M ErrorPtr
add_codes [] error = pure error
add_codes (code ∷ codes) error = do e ← error_add_code error code; add_codes codes e

add_description : Option (List ℕ) → ErrorPtr → M ErrorPtr
add_description none error = pure error
add_description (some d) error = error_add error (d ++ text ".")

-- The message of `strerror_r`, where there was none of the case's own and it succeeds.
add_standard_message : Option (List ℕ) → ℤ → ErrorPtr → M ErrorPtr
unfolding add_description
add_standard_message (some _) code error h = some (error, h)
add_standard_message none code error h = add_description (h.strerror code) error h

-- `error_create_errno`, given errno and what its format prints.
pub error_create_errno : ℤ → List ℕ → M ErrorPtr
unfolding add_own_message add_codes add_standard_message case_of
error_create_errno error_code context = do
  error ← error_create (text "Error code " ++ (integer error_code ++ text "."))
  error ← add_own_message (case_of error_code).own_message error
  error ← add_codes (case_of error_code).codes error
  error ← add_standard_message (case_of error_code).own_message error_code error
  error_add_v error (some context)

create_cancelled : ℤ → M ErrorPtr
create_cancelled code = do
  error ← error_create (text "Error code " ++ (integer code ++ text "."))
  error ← error_add error (text "The operation was cancelled.")
  error_add_code error error_cancelled

error_from_code : ℤ → M ErrorPtr
unfolding create_cancelled
error_from_code (pos zero) = pure none
error_from_code (pos (suc n)) =
    if suc n == Errno.enoent
    then create_cancelled (pos (suc n))
    else error_create_errno (pos (suc n)) []
error_from_code (negsuc n) = error_create_errno (negsuc n) []

-- The smallest `int`: the negation of it is undefined.
abbrev pub is_int_min : ℤ → Bool
is_int_min (pos n) = false
is_int_min (negsuc n) = suc n == 2 ^ 31

-- `error_from_urb_status`, given the status field.
pub error_from_urb_status : ℤ → M ErrorPtr
unfolding error_from_code
error_from_urb_status status = if is_int_min status then fault else error_from_code (neg status)

pub error_create_udev : ℤ → List ℕ → M ErrorPtr
error_create_udev error_code context = do
  error ← error_create (text "Error from libudev: " ++ (integer error_code ++ text "."))
  error_add_v error (some context)
