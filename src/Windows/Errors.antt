-- ===== src/Windows/Errors.antt =====
-- src/windows/error_windows.c and src/error_hresult.c: errors from the error numbers of Windows. What
-- `GetLastError` gives is an argument, and so is the sentence of `FormatMessage` for a number.
pub mod Meaning
use libusbp.Base.{
  ℕ, Bool, true, false, Option, none, some, List, [], ◌∷◌, ◌++◌, text, ◌==◌, if◌then◌else◌,
}
use libusbp.Windows.ErrorCode
use libusbp.Print.{hexadecimal}
use libusbp.Heap.{M, ◌>>=◌}
use libusbp.Error.{
  ErrorPtr, error_create, error_add, error_add_v, error_add_code, error_memory, error_access_denied,
  error_timeout, error_device_disconnected, error_stall, error_cancelled,
}
use libusbp.LinuxError.{add_own_message, add_codes}

-- What a case of the switch does to the error: a message, then codes in this order, and whether the
-- sentence of Windows follows.
pub record Case : Type 0 where
  pub own_message : Option (List ℕ)
  pub codes : List ℕ
  pub has_sentence : Bool

abbrev own : List ℕ → List ℕ → Bool → Case
own message codes has_sentence = record {
  own_message = some message;
  codes = codes;
  has_sentence = has_sentence;
}

-- The switch of `error_create_winapi_v`.
pub case_of_code : ℕ → Case
case_of_code n =
    if n == ErrorCode.access_denied
    then own (text "Try closing all other programs that are using the device.")
        (error_access_denied ∷ []) true
    else if n == ErrorCode.outofmemory
    then record { own_message = none; codes = error_memory ∷ []; has_sentence = true }
    else if n == ErrorCode.not_enough_memory
    then record { own_message = none; codes = error_memory ∷ []; has_sentence = true }
    else if n == ErrorCode.gen_failure
    then own (text "The request was invalid or there was an I/O problem.")
        (error_stall ∷ error_device_disconnected ∷ []) false
    else if n == ErrorCode.sem_timeout
    then own (text "The operation timed out.") (error_timeout ∷ []) false
    else if n == ErrorCode.operation_aborted
    then own (text "The operation was cancelled.") (error_cancelled ∷ []) false
    else record { own_message = none; codes = []; has_sentence = true }

-- One space at the end is removed.
abbrev pub without_space : List ℕ → List ℕ
without_space [] = []
without_space (c ∷ []) = if c == b' ' then [] else c ∷ []
without_space (c ∷ d ∷ s) = c ∷ without_space (d ∷ s)

-- The sentence where Windows has one, which has no characters where it has none.
abbrev pub sentence : Bool → List ℕ → Option (List ℕ)
sentence false s = none
sentence true [] = none
sentence true (c ∷ s) = some (without_space (c ∷ s))

abbrev pub code_message : ℕ → List ℕ
code_message code = text "Windows error code 0x" ++ (hexadecimal code ++ text ".")

-- `error_create_winapi_v`, given what the format of its caller prints.
pub error_create_winapi : (format_message : ℕ → List ℕ) → (error_code : ℕ) → List ℕ → M ErrorPtr
unfolding case_of_code
error_create_winapi format_message error_code context = do
  error ← error_create (code_message error_code)
  error ← add_own_message (case_of_code error_code).own_message error
  error ← add_codes (case_of_code error_code).codes error
  error ←
      add_own_message (sentence (case_of_code error_code).has_sentence (format_message error_code))
        error
  error_add_v error (some context)

create_disconnected : (error_code : ℕ) → List ℕ → M ErrorPtr
create_disconnected error_code context = do
  error ← error_create (code_message error_code)
  error ← error_add error (text "The device was disconnected.")
  error ← error_add_code error error_device_disconnected
  error_add_v error (some context)

pub error_create_overlapped : (format_message : ℕ → List ℕ) → (error_code : ℕ) → List ℕ → M ErrorPtr
unfolding create_disconnected
error_create_overlapped format_message error_code context =
    if error_code == ErrorCode.file_not_found
    then create_disconnected error_code context
    else error_create_winapi format_message error_code context

pub error_create_cr : (cr : ℕ) → List ℕ → M ErrorPtr
error_create_cr cr context = do
  error ← error_create (text "CONFIGRET error code 0x" ++ (hexadecimal cr ++ text "."))
  error_add_v error (some context)

-- `hr` is the number with the same 32 bits that is not negative.
pub error_create_hr : (hr : ℕ) → List ℕ → M ErrorPtr
error_create_hr hr context = do
  error ← error_create (text "HRESULT error code 0x" ++ (hexadecimal hr ++ text "."))
  error_add_v error (some context)
