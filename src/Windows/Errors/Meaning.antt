-- ===== src/Windows/Errors/Meaning.antt =====
-- What the errors made from an error number of Windows say, and which codes they have.
use libusbp.Base.{ℕ, inl, inr, Bool-cases, List, [], ◌∷◌, ◌++◌, text, arith, ◌==◌, if◌then◌else◌}
use libusbp.Print.{hexadecimal}
use libusbp.Heap.{Heap, no_blocks}
use libusbp.Heap.Moves.{Owned}
use libusbp.Heap.Returns
use libusbp.Heap.Returns.{Returns}
use libusbp.Error.{ErrorPtr, error_device_disconnected}
use libusbp.Error.Message.{joined}
use libusbp.Error.Chain.{
  Carries, error_create-Carries, error_add_v-Carries, error_add-Carries, error_add_code-Carries,
}
use libusbp.LinuxError.Meaning.{joined?, all_appended, own_message-Carries, add_codes-Carries}
use libusbp.Windows.ErrorCode
use libusbp.Windows.Errors.{
  case_of_code, sentence, code_message, error_create_winapi, create_disconnected,
  error_create_overlapped, error_create_cr,
}

-- The context, then the sentence of Windows, then what the library knows of the number, and itself.
abbrev pub winapi_message : (ℕ → List ℕ) → ℕ → List ℕ → List ℕ
winapi_message format_message code context = joined context (
    joined? (sentence (case_of_code code).has_sentence (format_message code))
      (joined? (case_of_code code).own_message (code_message code)))

abbrev pub CarriesWinapi : (ℕ → List ℕ) → ℕ → List ℕ → Heap → ErrorPtr → Heap → Type 0
CarriesWinapi format_message code context =
    Carries no_blocks (winapi_message format_message code context)
      (all_appended [] (case_of_code code).codes)

no_blocks-Owned : (h : Heap) → Owned no_blocks h
no_blocks-Owned h a = omega arith

pub error_create_winapi-Carries :
    (format_message : ℕ → List ℕ) (code : ℕ) (context : List ℕ) (h : Heap)
    → Returns
        (CarriesWinapi format_message code context h)
        (error_create_winapi format_message code context h)
unfolding error_create_winapi
error_create_winapi-Carries format_message code context h =
    Returns.bind (error_create-Carries (code_message code) h) λ e₁ h₁ c₁.
      Returns.bind
        (own_message-Carries (case_of_code code).own_message e₁ _ _ h₁ (no_blocks-Owned h) c₁)
        λ e₂ h₂ c₂.
          Returns.bind
            (add_codes-Carries (case_of_code code).codes e₂ _ _ h₂ (no_blocks-Owned h) c₂)
            λ e₃ h₃ c₃.
              Returns.bind
                (own_message-Carries
                  (sentence (case_of_code code).has_sentence (format_message code)) e₃ _ _ h₃
                  (no_blocks-Owned h) c₃)
                λ e₄ h₄ c₄. error_add_v-Carries e₄ context _ _ h₄ (no_blocks-Owned h) c₄

-- What the result of an asynchronous transfer means, where the number of a missing file stands for a
-- device that is gone.
abbrev pub CarriesOverlapped : (ℕ → List ℕ) → ℕ → List ℕ → Heap → ErrorPtr → Heap → Type 0
CarriesOverlapped format_message code context h e g =
    if code == ErrorCode.file_not_found
    then Carries no_blocks
        (joined context (joined (text "The device was disconnected.") (code_message code)))
        (error_device_disconnected ∷ []) h e g
    else CarriesWinapi format_message code context h e g

disconnected-Carries :
    (code : ℕ) (context : List ℕ) (h : Heap)
    → Returns
        (Carries no_blocks
          (joined context (joined (text "The device was disconnected.") (code_message code)))
          (error_device_disconnected ∷ [])
          h)
        (create_disconnected code context h)
unfolding create_disconnected
disconnected-Carries code context h =
    Returns.bind (error_create-Carries (code_message code) h) λ e₁ h₁ c₁.
      Returns.bind (error_add-Carries e₁ _ _ _ h₁ (no_blocks-Owned h) c₁) λ e₂ h₂ c₂.
        Returns.bind
          (error_add_code-Carries e₂ error_device_disconnected _ _ h₂ (no_blocks-Owned h) c₂)
          λ e₃ h₃ c₃. error_add_v-Carries e₃ context _ _ h₃ (no_blocks-Owned h) c₃

-- `error_create_overlapped` never returns NULL. The error says that the device was disconnected, and
-- has that code, where the number is ERROR_FILE_NOT_FOUND; for any other number it has the message
-- and the codes of that number, unless memory runs out.
pub error_create_overlapped-CarriesOverlapped :
    (format_message : ℕ → List ℕ) (code : ℕ) (context : List ℕ) (h : Heap)
    → Returns
        (CarriesOverlapped format_message code context h)
        (error_create_overlapped format_message code context h)
unfolding error_create_overlapped
error_create_overlapped-CarriesOverlapped format_message code context h =
    elim (Bool-cases (code == ErrorCode.file_not_found)) [
      | inl z ↦ simp z (Returns.mono (disconnected-Carries code context h) λ e g c. simp z c)
      | inr z ↦ simp z (
          Returns.mono (error_create_winapi-Carries format_message code context h)
            λ e g c. simp z c)
    ]

pub error_create_cr-Carries :
    (cr : ℕ) (context : List ℕ) (h : Heap)
    → Returns
        (Carries no_blocks
          (joined context (text "CONFIGRET error code 0x" ++ (hexadecimal cr ++ text ".")))
          []
          h)
        (error_create_cr cr context h)
unfolding error_create_cr
error_create_cr-Carries cr context h =
    Returns.bind (error_create-Carries _ h)
      λ e g c. error_add_v-Carries e context _ _ g (no_blocks-Owned h) c
