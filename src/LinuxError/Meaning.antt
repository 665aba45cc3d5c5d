-- ===== src/LinuxError/Meaning.antt =====
-- What the errors made from an error number say, and which codes they have.
use libusbp.Base.{
  ℤ, pos, negsuc, zero, suc, ℕ, ◌≡◌, refl, inl, inr, Bool-cases, false, Option, none, some, List,
  [], ◌∷◌, ◌++◌, text, arith, ◌==◌, if◌then◌else◌, ap,
}
use libusbp.Print.{integer}
use libusbp.Heap.{Heap, Blocks, no_blocks}
use libusbp.Heap.Moves.{Owned}
use libusbp.Heap.Returns
use libusbp.Heap.Returns.{Returns, returns}
use libusbp.Error.{ErrorPtr, error_cancelled}
use libusbp.Error.Message.{joined}
use libusbp.Error.Codes.{appended}
use libusbp.Error.Chain.{
  Carries, error_create-Carries, error_add_v-Carries, error_add-Carries, error_add_code-Carries,
}
use libusbp.LinuxError.Errno.{enoent}
use libusbp.LinuxError.{
  case_of, add_own_message, add_codes, add_description, add_standard_message, error_create_errno,
  create_cancelled, is_int_min, error_from_urb_status, error_create_udev,
}

abbrev pub joined? : Option (List ℕ) → List ℕ → List ℕ
joined? none inner = inner
joined? (some outer) inner = joined outer inner

abbrev pub all_appended : List ℕ → List ℕ → List ℕ
all_appended codes [] = codes
all_appended codes (c ∷ cs) = all_appended (appended codes c) cs

pub own_message-Carries :
    (m : Option (List ℕ)) (e : ErrorPtr) (chars codes : List ℕ) {old : Blocks} {h : Heap} (g : Heap)
    → Owned old h
    → Carries old chars codes h e g
    → Returns (Carries old (joined? m chars) codes h) (add_own_message m e g)
unfolding add_own_message
own_message-Carries none e chars codes g o c = returns c
own_message-Carries (some m) e chars codes g o c = error_add-Carries e m chars codes g o c

pub add_codes-Carries :
    (cs : List ℕ) (e : ErrorPtr) (chars codes : List ℕ) {old : Blocks} {h : Heap} (g : Heap)
    → Owned old h
    → Carries old chars codes h e g
    → Returns (Carries old chars (all_appended codes cs) h) (add_codes cs e g)
unfolding add_codes
add_codes-Carries [] e chars codes g o c = returns c
add_codes-Carries (x ∷ cs) e chars codes g o c =
    Returns.bind (error_add_code-Carries e x chars codes g o c)
      λ r k d. add_codes-Carries cs r chars (appended codes x) k o d

-- The sentence of `strerror_r`, where the case has none of its own.
abbrev pub standard_message : Option (List ℕ) → Option (List ℕ) → Option (List ℕ)
standard_message (some _) d = none
standard_message none none = none
standard_message none (some d) = some (d ++ text ".")

add_description-Carries :
    (d : Option (List ℕ)) (e : ErrorPtr) (chars codes : List ℕ) {old : Blocks} {h : Heap} (g : Heap)
    → Owned old h
    → Carries old chars codes h e g
    → Returns
        (Carries old (joined? (standard_message none d) chars) codes h)
        (add_description d e g)
unfolding add_description
add_description-Carries none e chars codes g o c = returns c
add_description-Carries (some d) e chars codes g o c = error_add-Carries e _ chars codes g o c

standard_message-Carries :
    (own : Option (List ℕ)) (code : ℤ) (e : ErrorPtr) (chars codes : List ℕ) {old : Blocks}
    {h : Heap} (g : Heap)
    → Owned old h
    → Carries old chars codes h e g
    → Returns
        (Carries old (joined? (standard_message own (h.strerror code)) chars) codes h)
        (add_standard_message own code e g)
unfolding add_standard_message
standard_message-Carries (some m) code e chars codes g o c = returns c
standard_message-Carries none code none chars codes g o c = absurd c
standard_message-Carries none code (some e) chars codes g o c =
    rw (← ap (λ s. s.strerror code) c.moves.same)
      (add_description-Carries (g.strerror code) (some e) chars codes g o c)

abbrev pub number_message : ℤ → List ℕ
number_message code = text "Error code " ++ (integer code ++ text ".")

-- The context, then what the error number means, then the number itself.
abbrev pub errno_message : ℤ → Option (List ℕ) → List ℕ → List ℕ
errno_message code d context =
    let own = (case_of code).own_message in
    joined context (joined? (standard_message own d) (joined? own (number_message code)))

-- `error_create_errno` never returns NULL and runs without undefined behaviour. Unless memory runs
-- out, its message is the caller's, then the case's own or that of `strerror_r`, then the number;
-- and its codes are those of the case, in order.
pub error_create_errno-Carries :
    (code : ℤ) (context : List ℕ) (h : Heap)
    → Returns
        (Carries no_blocks
          (errno_message code (h.strerror code) context)
          (all_appended [] (case_of code).codes)
          h)
        (error_create_errno code context h)
unfolding error_create_errno
error_create_errno-Carries code context h =
    let own = (case_of code).own_message in
    Returns.bind (error_create-Carries (number_message code) h) λ e₁ h₁ c₁.
      Returns.bind (own_message-Carries own e₁ _ _ h₁ o c₁) λ e₂ h₂ c₂.
        Returns.bind (add_codes-Carries (case_of code).codes e₂ _ _ h₂ o c₂) λ e₃ h₃ c₃.
          Returns.bind (standard_message-Carries own code e₃ _ _ h₃ o c₃)
            λ e₄ h₄ c₄. error_add_v-Carries e₄ context _ _ h₄ o c₄
  where
    o : Owned no_blocks h
    o a = omega arith

-- What `error_from_urb_status` is to return: NULL exactly for status 0. For -n it is an error about
-- the error number n, with its own message and code where n is that of a cancelled request. A
-- positive status is no error number, and reported like an unknown one.
abbrev pub MeansStatus : ℤ → Heap → ErrorPtr → Heap → Type 0
MeansStatus (pos zero) h r g = (r ≡ none) × (g ≡ h)
MeansStatus (pos (suc n)) h r g =
    Carries no_blocks (errno_message (negsuc n) (h.strerror (negsuc n)) []) [] h r g
MeansStatus (negsuc n) h r g =
    if suc n == enoent
    then Carries no_blocks
        (joined (text "The operation was cancelled.") (number_message (pos (suc n))))
        (error_cancelled ∷ []) h r g
    else Carries no_blocks (errno_message (pos (suc n)) (h.strerror (pos (suc n))) [])
        (all_appended [] (case_of (pos (suc n))).codes) h r g

create_cancelled-Carries :
    (n : ℕ) (h : Heap)
    → Returns
        (Carries no_blocks
          (joined (text "The operation was cancelled.") (number_message (pos n)))
          (error_cancelled ∷ [])
          h)
        (create_cancelled (pos n) h)
unfolding create_cancelled
create_cancelled-Carries n h =
    Returns.bind (error_create-Carries (number_message (pos n)) h) λ e₁ h₁ c₁.
      Returns.bind (error_add-Carries e₁ _ _ _ h₁ (λ a. omega arith) c₁)
        λ e₂ h₂ c₂. error_add_code-Carries e₂ error_cancelled _ _ h₂ (λ a. omega arith) c₂

-- `error_from_urb_status` returns what `MeansStatus` asks for, at every status but the smallest
-- `int`, which cannot be negated, without undefined behaviour, and it gives back what memory it does
-- not return.
pub error_from_urb_status-MeansStatus :
    (status : ℤ) (h : Heap)
    → is_int_min status ≡ false
    → Returns (MeansStatus status h) (error_from_urb_status status h)
unfolding error_from_urb_status case_of
error_from_urb_status-MeansStatus (pos zero) h q = returns (refl, refl)
error_from_urb_status-MeansStatus (pos (suc n)) h q = error_create_errno-Carries (negsuc n) [] h
error_from_urb_status-MeansStatus (negsuc n) h q = rw q (elim (Bool-cases (suc n == enoent)) [
  | inl e ↦ rw e (Returns.mono (create_cancelled-Carries (suc n) h) λ r g c. rw e c)
  | inr e ↦ rw e (Returns.mono (error_create_errno-Carries (pos (suc n)) [] h) λ r g c. rw e c)
])

pub error_create_udev-Carries :
    (code : ℤ) (context : List ℕ) (h : Heap)
    → Returns
        (Carries no_blocks
          (joined context (text "Error from libudev: " ++ (integer code ++ text ".")))
          []
          h)
        (error_create_udev code context h)
unfolding error_create_udev
error_create_udev-Carries code context h =
    Returns.bind (error_create-Carries _ h)
      λ e g c. error_add_v-Carries e context _ _ g (λ a. omega arith) c
