-- ===== src/Usbfd/Files.antt =====
-- Checking, opening and reading a device node file.
use libusbp.Base.{
  true≢false, ℤ, pos, negsuc, ℕ, ◌≡◌, refl, sym, ◌∙◌, inl, inr, Bool, true, false, not, ◌&&◌,
  Bool-cases, none, some, List, [], ◌∷◌, ◌++◌, text, arith, ◌==◌, if◌then◌else◌,
}
use libusbp.Print.{integer}
use libusbp.Heap.{Heap, no_blocks}
use libusbp.Heap.Returns
use libusbp.Heap.Returns.{Returns, returns}
use libusbp.Error.{Error, ErrorPtr, error_not_ready}
use libusbp.Error.Chain.{Carries, error_create-Carries, error_add_code-Carries}
use libusbp.LinuxError.Errno.{enoent}
use libusbp.LinuxError.Meaning.{error_create_errno-Carries}
use libusbp.Steps.{Failed, Checks, failed-Checks, HasNotReady}
use libusbp.Usbfd.{
  Reply, equals, is_minus_one, device_descriptor_size, check_existence, open_result, open_file,
  get_device_descriptor,
}
use libusbp.Usbfd.Requests.{CarriesErrno}

-- A file that is missing may appear later, which its error says; any other failure is about errno.
abbrev pub Existence : Reply → List ℕ → Heap → ErrorPtr → Heap → Type 0
Existence access filename h e g =
    if equals access.result 0
    then (e ≡ none) × (g ≡ h)
    else if equals access.errno enoent
    then Carries no_blocks (text "File does not exist: " ++ (filename ++ text "."))
        (error_not_ready ∷ []) h e g
    else CarriesErrno access.errno (text "Failed to check file: " ++ (filename ++ text ".")) h e g

-- `usbfd_check_existence` returns NULL where `access` succeeds. Where it fails because there is no
-- such file, the error has the code LIBUSBP_ERROR_NOT_READY, and else it is about errno.
pub check_existence-Existence :
    (access : Reply) (filename : List ℕ) (h : Heap)
    → Returns (Existence access filename h) (check_existence access filename h)
unfolding check_existence
check_existence-Existence access filename h = elim (Bool-cases (equals access.result 0)) [
  | inl z ↦ simp z (returns (simp z (refl, refl)))
  | inr z ↦ elim (Bool-cases (equals access.errno enoent)) [
    | inl n ↦
        simp (z, n)
          (Returns.bind (error_create-Carries _ h) λ e g c.
            Returns.mono (error_add_code-Carries e error_not_ready _ [] g (λ a. omega arith) c)
              λ e' k c'. simp (z, n) c')
    | inr n ↦
        simp (z, n)
          (Returns.mono (error_create_errno-Carries access.errno _ h) λ e g c. simp (z, n) c)
  ]
]

existence-Checks :
    (P : Type 0) (Q : Error → Type 0) (access : Reply) (filename : List ℕ) (h : Heap)
    → (equals access.result 0 ≡ true → P)
    → ((e : Error)
        → equals access.result 0 ≡ false
        → (equals access.errno enoent ≡ true → HasNotReady e)
        → Q e)
    → Returns (Checks P Q h) (check_existence access filename h)
unfolding check_existence
existence-Checks P Q access filename h p q = elim (Bool-cases (equals access.result 0)) [
  | inl z ↦ simp z (returns (p z, refl))
  | inr z ↦ elim (Bool-cases (equals access.errno enoent)) [
    | inl n ↦
        simp (z, n)
          (Returns.bind (error_create-Carries _ h) λ e g c.
            Returns.mono (error_add_code-Carries e error_not_ready _ [] g (λ a. omega arith) c)
              λ e' k c'.
                failed-Checks P Q _ _ h e' k
                  (λ r d. q r z (λ _. elim d.tells [ inl (m, cs) ↦ inl cs | inr lack ↦ inr lack ]))
                  c')
    | inr n ↦
        simp (z, n)
          (Returns.mono (error_create_errno-Carries access.errno _ h) λ e g c.
            failed-Checks P Q _ _ h e g (λ r d. q r z (λ y. absurd (true≢false (sym y ∙ n)))) c)
  ]
]

-- The error for a file that is not there.
abbrev pub LacksFile : Reply → Error → Type 0
LacksFile access e =
    (equals access.result 0 ≡ false) × (equals access.errno enoent ≡ true → HasNotReady e)

pub check_existence-Checks :
    (access : Reply) (filename : List ℕ) (h : Heap)
    → Returns
        (Checks (equals access.result 0 ≡ true) (LacksFile access) h)
        (check_existence access filename h)
check_existence-Checks access filename h =
    existence-Checks (equals access.result 0 ≡ true) (LacksFile access) access filename h (λ z. z)
      (λ e z n. (z, n))

-- A descriptor other than -1, or -1 and an error about errno.
abbrev pub OpensFile : Reply → List ℕ → Heap → ErrorPtr × ℤ → Heap → Type 0
OpensFile reply filename h (e, fd) g =
    (fd ≡ reply.result)
    × (if is_minus_one reply.result
        then CarriesErrno reply.errno (text "Failed to open USB device " ++ (filename ++ text "."))
            h e g
        else (e ≡ none) × (g ≡ h))

open_result-OpensFile :
    (result errno : ℤ) (filename : List ℕ) (h : Heap)
    → Returns
        (OpensFile (record { result = result; errno = errno }) filename h)
        (open_result filename errno result h)
unfolding open_result
open_result-OpensFile (pos n) errno filename h = returns (refl, (refl, refl))
open_result-OpensFile (negsuc n) errno filename h = elim (Bool-cases (n == 0)) [
  | inl z ↦
      simp z (Returns.bind (error_create_errno-Carries errno _ h) λ e g c. returns (refl, simp z c))
  | inr z ↦ simp z (returns (refl, simp z (refl, refl)))
]

-- `usbfd_open` returns the descriptor; or, where `open` returns -1, an error about errno.
pub open_file-OpensFile :
    (reply : Reply) (filename : List ℕ) (h : Heap)
    → Returns (OpensFile reply filename h) (open_file reply filename h)
unfolding open_file
open_file-OpensFile reply filename h = open_result-OpensFile reply.result reply.errno filename h

-- The message of a descriptor that is too short.
abbrev pub short_message : ℤ → List ℕ
short_message size =
    text "Failed to read device descriptor.  Expected "
    ++ (integer (pos device_descriptor_size)
        ++ (text "-byte device descriptor, read " ++ (integer size ++ text " bytes.")))

abbrev pub ReadsDescriptor : (lseek read : Reply) → Heap → ErrorPtr → Heap → Type 0
ReadsDescriptor lseek read h e g =
    if is_minus_one lseek.result
    then CarriesErrno lseek.errno (text "Failed to go to beginning of USB device file.") h e g
    else if is_minus_one read.result
    then CarriesErrno read.errno (text "Failed to read device descriptor.") h e g
    else if not (equals read.result device_descriptor_size)
    then Carries no_blocks (short_message read.result) [] h e g
    else (e ≡ none) × (g ≡ h)

-- `usbfd_get_device_descriptor` succeeds exactly where the file can be rewound and all 18 bytes of
-- the descriptor are read; otherwise it returns an error about errno, or about the number of bytes.
pub get_device_descriptor-ReadsDescriptor :
    (lseek read : Reply) (h : Heap)
    → Returns (ReadsDescriptor lseek read h) (get_device_descriptor lseek read h)
unfolding get_device_descriptor
get_device_descriptor-ReadsDescriptor lseek read h = elim (Bool-cases (is_minus_one lseek.result)) [
  | inl l ↦ simp l (Returns.mono (error_create_errno-Carries lseek.errno _ h) λ e g c. simp l c)
  | inr l ↦ elim (Bool-cases (is_minus_one read.result)) [
    | inl r ↦
        simp (l, r)
          (Returns.mono (error_create_errno-Carries read.errno _ h) λ e g c. simp (l, r) c)
    | inr r ↦ elim (Bool-cases (equals read.result device_descriptor_size)) [
      | inl s ↦ simp (l, r, s) (returns (simp (l, r, s) (refl, refl)))
      | inr s ↦ simp (l, r, s) (Returns.mono (error_create-Carries _ h) λ e g c. simp (l, r, s) c)
    ]
  ]
]

-- Whether the descriptor is read in full.
abbrev pub is_read : (lseek read : Reply) → Bool
is_read lseek read =
    not (is_minus_one lseek.result)
    && (not (is_minus_one read.result) && equals read.result device_descriptor_size)

descriptor-Checks :
    (P Q : Type 0) (lseek read : Reply) (h : Heap)
    → (is_read lseek read ≡ true → P)
    → (is_read lseek read ≡ false → Q)
    → Returns (Checks P (λ _. Q) h) (get_device_descriptor lseek read h)
unfolding get_device_descriptor
descriptor-Checks P Q lseek read h p q = elim (Bool-cases (is_minus_one lseek.result)) [
  | inl l ↦ simp l (
      Returns.mono (error_create_errno-Carries lseek.errno _ h)
        λ e g c. failed-Checks P (λ _. Q) _ _ h e g (λ _ _. q (simp l refl)) c)
  | inr l ↦ elim (Bool-cases (is_minus_one read.result)) [
    | inl r ↦
        simp (l, r)
          (Returns.mono (error_create_errno-Carries read.errno _ h)
            λ e g c. failed-Checks P (λ _. Q) _ _ h e g (λ _ _. q (simp (l, r) refl)) c)
    | inr r ↦ elim (Bool-cases (equals read.result device_descriptor_size)) [
      | inl s ↦ simp (l, r, s) (returns (p (simp (l, r, s) refl), refl))
      | inr s ↦
          simp (l, r, s)
            (Returns.mono (error_create-Carries _ h)
              λ e g c. failed-Checks P (λ _. Q) _ _ h e g (λ _ _. q (simp (l, r, s) refl)) c)
    ]
  ]
]

pub get_device_descriptor-Checks :
    (lseek read : Reply) (h : Heap)
    → Returns
        (Checks (is_read lseek read ≡ true) (λ _. is_read lseek read ≡ false) h)
        (get_device_descriptor lseek read h)
get_device_descriptor-Checks lseek read h =
    descriptor-Checks (is_read lseek read ≡ true) (is_read lseek read ≡ false) lseek read h (λ z. z)
      (λ z. z)

-- The same as a step: a descriptor, or an error where `open` returned -1.
abbrev pub GotDescriptor : Reply → Heap → ErrorPtr × ℤ → Heap → Type 0
GotDescriptor reply h (none, fd) g =
    (fd ≡ reply.result) × ((is_minus_one reply.result ≡ false) × (g ≡ h))
GotDescriptor reply h (some e, fd) g = (is_minus_one reply.result ≡ true) × Failed e h g

open_result-GotDescriptor :
    (result errno : ℤ) (filename : List ℕ) (h : Heap)
    → Returns
        (GotDescriptor (record { result = result; errno = errno }) h)
        (open_result filename errno result h)
unfolding open_result
open_result-GotDescriptor (pos n) errno filename h = returns (refl, (refl, refl))
open_result-GotDescriptor (negsuc n) errno filename h = elim (Bool-cases (n == 0)) [
  | inl z ↦
      simp z (Returns.bind (error_create_errno-Carries errno _ h) λ e g c. returns (opened e g c z))
  | inr z ↦ simp z (returns (refl, (z, refl)))
]
  where
    opened :
        (e : ErrorPtr) (g : Heap)
        → CarriesErrno errno (text "Failed to open USB device " ++ (filename ++ text ".")) h e g
        → (n == 0) ≡ true
        → GotDescriptor (record { result = negsuc n; errno = errno }) h (e, negsuc n) g
    opened none g c z = absurd c
    opened (some e) g c z = (z, (c.valid, c.moves))

pub open_file-GotDescriptor :
    (reply : Reply) (filename : List ℕ) (h : Heap)
    → Returns (GotDescriptor reply h) (open_file reply filename h)
unfolding open_file
open_file-GotDescriptor reply filename h =
    open_result-GotDescriptor reply.result reply.errno filename h
