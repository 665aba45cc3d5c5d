-- ===== src/Usbfd/Requests.antt =====
-- What the wrappers of the system calls return on each branch.
use libusbp.Base.{
  ℤ, ℕ, ◌<◌, ◌^◌, ◌≡◌, refl, inl, inr, Bool, true, false, not, ◌&&◌, ◌||◌, Bool-cases, Option, none,
  some, List, [], text, arith, ltb, leb, ◌==◌, if◌then◌else◌, is_some,
}
use libusbp.Heap.{Heap, no_blocks, ◌>>=◌, pure}
use libusbp.Heap.Returns
use libusbp.Heap.Returns.{Returns, returns}
use libusbp.Error.{ErrorPtr}
use libusbp.Error.Chain.{Carries, error_create-Carries}
use libusbp.LinuxError.{case_of, error_create_errno}
use libusbp.LinuxError.Errno.{eagain, einval}
use libusbp.LinuxError.Meaning.{errno_message, all_appended, error_create_errno-Carries}
use libusbp.PipeId.Range.{is_in_lem}
use libusbp.Usbfd.{
  Reply, UrbRequest, is_negative, equals, to_ℕ, store, BulkTransfer, Outcome, uint_max, refuse,
  bulk_or_interrupt_transfer, submit_urb, reap_urb, discard_urb,
}

-- An error about errno, with this context.
abbrev pub CarriesErrno : ℤ → List ℕ → Heap → ErrorPtr → Heap → Type 0
CarriesErrno errno context h =
    Carries no_blocks (errno_message errno (h.strerror errno) context)
      (all_appended [] (case_of errno).codes) h

-- NULL and an untouched heap where the call succeeded, and an error about errno where it failed.
abbrev pub Reported : Reply → List ℕ → Heap → ErrorPtr → Heap → Type 0
Reported reply context h r g =
    if is_negative reply.result
    then CarriesErrno reply.errno context h r g
    else (r ≡ none) × (g ≡ h)

pub submit_urb-Reported :
    (reply : Reply) (h : Heap)
    → Returns (Reported reply (text "Submitting USB request block failed.") h) (submit_urb reply h)
unfolding submit_urb
submit_urb-Reported reply h = elim (Bool-cases (is_negative reply.result)) [
  | inl e ↦ simp e (Returns.mono (error_create_errno-Carries reply.errno _ h) λ r g c. simp e c)
  | inr e ↦ simp e (returns (rw e (refl, refl)))
]

-- That the request was already completed is no error.
pub discard_urb-Reported :
    (kernel : UrbRequest → Reply) (fd : ℤ) (urb : ℕ) (h : Heap)
    → Returns
        (λ r g.
          if equals (kernel (record { fd = fd; urb = urb })).errno einval
          then (r ≡ none) × (g ≡ h)
          else Reported
              (kernel (record { fd = fd; urb = urb }))
              (text "Failed to cancel asynchronous transfer.")
              h
              r
              g)
        (discard_urb kernel fd urb h)
unfolding discard_urb
discard_urb-Reported kernel fd urb h =
    let reply = kernel (record { fd = fd; urb = urb }) in
    elim (Bool-cases (is_negative reply.result)) [
      | inl e ↦ elim (Bool-cases (equals reply.errno einval)) [
        | inl i ↦ simp (e, i) (returns (refl, refl))
        | inr i ↦ simp (e, i) (Returns.mono (error_create_errno-Carries reply.errno _ h) λ r g c. c)
      ]
      | inr e ↦ elim (Bool-cases (equals reply.errno einval)) [
        | inl i ↦ simp (e, i) (returns (refl, refl))
        | inr i ↦ simp (e, i) (returns (refl, refl))
      ]
    ]

-- An error, and nothing transferred.
abbrev pub Refused : List ℕ → List ℕ → Option ℕ → Heap → Outcome → Heap → Type 0
Refused chars codes out h (e, out') g = Carries no_blocks chars codes h e g × (out' ≡ store 0 out)

-- What the kernel's reply to a transfer is to become.
abbrev pub Relayed : Reply → List ℕ → Option ℕ → Heap → Outcome → Heap → Type 0
Relayed reply context out h (e, out') g =
    if is_negative reply.result
    then CarriesErrno reply.errno context h e g × (out' ≡ store 0 out)
    else (e ≡ none) × (out' ≡ store (to_ℕ reply.result) out) × (g ≡ h)

-- The sizes and buffers with which a transfer can be made: some data where it is an IN transfer, no
-- more than an `unsigned int` can count, and a buffer unless there is no data.
abbrev pub is_transferable : ℕ → Option ℕ → ℕ → Bool
is_transferable pipe buffer size =
    (ltb 0 size || not (leb 0x80 pipe)) && (ltb size (2 ^ 32) && (is_some buffer || size == 0))

refuse-Refused :
    (message : List ℕ) (out : Option ℕ) (h : Heap)
    → Returns (λ r g. Refused message [] out h r g) (refuse message out h)
refuse-Refused message out h =
    Returns.bind (error_create-Carries message h) λ e g c. returns (c, refl)

-- A failed call of the kernel, told to the caller.
pub fail-Relayed :
    (reply : Reply) (context : List ℕ) (out : Option ℕ) (h : Heap)
    → Returns
        (λ r g. Relayed reply context out h r g)
        ((if is_negative reply.result
            then (do error ← error_create_errno reply.errno context; pure (error, store 0 out))
            else pure (none, store (to_ℕ reply.result) out))
          h)
fail-Relayed reply context out h = elim (Bool-cases (is_negative reply.result)) [
  | inl e ↦
      simp e
        (Returns.bind (error_create_errno-Carries reply.errno context h) λ r g c. returns (c, refl))
  | inr e ↦ simp e (returns (refl, refl, refl))
]

abbrev pub BulkTransferred :
    (BulkTransfer → Reply)
    → (pipe timeout : ℕ) → Option ℕ
    → ℕ
    → Option ℕ
    → Heap
    → Outcome
    → Heap
    → Type 0
BulkTransferred kernel pipe timeout buffer size out h r g =
    if is_transferable pipe buffer size
    then Relayed (kernel (record { ep = pipe; len = size; timeout = timeout; data_at = buffer })) []
        out h r g
    else (message : List ℕ) × Refused message [] out h r g

-- Where the size and the buffer allow a transfer, `usbfd_bulk_or_interrupt_transfer` makes exactly
-- the request with that pipe, size, timeout and buffer, and relays the reply. Where they do not it
-- makes none, whatever the kernel would reply, and returns an error; `*transferred` is then 0.
pub bulk-BulkTransferred :
    (kernel : BulkTransfer → Reply) (pipe timeout : ℕ) (buffer : Option ℕ) (size : ℕ)
    (out : Option ℕ) (h : Heap)
    → pipe < 256
    → Returns
        (BulkTransferred kernel pipe timeout buffer size out h)
        (bulk_or_interrupt_transfer kernel pipe timeout buffer size out h)
unfolding bulk_or_interrupt_transfer
bulk-BulkTransferred kernel pipe timeout buffer size out h b =
    rw (is_in_lem pipe b) (elim (Bool-cases (size == 0 && leb 0x80 pipe)) [
      | inl e ↦ simp e (
          Returns.mono (refuse-Refused _ out h)
            λ r g c. let t : is_transferable pipe buffer size ≡ false = ground arith in rw t (_, c))
      | inr e ↦ elim (Bool-cases (ltb uint_max size)) [
        | inl l ↦
            simp (e, l)
              (Returns.mono (refuse-Refused _ out h) λ r g c.
                let t : is_transferable pipe buffer size ≡ false = ground arith in rw t (_, c))
        | inr l ↦ elim (Bool-cases (not (is_some buffer) && not (size == 0))) [
          | inl n ↦
              simp (e, l, n)
                (Returns.mono (refuse-Refused _ out h) λ r g c.
                  let t : is_transferable pipe buffer size ≡ false = ground arith in rw t (_, c))
          | inr n ↦
              simp (e, l, n)
                (Returns.mono (fail-Relayed _ [] out h)
                  λ r g c. let t : is_transferable pipe buffer size ≡ true = ground arith in rw t c)
        ]
      ]
    ])

-- The error and the request block, by the reply.
abbrev pub Reaps : {U : Type 0} → Reply → U → Heap → (ErrorPtr × Option U) → Heap → Type 0
Reaps reply u h (e, u') g =
    if is_negative reply.result
    then (u' ≡ none)
      × (if equals reply.errno eagain
          then (e ≡ none) × (g ≡ h)
          else CarriesErrno reply.errno (text "Failed to reap an asynchronous transfer.") h e g)
    else (u' ≡ some u) × ((e ≡ none) × (g ≡ h))

-- `usbfd_reap_urb` gives a request block where the call succeeded, nothing and no error where the
-- kernel has none that is completed, and else no block and an error about errno.
pub reap_urb-Reaps :
    {U : Type 0} (reply : Reply) (u : U) (h : Heap) → Returns (Reaps reply u h) (reap_urb reply u h)
unfolding reap_urb
reap_urb-Reaps reply u h = elim (Bool-cases (is_negative reply.result)) [
  | inl n ↦ elim (Bool-cases (equals reply.errno eagain)) [
    | inl a ↦ simp (n, a) (returns (simp (n, a) (refl, (refl, refl))))
    | inr a ↦
        simp (n, a)
          (Returns.bind (error_create_errno-Carries reply.errno _ h)
            λ e g c. returns (simp (n, a) (refl, c)))
  ]
  | inr n ↦ simp n (returns (simp n (refl, (refl, refl))))
]
