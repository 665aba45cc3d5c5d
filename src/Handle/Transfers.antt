-- ===== src/Handle/Transfers.antt =====
-- Reading from and writing to the pipes of a handle.
use libusbp.Base.{
  ℕ, ◌%◌, ◌<◌, ◌≡◌, refl, ◌∙◌, inl, inr, Bool, true, false, Bool-cases, Option, none, some, List,
  [], ◌++◌, text, arith, ltb, leb, get_elem?, if◌then◌else◌,
}
use libusbp.Print.{hex}
use libusbp.Heap.{Heap, no_blocks, and_then}
use libusbp.Heap.Returns
use libusbp.Heap.Returns.{Returns, returns}
use libusbp.Error.{ErrorPtr}
use libusbp.Error.Message.{joined}
use libusbp.Error.Chain.{Carries, error_add-Carries}
use libusbp.LinuxError.{case_of}
use libusbp.LinuxError.Meaning.{errno_message, all_appended}
use libusbp.PipeId.Range.{
  is_pipe_id_in, endpoint_lem, Checked, check_pipe_id_in-Checked, check_pipe_id_out-Checked,
}
use libusbp.Usbfd.{Reply, BulkTransfer, Outcome, is_negative, to_ℕ, store}
use libusbp.Usbfd.Requests.{
  CarriesErrno, Relayed, Refused, BulkTransferred, is_transferable, bulk-BulkTransferred,
}
use libusbp.Handle.{Handle, read_pipe, write_pipe, transfer_if_accepted, add_failure, timeout_at}
use libusbp.Handle.Timeouts.{timeout_of}

-- An error with this message and these codes after the context, and nothing transferred.
abbrev pub Failed : (context chars codes : List ℕ) → Option ℕ → Heap → Outcome → Heap → Type 0
Failed context chars codes out h (e, out') g =
    Carries no_blocks (joined context chars) codes h e g × (out' ≡ store 0 out)

-- The outcome of the kernel's reply.
abbrev pub Answered : Reply → (context : List ℕ) → Option ℕ → Heap → Outcome → Heap → Type 0
Answered reply context out h (e, out') g =
    if is_negative reply.result
    then Failed context (errno_message reply.errno (h.strerror reply.errno) [])
        (all_appended [] (case_of reply.errno).codes) out h (e, out') g
    else (e ≡ none) × ((out' ≡ store (to_ℕ reply.result) out) × (g ≡ h))

abbrev pub Transferred :
    (BulkTransfer → Reply)
    → (pipe timeout : ℕ) → Option ℕ
    → ℕ
    → (context : List ℕ) → Option ℕ
    → Heap
    → Outcome
    → Heap
    → Type 0
Transferred kernel pipe timeout buffer size context out h r g =
    if is_transferable pipe buffer size
    then Answered (kernel (record { ep = pipe; len = size; timeout = timeout; data_at = buffer }))
        context out h r g
    else (message : List ℕ) × Failed context message [] out h r g

store-store : (n m : ℕ) (out : Option ℕ) → store n (store m out) ≡ store n out
store-store n m none = refl
store-store n m (some x) = refl

add_failure-Failed :
    (context chars codes : List ℕ) (out : Option ℕ) {h : Heap} (e : ErrorPtr) (out' : Option ℕ)
    (g : Heap)
    → Carries no_blocks chars codes h e g
    → out' ≡ store 0 out
    → Returns (Failed context chars codes out h) (add_failure context (e, out') g)
unfolding add_failure
add_failure-Failed context chars codes out none out' g c q = absurd c
add_failure-Failed context chars codes out (some e) out' g c q =
    Returns.bind (error_add-Carries (some e) context chars codes g (λ a. omega arith) c)
      λ r k d. returns (d, q)

add_failure-Answered :
    (reply : Reply) (context : List ℕ) (out : Option ℕ) (h : Heap) (e : ErrorPtr) (out' : Option ℕ)
    (g : Heap)
    → Relayed reply [] (store 0 out) h (e, out') g
    → Returns (Answered reply context out h) (add_failure context (e, out') g)
unfolding add_failure
add_failure-Answered reply context out h e out' g r = elim (Bool-cases (is_negative reply.result)) [
  | inl n ↦
      let f : CarriesErrno reply.errno [] h e g × (out' ≡ store 0 (store 0 out)) = simp n at r in
      Returns.mono (add_failure-Failed context _ _ out e out' g f.0 (f.1 ∙ store-store 0 0 out))
        λ x k c. simp n c
  | inr n ↦
      let (a, b, q) : (e ≡ none) × (out' ≡ store (to_ℕ reply.result) (store 0 out)) × (g ≡ h) =
        simp n at r in
      simp a (returns (simp n (refl, (b ∙ store-store _ 0 out, q))))
]

add_failure-Transferred :
    (kernel : BulkTransfer → Reply) (pipe timeout : ℕ) (buffer : Option ℕ) (size : ℕ)
    (context : List ℕ) (out : Option ℕ) (h : Heap) (e : ErrorPtr) (out' : Option ℕ) (g : Heap)
    → BulkTransferred kernel pipe timeout buffer size (store 0 out) h (e, out') g
    → Returns
        (Transferred kernel pipe timeout buffer size context out h)
        (add_failure context (e, out') g)
add_failure-Transferred kernel pipe timeout buffer size context out h e out' g t =
    elim (Bool-cases (is_transferable pipe buffer size)) [
      | inl a ↦
          Returns.mono (add_failure-Answered _ context out h e out' g (rw a at t)) λ x k c. rw a c
      | inr a ↦
          let (message, (c, q)) : (message : List ℕ) × Refused message [] (store 0 out) h (e, out')
                g =
            rw a at t in
          Returns.mono
            (add_failure-Failed context message [] out e out' g c (q ∙ store-store 0 0 out))
            λ x k c. rw a (message, c)
    ]

-- What a read or a write gives the caller, by whether the pipe ID is accepted.
abbrev pub PipeTransferred :
    (accepted : Bool)
    → (BulkTransfer → Reply)
    → (pipe timeout : ℕ) → Option ℕ
    → ℕ
    → (context : List ℕ) → Option ℕ
    → Heap
    → Outcome
    → Heap
    → Type 0
PipeTransferred accepted kernel pipe timeout buffer size context out h r g =
    if accepted
    then Transferred kernel pipe timeout buffer size context out h r g
    else Failed context (text "Invalid pipe ID 0x" ++ hex 2 pipe (text ".")) [] out h r g

transfer_if_accepted-PipeTransferred :
    (accepted : Bool) (kernel : BulkTransfer → Reply) (timeouts : List ℕ) (pipe timeout : ℕ)
    (buffer : Option ℕ) (size : ℕ) (context : List ℕ) (out : Option ℕ) (h : Heap) (e : ErrorPtr)
    (g : Heap)
    → pipe < 256
    → (accepted ≡ true → get_elem? timeouts (pipe % 16) ≡ some timeout)
    → Checked accepted pipe h e g
    → Returns (PipeTransferred accepted kernel pipe timeout buffer size context out h) (
        and_then
          (transfer_if_accepted kernel timeouts pipe buffer size (store 0 out) e g)
          (add_failure context))
unfolding transfer_if_accepted timeout_at
transfer_if_accepted-PipeTransferred true kernel timeouts pipe timeout buffer size context out h
      (some e) g b t c =
    cc c.0
transfer_if_accepted-PipeTransferred true kernel timeouts pipe timeout buffer size context out h
      none g b t c =
    rw (endpoint_lem pipe b) (
      simp (t refl, c.1)
        (Returns.bind (bulk-BulkTransferred kernel pipe timeout buffer size (store 0 out) h b)
          λ r k m.
            add_failure-Transferred kernel pipe timeout buffer size context out h r.0 r.1 k m))
transfer_if_accepted-PipeTransferred false kernel timeouts pipe timeout buffer size context out h
      none g b t c =
    absurd c
transfer_if_accepted-PipeTransferred false kernel timeouts pipe timeout buffer size context out h
      (some e) g b t c =
    add_failure-Failed context _ [] out (some e) (store 0 out) g c refl

-- `libusbp_read_pipe` accepts the IDs of IN endpoints 1 to 15 alone. It makes the transfer with the
-- timeout that is set for that pipe and relays the reply; every error says that reading failed, and
-- then nothing was transferred.
pub read_pipe-PipeTransferred :
    (kernel : BulkTransfer → Reply) (handle : Handle) (pipe timeout : ℕ) (buffer : Option ℕ)
    (size : ℕ) (out : Option ℕ) (h : Heap)
    → pipe < 256
    → timeout_of handle pipe ≡ some timeout
    → Returns
        (PipeTransferred
          (is_pipe_id_in pipe)
          kernel
          pipe
          timeout
          buffer
          size
          (text "Failed to read from pipe.")
          out
          h)
        (read_pipe kernel (some handle) pipe buffer size out h)
unfolding read_pipe
read_pipe-PipeTransferred kernel handle pipe timeout buffer size out h b t =
    Returns.bind (check_pipe_id_in-Checked pipe h b) λ e g c.
      transfer_if_accepted-PipeTransferred (is_pipe_id_in pipe) kernel handle.in_timeout pipe
        timeout buffer size _ out h e g b
        (λ a. let i : leb 0x80 pipe ≡ true = ground arith in rw i at t) c

-- `libusbp_write_pipe` accepts the IDs 0 to 15 alone. It makes the transfer with the timeout that is
-- set for that pipe and relays the reply; every error says that writing failed, and then nothing was
-- transferred.
pub write_pipe-PipeTransferred :
    (kernel : BulkTransfer → Reply) (handle : Handle) (pipe timeout : ℕ) (buffer : Option ℕ)
    (size : ℕ) (out : Option ℕ) (h : Heap)
    → pipe < 256
    → timeout_of handle pipe ≡ some timeout
    → Returns
        (PipeTransferred
          (ltb pipe 16)
          kernel
          pipe
          timeout
          buffer
          size
          (text "Failed to write to pipe.")
          out
          h)
        (write_pipe kernel (some handle) pipe buffer size out h)
unfolding write_pipe
write_pipe-PipeTransferred kernel handle pipe timeout buffer size out h b t =
    Returns.bind (check_pipe_id_out-Checked pipe h b) λ e g c.
      transfer_if_accepted-PipeTransferred (ltb pipe 16) kernel handle.out_timeout pipe timeout
        buffer size _ out h e g b (λ a. let i : leb 0x80 pipe ≡ false = ground arith in rw i at t) c
