-- ===== src/Pipe/Cancel.antt =====
-- Cancelling the transfers of a pipe.
use libusbp.Base.{
  ℕ, zero, suc, ◌+◌, ◌≤◌, ◌≡◌, refl, ap, subst, inl, inr, Bool, true, false, not, ◌&&◌, Bool-cases,
  ◌++◌, none, some, List, [], ◌∷◌, text, arith, length, if◌then◌else◌,
}
use libusbp.Heap.{Heap, M}
use libusbp.Heap.Returns
use libusbp.Heap.Returns.{Returns, returns}
use libusbp.Error.{ErrorPtr}
use libusbp.LinuxError.Errno.{einval}
use libusbp.Usbfd.{Reply, UrbRequest, is_negative, equals}
use libusbp.Usbfd.Requests.{CarriesErrno, discard_urb-Reported}
use libusbp.Transfer
use libusbp.Transfer.{Transfer}
use libusbp.Pipe.{Pipe, stop_at_error, cancel_loop, cancel_transfers, transfers_of}
use libusbp.Pipe.Invariant.{IsValid}

-- The kernel refused to cancel a request, and not since it was already completed.
abbrev pub is_failed : Reply → Bool
is_failed r = is_negative r.result && not (equals r.errno einval)

abbrev pub context : List ℕ
context = text "Failed to cancel asynchronous transfer."

-- The request that cancels a transfer.
abbrev pub request_of : Transfer → UrbRequest
request_of t = record { fd = t.fd; urb = t.at }

-- What the kernel replies where each transfer is asked for in turn.
abbrev pub replies_of : (ℕ → UrbRequest → Reply) → List Transfer → List Reply
replies_of kernel [] = []
replies_of kernel (t ∷ ts) = kernel 0 (request_of t) ∷ replies_of (λ i. kernel (i + 1)) ts

abbrev pub NoneFailed : List Reply → Type 0
NoneFailed [] = Unit {0}
NoneFailed (r ∷ rs) = (is_failed r ≡ false) × NoneFailed rs

-- None of the replies is a failure; or the error is about the first that is.
pub data Stopped (replies : List Reply) (h : Heap) : ErrorPtr → Heap → Type 0 where
  cancelled : NoneFailed replies → Stopped replies h none h
  stopped :
      (before after : List Reply) (r : Reply) (e : ErrorPtr) {g : Heap}
      → replies ≡ before ++ (r ∷ after)
      → NoneFailed before
      → is_failed r ≡ true
      → CarriesErrno r.errno context h e g
      → Stopped replies h e g

abbrev pub Tried : Reply → Heap → ErrorPtr → Heap → Type 0
Tried r h e g = if is_failed r then CarriesErrno r.errno context h e g else (e ≡ none) × (g ≡ h)

cancel-Tried :
    (kernel : UrbRequest → Reply) (t : Transfer) (h : Heap)
    → Returns (Tried (kernel (request_of t)) h) (Transfer.cancel kernel t h)
unfolding Transfer.cancel
cancel-Tried kernel t h = Returns.mono (discard_urb-Reported kernel t.fd t.at h) λ e g c.
    let r = kernel (request_of t) in
    elim (Bool-cases (equals r.errno einval)) [
      | inl i ↦ elim (Bool-cases (is_negative r.result)) [
        | inl n ↦ simp (n, i) (simp (n, i) at c)
        | inr n ↦ simp (n, i) (simp (n, i) at c)
      ]
      | inr i ↦ elim (Bool-cases (is_negative r.result)) [
        | inl n ↦ simp (n, i) (simp (n, i) at c)
        | inr n ↦ simp (n, i) (simp (n, i) at c)
      ]
    ]

later-Stopped :
    (r : Reply) (rs : List Reply) (h : Heap) (e : ErrorPtr) (g : Heap)
    → is_failed r ≡ false
    → Stopped rs h e g
    → Stopped (r ∷ rs) h e g
later-Stopped r rs h none g z (cancelled ok) = cancelled (z, ok)
later-Stopped r rs h _ g z (stopped before after r' e q ok f c) =
    stopped (r ∷ before) after r' e (ap (◌∷◌ r) q) (z, ok) f c

-- After the first request the loop ends or goes on.
step-Stopped :
    (r : Reply) (rs : List Reply) (more : M ErrorPtr) (h : Heap) (e : ErrorPtr) (g : Heap)
    → Tried r h e g
    → ((k : Heap) → Returns (Stopped rs k) (more k))
    → Returns (Stopped (r ∷ rs) h) (stop_at_error more e g)
unfolding stop_at_error
step-Stopped r rs more h e g c next = elim (Bool-cases (is_failed r)) [
  | inl f ↦ refuse e f (rw f at c)
  | inr ok ↦ go e ok (rw ok at c)
]
  where
    refuse :
        (e : ErrorPtr)
        → is_failed r ≡ true
        → CarriesErrno r.errno context h e g
        → Returns (Stopped (r ∷ rs) h) (stop_at_error more e g)
    refuse none f c = absurd c
    refuse (some e) f c = returns (stopped [] rs r (some e) refl tt f c)

    go :
        (e : ErrorPtr)
        → is_failed r ≡ false
        → (e ≡ none) × (g ≡ h)
        → Returns (Stopped (r ∷ rs) h) (stop_at_error more e g)
    go (some e) ok q = cc q.0
    go none ok q =
        Returns.mono (next g)
          λ x k s. later-Stopped r rs h x k ok (subst (λ y. Stopped rs y x k) q.1 s)

cancel_loop-Stopped :
    (n : ℕ) (kernel : ℕ → UrbRequest → Reply) (ts : List Transfer) (h : Heap)
    → length ts ≡ n
    → Returns (Stopped (replies_of kernel ts) h) (cancel_loop n kernel ts h)
unfolding cancel_loop
cancel_loop-Stopped zero kernel [] h l = returns (cancelled tt)
cancel_loop-Stopped zero kernel (t ∷ ts) h l = absurd (omega (arith, l))
cancel_loop-Stopped (suc n) kernel [] h l = absurd (omega (arith, l))
cancel_loop-Stopped (suc n) kernel (t ∷ ts) h l =
    Returns.bind (cancel-Tried (kernel 0) t h) λ e g c.
      step-Stopped (kernel 0 (request_of t)) (replies_of (λ i. kernel (i + 1)) ts)
        (cancel_loop n (λ i. kernel (i + 1)) ts) h e g c
        (λ k. cancel_loop-Stopped n (λ i. kernel (i + 1)) ts k (omega (arith, l)))

abbrev pub Cancelled : (ℕ → UrbRequest → Reply) → Pipe → Heap → ErrorPtr × Pipe → Heap → Type 0
Cancelled kernel p h (e, p') g =
    (p' ≡ record p { endless_transfers_enabled = false })
    × (IsValid p' × Stopped (replies_of kernel (transfers_of p)) h e g)

-- `cancel_transfers` on a valid pipe stops the resubmission and changes nothing else of the pipe,
-- which stays valid: cancelled transfers stay in the queue until they are completed. It asks the
-- kernel to discard the urb of each transfer, in the order of the array and each on its own file
-- descriptor, up to the first that the kernel fails to cancel, and the error is about that one; a
-- request that was already completed is no failure, and without failures there is no error.
pub cancel_transfers-Cancelled :
    (kernel : ℕ → UrbRequest → Reply) (p : Pipe) (h : Heap)
    → IsValid p
    → Returns (Cancelled kernel p h) (cancel_transfers kernel p h)
unfolding cancel_transfers
cancel_transfers-Cancelled kernel p h v =
    Returns.bind (cancel_loop-Stopped p.transfer_count kernel (transfers_of p) h v.counted) λ e g s.
      returns (
        refl,
        (
          record {
            counted = v.counted;
            allocated = v.allocated;
            bounded = v.bounded;
            finish = v.finish;
            submit = v.submit;
            ring = v.ring;
          },
          s,
        ),
      )

-- No block that was allocated before is freed.
pub live-le-Stopped :
    (replies : List Reply) (h : Heap) (e : ErrorPtr) (g : Heap) (a : ℕ)
    → Stopped replies h e g
    → h.live a ≤ g.live a
live-le-Stopped replies h _ _ a (cancelled ok) = omega arith
live-le-Stopped replies h _ g a (stopped before after r none q ok f c) = absurd c
live-le-Stopped replies h _ g a (stopped before after r (some e) q ok f c) =
    omega (arith, c.moves.live a)
