-- ===== src/Events/Loop.antt =====
-- The loop that handles the completed request blocks.
use libusbp.Base.{
  ℤ, ℕ, ◌≡◌, sym, subst, ◌⊎◌, inl, inr, true, false, ◌&&◌, Bool-cases, Option, none, some, List, [],
  ◌∷◌, text, is_some,
}
use libusbp.Heap.{Heap, and_then}
use libusbp.Heap.Returns
use libusbp.Heap.Returns.{Returns, returns}
use libusbp.Error.{ErrorPtr}
use libusbp.LinuxError.{is_int_min}
use libusbp.LinuxError.Errno.{eagain}
use libusbp.PipeId.{is_in}
use libusbp.Usbfd.{equals}
use libusbp.Usbfd.Requests.{CarriesErrno, Reaps, reap_urb-Reaps}
use libusbp.Transfer.{Transfer}
use libusbp.Events.{
  Reaped, Reap, reaped, failed, reply_of, is_bulk, Handled, handle_context, handle_completed_urb,
  go_on, on_reaped, handle_events,
}
use libusbp.Events.Delivery.{
  IsPendingAt, Absent, Deliverable, Sound, CompletesAt, complete-CompletesAt, completed-Sound,
  Deliverable-set, failed-Reaping, Reaping-after, ReapingOf, refused-ReapingOf,
}

-- A request block that the kernel promised is completed, or it is unrecognized and an error is made.
urb-Reaping :
    (r : Reaped) (i : ℕ) (ts : List Transfer) (rs : List Reap) (h : Heap)
    → Sound ts
    → r.usercontext ≡ some i
    → is_int_min r.completion.status ≡ false
    → IsPendingAt ts i
    → Returns
        (λ r' g. CompletesAt ts i h r' g ⊎ ((is_some r'.0 ≡ true) × ReapingOf ts rs h r' g))
        (handle_completed_urb r ts h)
unfolding handle_completed_urb handle_context
urb-Reaping r i ts rs h s u negatable p =
    simp u (elim (Bool-cases (is_bulk r.kind && is_in r.endpoint)) [
      | inl e ↦
          simp e
            (Returns.mono (complete-CompletesAt r.completion i ts h s negatable p) λ r' g c. inl c)
      | inr e ↦ simp e (Returns.mono (refused-ReapingOf _ ts rs h s) λ r' g c. inr c)
    ])

failure-ReapingOf :
    (errno : ℤ) (ts : List Transfer) (rs : List Reap) (h : Heap) (x : ErrorPtr × Option Reap)
    (g : Heap)
    → Sound ts
    → Reaps (reply_of (failed errno)) (failed errno) h x g
    → Returns (ReapingOf ts (failed errno ∷ rs) h) (on_reaped (handle_events rs) ts x g)
unfolding on_reaped
failure-ReapingOf errno ts rs h (e, some u) g s (n, c) = cc n
failure-ReapingOf errno ts rs h (none, none) g s (n, c) = elim (Bool-cases (equals errno eagain)) [
  | inl a ↦
      let q : (none ≡ none) × (g ≡ h) = rw a at c in
      returns (failed-Reaping ts _ h none g s q.1 (λ n. tt))
  | inr a ↦ absurd (rw a at c)
]
failure-ReapingOf errno ts rs h (some e, none) g s (n, c) =
    elim (Bool-cases (equals errno eagain)) [
      | inl a ↦ let q : (some e ≡ none) × (g ≡ h) = rw a at c in cc q.0
      | inr a ↦
          let q : CarriesErrno errno (text "Failed to reap an asynchronous transfer.") h (some e)
              g =
            rw a at c in
          returns (failed-Reaping ts _ h (some e) g s (q.moves, q.valid) (λ n. tt))
    ]

-- One round of the loop after the kernel gave a request block back.
round-ReapingOf :
    (r : Reaped) (i : ℕ) (rs : List Reap) (ts : List Transfer) (h : Heap) (x : Handled) (k : Heap)
    → Sound ts
    → r.usercontext ≡ some i
    → Absent i rs
    → Deliverable ts rs
    → CompletesAt ts i h x k ⊎ ((is_some x.0 ≡ true) × ReapingOf ts (reaped r ∷ rs) h x k)
    → ((ts' : List Transfer)
        → Sound ts'
        → Deliverable ts' rs
        → Returns (ReapingOf ts' rs k) (handle_events rs ts' k))
    → Returns (ReapingOf ts (reaped r ∷ rs) h) (go_on (handle_events rs) x k)
unfolding go_on
round-ReapingOf r i rs ts h (some e, ts') k s u n d (inl (q, c)) more = cc q
round-ReapingOf r i rs ts h (some e, ts') k s u n d (inr (q, c)) more = returns c
round-ReapingOf r i rs ts h (none, ts') k s u n d (inr (q, c)) more = cc q
round-ReapingOf r i rs ts h (none, ts') k s u n d (inl (q, c)) more =
    Returns.mono
      (more ts' (completed-Sound s c)
        (subst (λ l. Deliverable l rs) (sym c.set_now) (Deliverable-set ts i c.now rs n d)))
      λ x g m. Reaping-after i u c m

given-Returns :
    {P : Handled → Heap → Type 0} (r : Reaped) (rs : List Reap) (ts : List Transfer) (h : Heap)
    (x : ErrorPtr × Option Reap) (g : Heap)
    → Reaps (reply_of (reaped r)) (reaped r) h x g
    → Returns P (and_then (handle_completed_urb r ts h) (go_on (handle_events rs)))
    → Returns P (on_reaped (handle_events rs) ts x g)
unfolding on_reaped
given-Returns r rs ts h (e, v) g (a, (b, q)) next = simp (a, b, q) next

pub handle_events-ReapingOf :
    (rs : List Reap) (ts : List Transfer) (h : Heap)
    → Sound ts
    → Deliverable ts rs
    → Returns (ReapingOf ts rs h) (handle_events rs ts h)
unfolding handle_events on_reaped
handle_events-ReapingOf [] ts h s d = absurd d
handle_events-ReapingOf (failed errno ∷ rs) ts h s d =
    Returns.bind (reap_urb-Reaps (reply_of (failed errno)) (failed errno) h)
      λ x g c. failure-ReapingOf errno ts rs h x g s c
handle_events-ReapingOf (reaped r ∷ rs) ts h s (i, (u, (negatable, (p, (n, d))))) =
    Returns.bind (reap_urb-Reaps (reply_of (reaped r)) (reaped r) h) λ x g c.
      given-Returns r rs ts h x g c (
        Returns.bind (urb-Reaping r i ts (reaped r ∷ rs) h s u negatable p) λ y k m.
          round-ReapingOf r i rs ts h y k s u n d m
            (λ ts' s' d'. handle_events-ReapingOf rs ts' k s' d'))
