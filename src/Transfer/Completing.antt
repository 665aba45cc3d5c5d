-- ===== src/Transfer/Completing.antt =====
-- What the completion of a request makes of its transfer.
use libusbp.Base.{
  ℤ, pos, negsuc, zero, suc, ℕ, ◌≡◌, refl, ap, subst, ◌∙◌, inl, inr, Bool, true, false, not, ◌&&◌,
  Bool-cases, none, some, List, arith, ◌==◌, is_some,
}
use libusbp.Heap.{Heap, no_blocks}
use libusbp.Heap.Moves.{Moves}
use libusbp.Heap.Returns
use libusbp.Heap.Returns.{Returns, returns}
use libusbp.Error.{Error, ErrorPtr, chars_of, codes_of}
use libusbp.Error
use libusbp.Error.Ownership.{IsValid, IsValid?}
use libusbp.Error.Chain.{Carries, error_create-Carries, error_add-Carries}
use libusbp.LinuxError.{is_int_min, error_from_urb_status}
use libusbp.LinuxError.Errno.{enoent}
use libusbp.LinuxError.Meaning.{error_from_urb_status-MeansStatus}
use libusbp.Transfer.{Transfer, owned, check_error_count, add_context, handle_completion, is_zero}
use libusbp.Transfer.Ownership.{IsSound}

-- From `h` to `g` nothing happened where the pointer is NULL, and else the error was allocated.
abbrev pub Raised : Heap → ErrorPtr → Heap → Type 0
Raised h none g = g ≡ h
Raised h (some e) g = Moves h no_blocks (Error.owned e) g × IsValid e

pub Raised-Moves : {h g : Heap} (e : ErrorPtr) → Raised h e g → Moves h no_blocks (Error.owned? e) g
Raised-Moves none r = record {
  live = λ a. omega (arith, ap (λ k. k.live a) r);
  same = ap (λ k. k.surroundings) r;
}
Raised-Moves (some e) r = record { live = r.0.live; same = r.0.same }

pub Raised-IsValid? : (h g : Heap) (e : ErrorPtr) → Raised h e g → IsValid? e
Raised-IsValid? h g none r = tt
Raised-IsValid? h g (some e) r = r.1

pub Carries-Raised :
    (chars codes : List ℕ) (h g : Heap) (e : ErrorPtr)
    → Carries no_blocks chars codes h e g
    → Raised h e g × (is_some e ≡ true)
Carries-Raised chars codes h g none c = absurd c
Carries-Raised chars codes h g (some e) c = ((c.moves, c.valid), refl)

pub quiet-Raised :
    (h g : Heap) (e : ErrorPtr) → (e ≡ none) × (g ≡ h) → Raised h e g × (is_some e ≡ false)
quiet-Raised h g none q = (q.1, refl)
quiet-Raised h g (some e) q = cc (q.0)

-- The error of a status, by whether it is 0.
abbrev pub Judged : Bool → Heap → ErrorPtr → Heap → Type 0
Judged success h e g = Raised h e g × (is_some e ≡ not success)

status-Judged :
    (status : ℤ) (h : Heap)
    → is_int_min status ≡ false
    → Returns (Judged (is_zero status) h) (error_from_urb_status status h)
unfolding is_zero
status-Judged (pos zero) h q =
    Returns.mono (error_from_urb_status-MeansStatus (pos zero) h q) λ e g m. quiet-Raised h g e m
status-Judged (pos (suc n)) h q =
    Returns.mono (error_from_urb_status-MeansStatus (pos (suc n)) h q)
      λ e g m. Carries-Raised _ _ h g e m
status-Judged (negsuc n) h q =
    Returns.mono (error_from_urb_status-MeansStatus (negsuc n) h q) λ e g m.
      elim (Bool-cases (suc n == enoent)) [
        | inl i ↦ Carries-Raised _ _ h g e (rw i at m)
        | inr i ↦ Carries-Raised _ _ h g e (rw i at m)
      ]

count-Judged :
    (count : ℤ) (success : Bool) (e : ErrorPtr) {h : Heap} (g : Heap)
    → Judged success h e g
    → Returns (Judged (success && is_zero count) h) (check_error_count count e g)
unfolding check_error_count
count-Judged count success (some e) g j = returns (j.0, ground arith)
count-Judged count success none {h} g j = elim (Bool-cases (is_zero count)) [
  | inl z ↦ simp z (returns (j.0, ground arith))
  | inr z ↦ simp z (
      Returns.mono (error_create-Carries _ g) λ e k c.
        let r = Carries-Raised _ _ g k e c in
        (subst (λ x. Raised x e k) j.0 r.0, r.1 ∙ ground arith))
]

context-Judged :
    (success : Bool) (e : ErrorPtr) {h : Heap} (g : Heap)
    → Judged success h e g
    → Returns (Judged success h) (add_context e g)
unfolding add_context
context-Judged success none g j = returns j
context-Judged success (some e) {h} g j =
    Returns.mono
      (error_add-Carries (some e) _ (chars_of e.message) (codes_of e.code_array) g
        (λ a. omega arith) (record { moves = j.0.0; valid = j.0.1; tells = inl (refl, refl) }))
      λ r k c. let d = Carries-Raised _ _ h k r c in (d.0, d.1 ∙ ground arith)

-- What `async_in_transfer_handle_completion` leaves: no longer pending, with an error exactly where
-- the status or the error count is not 0.
pub record Completed (t : Transfer) (h : Heap) (t' : Transfer) (g : Heap) : Type 0 where
  pub moves : Moves h (owned t) (owned t') g
  pub sound : IsSound t'
  pub at : t'.at ≡ t.at
  pub urb : t'.urb ≡ t.urb
  pub fd : t'.fd ≡ t.fd
  pub idle : t'.pending ≡ false
  pub error : is_some t'.error ≡ not (is_zero t.urb.status && is_zero t.urb.error_count)

-- The completion of a sound transfer that has no error yet, as a pending one has none, and a status
-- other than the smallest `int`, is as `Completed` says: nothing leaks, whichever requests for memory
-- fail.
pub handle_completion-Completed :
    (t : Transfer) (h : Heap)
    → IsSound t
    → t.error ≡ none
    → is_int_min t.urb.status ≡ false
    → Returns (Completed t h) (handle_completion t h)
unfolding handle_completion
handle_completion-Completed t h s q negatable =
    Returns.bind (status-Judged t.urb.status h negatable) λ e₁ h₁ j₁.
      Returns.bind (count-Judged t.urb.error_count _ e₁ h₁ j₁) λ e₂ h₂ j₂.
        Returns.bind (context-Judged _ e₂ h₂ j₂) λ e₃ g j₃.
          let m = Raised-Moves e₃ j₃.0 in
          returns (record {
            moves = record {
              live = λ a. omega (arith, m.live a, ap (λ e. Error.owned? e a) q);
              same = m.same;
            };
            sound = record {
              quiet = λ p. cc;
              error_valid = Raised-IsValid? h g e₃ j₃.0;
              sized = s.sized;
            };
            at = refl;
            urb = refl;
            fd = refl;
            idle = refl;
            error = j₃.1;
          })
