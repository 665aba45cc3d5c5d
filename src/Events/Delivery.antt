-- ===== src/Events/Delivery.antt =====
-- What handling the completed request blocks makes of the transfers and of their pipe.
use libusbp.Base.{
  ℕ, ◌+◌, ◌≡◌, ◌≢◌, refl, ap, ◌∙◌, sym, subst, ◌⊎◌, inl, inr, true, false, false, none, some, List,
  [], ◌∷◌, arith, length, get_elem?, set, length-set, get_elem?-set_cases, get_elem?-set_ne,
  some-injective, is_some,
}
use libusbp.Heap.{Heap}
use libusbp.Heap.Moves.{Moves}
use libusbp.Heap.Returns
use libusbp.Heap.Returns.{Returns, returns}
use libusbp.Error.{ErrorPtr, Error}
use libusbp.Error
use libusbp.Error.Ownership.{IsValid?}
use libusbp.Error.Chain.{error_create-Carries}
use libusbp.LinuxError.{is_int_min}
use libusbp.Transfer.{Transfer, Completion, written}
use libusbp.Transfer.Ownership.{IsSound}
use libusbp.Transfer.Completing.{
  handle_completion-Completed, Carries-Raised, Raised, Raised-Moves, Raised-IsValid?,
}
use libusbp.Pipe.Blocks.{owned_all, owned_all-set}
use libusbp.Events.{Reaped, Reap, reaped, failed, Handled, refuse, complete_transfer}

abbrev pub IsPendingAt : List Transfer → ℕ → Type 0
IsPendingAt ts i = (t : Transfer) × ((get_elem? ts i ≡ some t) × (t.pending ≡ true))

abbrev pub Absent : ℕ → List Reap → Type 0
Absent i [] = Unit {0}
Absent i (failed errno ∷ rs) = Absent i rs
Absent i (reaped r ∷ rs) = (r.usercontext ≢ some i) × Absent i rs

-- What the kernel promises: it gives back only requests that are pending, each of them once, with
-- the user context that it was submitted with and a status that is not the smallest `int`, since a
-- status is a negated error number or 0, and in the end answers with an error number.
abbrev pub Deliverable : List Transfer → List Reap → Type 0
Deliverable ts [] = ⊥
Deliverable ts (failed errno ∷ rs) = Unit {0}
Deliverable ts (reaped r ∷ rs) =
    (i : ℕ) × ((r.usercontext ≡ some i)
      × ((is_int_min r.completion.status ≡ false)
          × (IsPendingAt ts i × (Absent i rs × Deliverable ts rs))))

-- The transfers that were given back up to the first failure are no longer pending.
abbrev pub Delivered : List Transfer → List Reap → Type 0
Delivered ts [] = Unit {0}
Delivered ts (failed errno ∷ rs) = Unit {0}
Delivered ts (reaped r ∷ rs) =
    ((i : ℕ) (t : Transfer) → r.usercontext ≡ some i → get_elem? ts i ≡ some t → t.pending ≡ false)
    × Delivered ts rs

pub record Reaping (ts : List Transfer) (rs : List Reap) (h : Heap) (e : ErrorPtr)
    (ts' : List Transfer) (g : Heap) : Type 0 where
  pub moves : Moves h (owned_all ts) (λ a. owned_all ts' a + Error.owned? e a) g
  pub error_valid : IsValid? e
  pub same_length : length ts' ≡ length ts
  pub sound : (i : ℕ) (t : Transfer) → get_elem? ts' i ≡ some t → IsSound t
  pub only :
      (i : ℕ) (t : Transfer)
      → get_elem? ts' i ≡ some t
      → (get_elem? ts i ≡ some t) ⊎ (t.pending ≡ false)
  pub delivered : e ≡ none → Delivered ts' rs

abbrev pub Sound : List Transfer → Type 0
Sound ts = (i : ℕ) (t : Transfer) → get_elem? ts i ≡ some t → IsSound t

pub Deliverable-set :
    (ts : List Transfer) (i : ℕ) (t : Transfer) (rs : List Reap)
    → Absent i rs
    → Deliverable ts rs
    → Deliverable (set ts i t) rs
Deliverable-set ts i t [] n d = absurd d
Deliverable-set ts i t (failed errno ∷ rs) n d = tt
Deliverable-set ts i t (reaped r ∷ rs) n (j, (u, (s, ((v, (e, p)), (a, d))))) = (
  j,
  (
    u,
    (
      s,
      (
        (v, (get_elem?-set_ne ts i j t (λ q. n.0 (u ∙ ap some (sym q))) ∙ e, p)),
        (a, Deliverable-set ts i t rs n.1 d),
      ),
    ),
  ),
)

-- Nothing but an error was made.
pub failed-Reaping :
    (ts : List Transfer) (rs : List Reap) (h : Heap) (e : ErrorPtr) (g : Heap)
    → Sound ts
    → Raised h e g
    → (e ≡ none → Delivered ts rs)
    → Reaping ts rs h e ts g
failed-Reaping ts rs h e g s r d =
    let m = Raised-Moves e r in
    record {
      moves = record { live = λ a. omega (arith, m.live a); same = m.same };
      error_valid = Raised-IsValid? h g e r;
      same_length = refl;
      sound = s;
      only = λ i t q. inl q;
      delivered = d;
    }

-- The transfer in slot `i` was completed, and no other was touched.
pub record CompletedAt (ts : List Transfer) (i : ℕ) (h : Heap) (ts' : List Transfer) (g : Heap)
    : Type 0 where
  pub now : Transfer
  pub set_now : ts' ≡ set ts i now
  pub now_sound : IsSound now
  pub idle : now.pending ≡ false
  pub moves : Moves h (owned_all ts) (owned_all ts') g

abbrev pub CompletesAt : List Transfer → ℕ → Heap → Handled → Heap → Type 0
CompletesAt ts i h (e, ts') g = (e ≡ none) × CompletedAt ts i h ts' g

pub complete-CompletesAt :
    (c : Completion) (i : ℕ) (ts : List Transfer) (h : Heap)
    → Sound ts
    → is_int_min c.status ≡ false
    → IsPendingAt ts i
    → Returns (CompletesAt ts i h) (complete_transfer c i ts h)
unfolding complete_transfer
complete-CompletesAt c i ts h s negatable (t, (e, p)) =
    let st = s i t e in
    simp e (
      Returns.bind
        (handle_completion-Completed (written c t) h
          (record { quiet = st.quiet; error_valid = st.error_valid; sized = st.sized }) (st.quiet p)
          negatable)
        λ t' g m. returns (
          refl,
          record {
            now = t';
            set_now = refl;
            now_sound = m.sound;
            idle = m.idle;
            moves = record {
              live = λ a. omega (arith, m.moves.live a, owned_all-set ts i t t' a e);
              same = m.moves.same;
            };
          },
        ))

pub completed-Sound :
    {ts : List Transfer} {i : ℕ} {h g : Heap} {ts' : List Transfer}
    → Sound ts
    → CompletedAt ts i h ts' g
    → Sound ts'
completed-Sound {ts} {i} s c j u q =
    elim (get_elem?-set_cases ts i j c.now (ap (λ l. get_elem? l j) (sym c.set_now) ∙ q)) [
      | inl (_, v) ↦ subst IsSound v c.now_sound
      | inr (_, v) ↦ s j u v
    ]

completed-only :
    {ts : List Transfer} {i : ℕ} {h g : Heap} {ts' : List Transfer}
    → CompletedAt ts i h ts' g
    → (j : ℕ) (u : Transfer) → get_elem? ts' j ≡ some u
    → ((get_elem? ts j ≡ some u) × (i ≢ j)) ⊎ (u.pending ≡ false)
completed-only {ts} {i} c j u q =
    elim (get_elem?-set_cases ts i j c.now (ap (λ l. get_elem? l j) (sym c.set_now) ∙ q)) [
      | inl (_, v) ↦ inr (subst (λ x. x.pending ≡ false) v c.idle)
      | inr (n, v) ↦ inl (v, n)
    ]

pub Reaping-after :
    {ts : List Transfer} {r : Reaped} {rs : List Reap} {h k g : Heap} {ts' ts'' : List Transfer}
    {e : ErrorPtr} (i : ℕ)
    → r.usercontext ≡ some i
    → CompletedAt ts i h ts' k
    → Reaping ts' rs k e ts'' g
    → Reaping ts (reaped r ∷ rs) h e ts'' g
Reaping-after {ts} i u c m = record {
  moves = record {
    live = λ a. omega (arith, c.moves.live a, m.moves.live a);
    same = m.moves.same ∙ c.moves.same;
  };
  error_valid = m.error_valid;
  same_length = m.same_length ∙ ap length c.set_now ∙ length-set ts i c.now;
  sound = m.sound;
  only = λ j t q. elim (m.only j t q) [
    | inl before ↦ elim (completed-only c j t before) [ inl (b, _) ↦ inl b | inr idle ↦ inr idle ]
    | inr idle ↦ inr idle
  ];
  delivered = λ none. (
    λ j t v q. elim (m.only j t q) [
      | inl before ↦ elim (completed-only c j t before) [
        | inl (_, n) ↦ absurd (n (some-injective _ _ (sym u ∙ v)))
        | inr idle ↦ idle
      ]
      | inr idle ↦ idle
    ],
    m.delivered none,
  );
}

abbrev pub ReapingOf : List Transfer → List Reap → Heap → Handled → Heap → Type 0
ReapingOf ts rs h (e, ts') g = Reaping ts rs h e ts' g

pub refused-ReapingOf :
    (message : List ℕ) (ts : List Transfer) (rs : List Reap) (h : Heap)
    → Sound ts
    → Returns (λ r g. (is_some r.0 ≡ true) × ReapingOf ts rs h r g) (refuse message ts h)
refused-ReapingOf message ts rs h s = Returns.bind (error_create-Carries message h) λ e g c.
    let r = Carries-Raised _ _ h g e c in
    returns (r.1, failed-Reaping ts rs h e g s r.0 (λ n. cc (r.1, n)))
