-- ===== src/Steps.antt =====
-- The shape of the library's functions that make an object in several steps: each step runs only
-- where there is no error yet, and at the end what is not passed on is freed.
use libusbp.Base.{
  ℕ, ◌+◌, ◌≡◌, refl, ap, ◌∙◌, ◌⊎◌, inl, inr, ◌∷◌, Option, none, some, List, [], arith,
}
use libusbp.Heap.{Heap, Blocks, M, pure, fault, no_blocks, block?, free, ◌>>◌}
use libusbp.Heap.Moves.{Moves, Owned, free-Moves}
use libusbp.Heap.Returns.{Returns, returns}
use libusbp.Heap.Returns
use libusbp.Error.{Error, ErrorPtr, chars_of, codes_of, error_memory, error_not_ready}
use libusbp.Error
use libusbp.Error.Ownership.{IsValid}
use libusbp.Error.Codes.{contains}
use libusbp.Error.Message.{joined}
use libusbp.Error.Chain.{Carried, Carries, HasMemoryCode}

-- After a step that makes an object: the end where it failed, and more where it did not. The end is
-- told what the step left in its output pointer.
unfoldable pub proceed :
    {A B : Type 0} → (Error → Option A → M B) → (A → M B) → ErrorPtr × Option A → M B
proceed stop more (some e, x) = stop e x
proceed stop more (none, none) = fault
proceed stop more (none, some a) = more a

-- After a step that makes nothing.
pub unless_error : {B : Type 0} → (Error → M B) → M B → ErrorPtr → M B
unless_error stop more (some e) = stop e
unless_error stop more none = more

-- From `h` to `g` the error was allocated.
abbrev pub Failed : Error → Heap → Heap → Type 0
Failed e h g = IsValid e × Moves h no_blocks (Error.owned e) g

-- An object that satisfies `P` and owns what was allocated; or an error that does, which satisfies
-- `Q`, and NULL.
abbrev pub Gets :
    {A : Type 0}
    → (Error → Type 0)
    → (A → Type 0)
    → (A → Blocks)
    → Heap
    → ErrorPtr × Option A
    → Heap
    → Type 0
Gets Q P owned h (none, none) g = ⊥
Gets Q P owned h (none, some a) g = P a × Moves h no_blocks (owned a) g
Gets Q P owned h (some e, x) g = (x ≡ none) × (Q e × Failed e h g)

-- Success, where `P` holds and the heap is as it was; or an error, where `Q` does.
abbrev pub Checks : Type 0 → (Error → Type 0) → Heap → ErrorPtr → Heap → Type 0
Checks P Q h none g = P × (g ≡ h)
Checks P Q h (some e) g = Q e × Failed e h g

module _ {A B : Type 0} {R : B → Heap → Type 0} where
  pub proceed-Returns :
      {Q : Error → Type 0} {P : A → Type 0} {owned : A → Blocks} (stop : Error → Option A → M B)
      (more : A → M B) {h : Heap} (x : ErrorPtr × Option A) (g : Heap)
      → Gets Q P owned h x g
      → ((e : Error) → Q e → Failed e h g → Returns R (stop e none g))
      → ((a : A) → P a → Moves h no_blocks (owned a) g → Returns R (more a g))
      → Returns R (proceed stop more x g)
  unfolding proceed
  proceed-Returns stop more (some e, x) g (n, (q, f)) on_error next = simp n (on_error e q f)
  proceed-Returns stop more (none, none) g m on_error next = absurd m
  proceed-Returns stop more (none, some a) g (p, m) on_error next = next a p m

module _ {B : Type 0} {R : B → Heap → Type 0} where
  pub unless_error-Returns :
      {P : Type 0} {Q : Error → Type 0} (stop : Error → M B) (more : M B) {h : Heap} (x : ErrorPtr)
      (g : Heap)
      → Checks P Q h x g
      → ((e : Error) → Q e → Failed e h g → Returns R (stop e g))
      → (P → g ≡ h → Returns R (more g))
      → Returns R (unless_error stop more x g)
  unfolding unless_error
  unless_error-Returns stop more (some e) g (q, f) on_error next = on_error e q f
  unless_error-Returns stop more none g (p, s) on_error next = next p s

pub failed-Gets :
    {A : Type 0} (Q : Error → Type 0) (P : A → Type 0) (owned : A → Blocks) (chars codes : List ℕ)
    (h g : Heap) (e : ErrorPtr) (k : Heap)
    → ((e : Error) → Q e)
    → Moves h no_blocks no_blocks g
    → Carries no_blocks chars codes g e k
    → Gets Q P owned h (e, none) k
failed-Gets Q P owned chars codes h g none k q m c = absurd c
failed-Gets Q P owned chars codes h g (some e) k q m c = (
  refl,
  (
    q e,
    (
      c.valid,
      record { live = λ a. omega (arith, m.live a, c.moves.live a); same = c.moves.same ∙ m.same },
    ),
  ),
)

pub failed-Checks :
    (P : Type 0) (Q : Error → Type 0) (chars codes : List ℕ) (h : Heap) (e : ErrorPtr) (g : Heap)
    → ((r : Error) → Carried no_blocks chars codes h r g → Q r)
    → Carries no_blocks chars codes h e g
    → Checks P Q h e g
failed-Checks P Q chars codes h none g q c = absurd c
failed-Checks P Q chars codes h (some e) g q c = (q e c, (c.valid, c.moves))

-- The code NOT_READY and no other, or the code for a lack of memory.
abbrev pub HasNotReady : Error → Type 0
HasNotReady e = (codes_of e.code_array ≡ error_not_ready ∷ []) ⊎ HasMemoryCode e

-- What an error says after a message was put in front of it.
abbrev pub SaysMore : (outer : List ℕ) → Error → Error → Type 0
SaysMore outer e r =
    ((chars_of r.message ≡ joined outer (chars_of e.message))
      × (codes_of r.code_array ≡ codes_of e.code_array))
    ⊎ HasMemoryCode r

pub HasNotReady-SaysMore :
    (outer : List ℕ) (e r : Error) → SaysMore outer e r → HasNotReady e → HasNotReady r
HasNotReady-SaysMore outer e r (inr lack) n = inr lack
HasNotReady-SaysMore outer e r (inl (c, q)) (inl n) = inl (q ∙ n)
HasNotReady-SaysMore outer e r (inl (c, q)) (inr lack) =
    inr (ap (λ cs. contains cs error_memory) q ∙ lack)

-- What is held from before a step until after it.
module _ {A : Type 0} (owned : A → Blocks) (held : Blocks) {h g : Heap}
    (m : Moves h no_blocks held g) where
  pub Gets-Owned :
      (Q : Error → Type 0) (P : A → Type 0) (x : ErrorPtr × Option A) (k : Heap)
      → Gets Q P owned g x k
      → Owned held k
  Gets-Owned Q P (none, none) k n = absurd n
  Gets-Owned Q P (none, some x) k (p, n) = λ a. omega (arith, m.live a, n.live a)
  Gets-Owned Q P (some e, x) k (q, (r, (v, n))) = λ a. omega (arith, m.live a, n.live a)

  pub Gets-around :
      {Q Q' : Error → Type 0} {P P' : A → Type 0} {k j : Heap} (x : ErrorPtr × Option A)
      → ((e : Error) → Q e → Q' e)
      → ((a : A) → P a → P' a)
      → Gets Q P owned g x k
      → Moves k held no_blocks j
      → Gets Q' P' owned h x j
  Gets-around (none, none) to to' n f = absurd n
  Gets-around (none, some x) to to' (p, n) f = (
    to' x p,
    record {
      live = λ a. omega (arith, m.live a, n.live a, f.live a);
      same = f.same ∙ n.same ∙ m.same;
    },
  )
  Gets-around (some e, x) to to' (q, (r, (v, n))) f = (
    q,
    (
      to e r,
      (
        v,
        record {
          live = λ a. omega (arith, m.live a, n.live a, f.live a);
          same = f.same ∙ n.same ∙ m.same;
        },
      ),
    ),
  )

-- A command that frees these blocks, and then returns `b`.
abbrev pub Ends : {B : Type 0} → Blocks → M B → B → Type 0
Ends held k b =
    (h : Heap) → Owned held h → Returns (λ r g. (r ≡ b) × Moves h held no_blocks g) (k h)

module _ {B : Type 0} where
  pub pure-Ends : (b : B) → Ends no_blocks (pure b) b
  pure-Ends b h o = returns (refl, record { live = λ a. refl; same = refl })

  pub then-Ends :
      (c : M (Unit {0})) (own held : Blocks) (k : M B) (b : B)
      → ((h : Heap) → Owned own h → Returns (λ _ g. Moves h own no_blocks g) (c h))
      → Ends held k b
      → Ends (λ a. own a + held a) (c >> k) b
  then-Ends c own held k b frees ends h o =
      Returns.bind (frees h (λ a. omega (arith, o a))) λ _ g m.
        Returns.mono (ends g (λ a. omega (arith, o a, m.live a))) λ r j (q, n).
          (q, record { live = λ a. omega (arith, m.live a, n.live a); same = n.same ∙ m.same })

  pub free-Ends :
      (p : Option ℕ) (held : Blocks) (k : M B) (b : B)
      → Ends held k b
      → Ends (λ a. block? p a + held a) (free p >> k) b
  free-Ends p held k b ends = then-Ends (free p) (block? p) held k b (λ h o. free-Moves p h o) ends

  -- The same blocks, counted in another way.
  pub same-Ends :
      (held held' : Blocks) (k : M B) (b : B)
      → ((a : ℕ) → held a ≡ held' a)
      → Ends held k b
      → Ends held' k b
  same-Ends held held' k b same ends h o =
      Returns.mono (ends h (λ a. omega (arith, o a, same a)))
        λ r g (q, m). (q, record { live = λ a. omega (arith, m.live a, same a); same = m.same })

-- Two blocks are freed, and `k` goes on.
pub free_two :
    {B : Type 0} {R : B → Heap → Type 0} (k : M B) (p q : Option ℕ) (h : Heap)
    → Owned (λ a. block? p a + block? q a) h
    → ((g : Heap) → Moves h (λ a. block? p a + block? q a) no_blocks g → Returns R (k g))
    → Returns R ((free p >> (free q >> k)) h)
free_two k p q h o next = Returns.bind (free-Moves p h (λ a. omega (arith, o a))) λ _ i f.
    Returns.bind (free-Moves q i (λ a. omega (arith, o a, f.live a))) λ _ j g.
      next j (record { live = λ a. omega (arith, f.live a, g.live a); same = g.same ∙ f.same })
