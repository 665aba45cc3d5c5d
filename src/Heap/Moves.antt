-- ===== src/Heap/Moves.antt =====
-- What each heap operation does to the allocated blocks.
use libusbp.Base.{
  ℕ, ◌+◌, ◌≤◌, ◌≡◌, refl, sym, ap, ◌∙◌, true, false, inl, inr, Bool-cases, Option, none, some,
  arith, ◌==◌,
}
use libusbp.Heap.Defs.{Heap, Blocks, no_blocks, block, block?, malloc, free, replace, realloc}
use libusbp.Heap.Returns
use libusbp.Heap.Returns.{Returns, returns}

-- From `h` to `h'` the blocks `old` were freed and the blocks `new` allocated, and no others.
pub record Moves (h : Heap) (old new : Blocks) (h' : Heap) : Type 0 where
  pub live : (a : ℕ) → h'.live a + old a ≡ h.live a + new a
  pub same : h'.surroundings ≡ h.surroundings

abbrev pub Owned : Blocks → Heap → Type 0
Owned old h = (a : ℕ) → old a ≤ h.live a

-- No request for memory fails.
abbrev pub Plenty : Heap → Type 0
Plenty h = (n : ℕ) → h.grants n ≡ true

pub malloc-Moves : (h : Heap) → Returns (λ p g. Moves h no_blocks (block? p) g) (malloc h)
unfolding malloc
malloc-Moves h = elim (Bool-cases (h.grants h.next)) [
  | inl e ↦ rw e (returns (record { live = λ a. omega arith; same = refl }))
  | inr e ↦ rw e (returns (record { live = λ a. omega arith; same = refl }))
]

pub malloc-granted :
    (h : Heap)
    → h.grants h.next ≡ true
    → Returns (λ p g. (p ≡ some h.next) × Moves h no_blocks (block h.next) g) (malloc h)
unfolding malloc
malloc-granted h e = rw e (returns (refl, record { live = λ a. omega arith; same = refl }))

-- Some request for memory fails.
abbrev pub Short : Heap → Type 0
Short h = (n : ℕ) × (h.grants n ≡ false)

-- What is short later was short before.
pub Short-before : {h g : Heap} {old new : Blocks} → Moves h old new g → Short g → Short h
Short-before m (n, e) = (n, ap (λ s. s.grants n) (sym m.same) ∙ e)

abbrev pub Gave : Heap → Option ℕ → Type 0
Gave h none = Short h
Gave h (some p) = Unit {0}

pub malloc-Gave : (h : Heap) → Returns (λ p g. Gave h p × Moves h no_blocks (block? p) g) (malloc h)
unfolding malloc
malloc-Gave h = elim (Bool-cases (h.grants h.next)) [
  | inl e ↦ rw e (returns (tt, record { live = λ a. omega arith; same = refl }))
  | inr e ↦ rw e (returns ((h.next, e), record { live = λ a. omega arith; same = refl }))
]

pub free-Moves :
    (p : Option ℕ) (h : Heap)
    → Owned (block? p) h
    → Returns (λ _ g. Moves h (block? p) no_blocks g) (free p h)
unfolding free
free-Moves none h o = returns (record { live = λ a. omega arith; same = refl })
free-Moves (some p) h o = elim (Bool-cases (h.live p == 0)) [
  | inl e ↦ absurd (ground (arith, o p))
  | inr e ↦ rw e (returns (record { live = λ a. ground (arith, o a); same = refl }))
]

-- What `realloc` leaves of the block that it was given, and of the one that it returns.
abbrev pub kept : Option ℕ → Option ℕ → Blocks
kept old none = block? old
kept old (some p) = block p

replace-Gave :
    (p q : Option ℕ) {h : Heap} (g : Heap)
    → Owned (block? p) h
    → Gave h q
    → Moves h no_blocks (block? q) g
    → Returns (λ r k. Gave h r × Moves h (block? p) (kept p r) k) (replace p q g)
unfolding replace
replace-Gave p none g o lack m =
    returns (lack, record { live = λ a. omega (arith, m.live a); same = m.same })
replace-Gave p (some q) g o gave m =
    Returns.bind (free-Moves p g (λ a. omega (arith, m.live a, o a))) λ _ k f.
      returns (tt, record { live = λ a. omega (arith, m.live a, f.live a); same = f.same ∙ m.same })

-- The old block stays only where a request for memory fails.
pub realloc-Gave :
    (p : Option ℕ) (h : Heap)
    → Owned (block? p) h
    → Returns (λ q g. Gave h q × Moves h (block? p) (kept p q) g) (realloc p h)
unfolding realloc
realloc-Gave p h o = Returns.bind (malloc-Gave h) λ q g (gave, m). replace-Gave p q g o gave m

pub realloc-Moves :
    (p : Option ℕ) (h : Heap)
    → Owned (block? p) h
    → Returns (λ q g. Moves h (block? p) (kept p q) g) (realloc p h)
realloc-Moves p h o = Returns.mono (realloc-Gave p h o) λ q g (gave, m). m

pub Moves-trans :
    {h g k : Heap} {old mid new : Blocks}
    → Moves h old mid g
    → Moves g mid new k
    → Moves h old new k
Moves-trans m n = record { live = λ a. omega (arith, m.live a, n.live a); same = n.same ∙ m.same }

-- Where the request for memory fails the old block stays.
pub realloc-fails :
    (p : Option ℕ) (h : Heap)
    → h.grants h.next ≡ false
    → Returns (λ q g. (q ≡ none) × Moves h no_blocks no_blocks g) (realloc p h)
unfolding realloc malloc replace
realloc-fails p h z = rw z (returns (refl, record { live = λ a. refl; same = refl }))
