-- ===== src/Heap/Defs.antt =====
-- The heap, its operations, and commands over it.
use libusbp.Base.{List, ℤ, ℕ, ◌+◌, ◌-◌, Bool, Option, none, some, ◌==◌, if◌then◌else◌}

-- What the process cannot choose: `grants n` says whether the n-th request for memory succeeds, and
-- `strerror` is what `strerror_r` prints for an error number in the current locale, if it succeeds.
pub record Surroundings : Type 0 where
  pub grants : ℕ → Bool
  pub strerror : ℤ → Option (List ℕ)

-- `live a` is 1 where the block `a` is allocated and 0 elsewhere, and `next` counts the requests
-- for memory and is the next fresh address.
pub record Heap : Type 0 where
  pub next : ℕ
  pub live : ℕ → ℕ
  pub surroundings : Surroundings
  pub open surroundings use *

-- How often each block stands in some collection of owned blocks.
abbrev pub Blocks : Type 0
Blocks = ℕ → ℕ

abbrev pub no_blocks : Blocks
no_blocks a = 0

abbrev pub block : ℕ → Blocks
block p a = if a == p then 1 else 0

abbrev pub block? : Option ℕ → Blocks
block? none a = 0
block? (some p) a = block p a

-- `none` is undefined behaviour: a failed assertion, a null dereference, a double free.
abbrev pub M : Type 0 → Type 0
M A = Heap → Option (A × Heap)

abbrev pub pure : {A : Type 0} → A → M A
pure a h = some (a, h)

abbrev pub fault : {A : Type 0} → M A
fault h = none

abbrev pub and_then : {A B : Type 0} → Option (A × Heap) → (A → M B) → Option (B × Heap)
and_then none f = none
and_then (some (a, h)) f = f a h

infixl 5 ◌>>=◌ ◌>>◌
abbrev pub ◌>>=◌ : {A B : Type 0} → M A → (A → M B) → M B
◌>>=◌ m f h = and_then (m h) f

abbrev pub ◌>>◌ : {B : Type 0} → M (Unit {0}) → M B → M B
m >> k = m >>= λ _. k

-- `malloc`, `calloc` and `strdup`: a fresh block or NULL.
unfoldable pub malloc : M (Option ℕ)
malloc h =
    if h.grants h.next
    then some (some h.next, record h { next = h.next + 1; live = λ a. h.live a + block h.next a })
    else some (none, record h { next = h.next + 1 })

-- `free(NULL)` does nothing, and freeing what is not allocated is undefined.
unfoldable pub free : Option ℕ → M (Unit {0})
free none h = some (tt, h)
free (some p) h =
    if h.live p == 0 then none else some (tt, record h { live = λ a. h.live a - block p a })

unfoldable pub replace : Option ℕ → Option ℕ → M (Option ℕ)
unfolding free
replace old none = pure none
replace old (some p) = do free old; pure (some p)

-- `realloc` moves the contents to a fresh block and frees the old one, or fails and leaves it.
unfoldable pub realloc : Option ℕ → M (Option ℕ)
unfolding malloc replace
realloc p = malloc >>= replace p
