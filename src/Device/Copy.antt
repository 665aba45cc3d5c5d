-- ===== src/Device/Copy.antt =====
-- Copying and freeing a device, and the strings in it.
use libusbp.Base.{ℕ, ◌+◌, ◌≡◌, refl, ◌∙◌, inl, inr, Option, Option-cases, none, some, arith}
use libusbp.Heap.{Heap, no_blocks, block, block?, M, pure, free, ◌>>◌}
use libusbp.Heap.Moves.{Moves, Owned, Short, Short-before, Gave, malloc-Gave, free-Moves}
use libusbp.Heap.Returns
use libusbp.Heap.Returns.{Returns, returns}
use libusbp.Error.{Text, ErrorPtr, error_no_memory, text_block}
use libusbp.Device.{
  Device, Copied, owned, owned?, string_copy, wrap_string, device_free, device_copy, copy_into,
  copy_behind_syspath, copy_serial_number, assemble_copy, clean_up,
}

-- A copy of the string in a block of its own; or, where a request for memory fails, the error for
-- that, and no block.
pub data CopiesText (t : Text) (h : Heap) : ErrorPtr × Option Text → Heap → Type 0 where
  copied :
      (c : Text) {g : Heap}
      → c.chars ≡ t.chars
      → Moves h no_blocks (block c.at) g
      → CopiesText t h (none, some c) g
  no_memory :
      {g : Heap}
      → Short h
      → Moves h no_blocks no_blocks g
      → CopiesText t h (some error_no_memory, none) g

wrap-CopiesText :
    (t : Text) (p : Option ℕ) {h : Heap} (g : Heap)
    → Gave h p
    → Moves h no_blocks (block? p) g
    → Returns (CopiesText t h) (wrap_string t p g)
unfolding wrap_string
wrap-CopiesText t none g s m = returns (no_memory s (record { live = m.live; same = m.same }))
wrap-CopiesText t (some at) g s m =
    returns (copied _ refl (record { live = m.live; same = m.same }))

-- `string_copy` gives the same characters in a new block; or, where a request for memory fails, the
-- error for that, and no block.
pub string_copy-CopiesText : (t : Text) (h : Heap) → Returns (CopiesText t h) (string_copy t h)
unfolding string_copy
string_copy-CopiesText t h = Returns.bind (malloc-Gave h) λ p g (s, m). wrap-CopiesText t p g s m

-- Three blocks are freed, and `k` goes on.
pub free_three :
    {B : Type 0} {Q : B → Heap → Type 0} (k : M B) (p q r : Option ℕ) (h : Heap)
    → Owned (λ a. block? p a + block? q a + block? r a) h
    → ((g : Heap)
        → Moves h (λ a. block? p a + block? q a + block? r a) no_blocks g
        → Returns Q (k g))
    → Returns Q ((free p >> (free q >> (free r >> k))) h)
free_three k p q r h o next = Returns.bind (free-Moves p h (λ a. omega (arith, o a))) λ _ h₁ m₁.
    Returns.bind (free-Moves q h₁ (λ a. omega (arith, o a, m₁.live a))) λ _ h₂ m₂.
      Returns.bind (free-Moves r h₂ (λ a. omega (arith, o a, m₁.live a, m₂.live a))) λ _ g m₃.
        next g (record {
          live = λ a. omega (arith, m₁.live a, m₂.live a, m₃.live a);
          same = m₃.same ∙ m₂.same ∙ m₁.same;
        })

-- `libusbp_device_free` gives back all that the device owns.
pub device_free-Moves :
    (d : Option Device) (h : Heap)
    → Owned (owned? d) h
    → Returns (λ _ g. Moves h (owned? d) no_blocks g) (device_free d h)
unfolding device_free
device_free-Moves none h o = returns (record { live = λ a. refl; same = refl })
device_free-Moves (some d) h o =
    free_three (pure tt) (text_block d.serial_number) (some d.syspath.at) (some d.at) h
      (λ a. omega (arith, o a))
      λ g m. returns (record { live = λ a. omega (arith, m.live a); same = m.same })

-- Both NULL, or both the same characters.
abbrev pub SameText : Option Text → Option Text → Type 0
SameText none none = Unit {0}
SameText none (some t) = ⊥
SameText (some c) none = ⊥
SameText (some c) (some t) = c.chars ≡ t.chars

-- The same texts and numbers in blocks of its own; or, where a request for memory fails, the error
-- for that, and no block.
pub data CopiesDevice (d : Device) (h : Heap) : Copied → Heap → Type 0 where
  copied :
      (c : Device) {g : Heap}
      → c.syspath.chars ≡ d.syspath.chars
      → SameText c.serial_number d.serial_number
      → c.product_id ≡ d.product_id
      → c.vendor_id ≡ d.vendor_id
      → c.revision ≡ d.revision
      → Moves h no_blocks (owned c) g
      → CopiesDevice d h (none, some c) g
  no_memory :
      {g : Heap}
      → Short h
      → Moves h no_blocks no_blocks g
      → CopiesDevice d h (some error_no_memory, none) g

clean_up-CopiesDevice :
    (d : Device) (p q r : Option ℕ) (h g : Heap)
    → Short h
    → Moves h no_blocks (λ a. block? p a + block? q a + block? r a) g
    → Returns (CopiesDevice d h) (clean_up (some error_no_memory) p q r g)
unfolding clean_up
clean_up-CopiesDevice d p q r h g s m =
    free_three (pure (some error_no_memory, none)) p q r g (λ a. omega (arith, m.live a))
      λ k f. returns (
        no_memory s
          (record { live = λ a. omega (arith, m.live a, f.live a); same = f.same ∙ m.same }))

assemble-CopiesDevice :
    (d : Device) (at : ℕ) (c s : Text) (x : ErrorPtr × Option Text) (h g k : Heap)
    → d.serial_number ≡ some s
    → c.chars ≡ d.syspath.chars
    → Moves h no_blocks (λ a. block at a + block c.at a) g
    → CopiesText s g x k
    → Returns (CopiesDevice d h) (assemble_copy d at c x k)
unfolding assemble_copy
assemble-CopiesDevice d at c s _ h g k e q m (copied u v w) = returns (
    copied _ q (simp e v) refl refl refl
      (record { live = λ a. omega (arith, m.live a, w.live a); same = w.same ∙ m.same }))
assemble-CopiesDevice d at c s _ h g k e q m (no_memory lack w) =
    clean_up-CopiesDevice d (some at) (some c.at) none h k (Short-before m lack)
      (record { live = λ a. omega (arith, m.live a, w.live a); same = w.same ∙ m.same })

serial-CopiesDevice :
    (d : Device) (at : ℕ) (c : Text) (h g : Heap)
    → c.chars ≡ d.syspath.chars
    → Moves h no_blocks (λ a. block at a + block c.at a) g
    → Returns (CopiesDevice d h) (copy_behind_syspath d at (none, some c) g)
unfolding copy_behind_syspath copy_serial_number assemble_copy
serial-CopiesDevice d at c h g q m = elim (Option-cases d.serial_number) [
  | inl e ↦ simp e (
      returns (
        copied _ q (simp e tt) refl refl refl
          (record { live = λ a. omega (arith, m.live a); same = m.same })))
  | inr (s, e) ↦ simp e (
      Returns.bind (string_copy-CopiesText s g)
        λ x k w. assemble-CopiesDevice d at c s x h g k e q m w)
]

syspath-CopiesDevice :
    (d : Device) (at : ℕ) (x : ErrorPtr × Option Text) (h g k : Heap)
    → Moves h no_blocks (block at) g
    → CopiesText d.syspath g x k
    → Returns (CopiesDevice d h) (copy_behind_syspath d at x k)
unfolding copy_behind_syspath
syspath-CopiesDevice d at _ h g k m (copied c q w) =
    serial-CopiesDevice d at c h k q
      (record { live = λ a. omega (arith, m.live a, w.live a); same = w.same ∙ m.same })
syspath-CopiesDevice d at _ h g k m (no_memory lack w) =
    clean_up-CopiesDevice d (some at) none none h k (Short-before m lack)
      (record { live = λ a. omega (arith, m.live a, w.live a); same = w.same ∙ m.same })

copy_into-CopiesDevice :
    (d : Device) (p : Option ℕ) (h g : Heap)
    → Gave h p
    → Moves h no_blocks (block? p) g
    → Returns (CopiesDevice d h) (copy_into d p g)
unfolding copy_into
copy_into-CopiesDevice d none h g s m =
    clean_up-CopiesDevice d none none none h g s
      (record { live = λ a. omega (arith, m.live a); same = m.same })
copy_into-CopiesDevice d (some at) h g s m =
    Returns.bind (string_copy-CopiesText d.syspath g)
      λ x k c. syspath-CopiesDevice d at x h g k (record { live = m.live; same = m.same }) c

-- `libusbp_device_copy` of a device gives one with the same syspath, serial number and IDs that
-- shares no block with it; or, where a request for memory fails, the error for that, and then
-- nothing stays allocated.
pub device_copy-CopiesDevice :
    (d : Device) (h : Heap) → Returns (CopiesDevice d h) (device_copy (some d) h)
unfolding device_copy
device_copy-CopiesDevice d h =
    Returns.bind (malloc-Gave h) λ p g (s, m). copy_into-CopiesDevice d p h g s m
