-- ===== src/Device/Plenty.antt =====
-- Copies of strings and devices where every request for memory from now on succeeds.
use libusbp.Base.{ℕ, ◌≤◌, ◌≡◌, refl, sym, subst, true, Option, none, some, arith}
use libusbp.Heap.{Heap, malloc}
use libusbp.Heap.Returns
use libusbp.Heap.Returns.{Returns, returns}
use libusbp.Error.{Text, ErrorPtr}
use libusbp.Device.{
  Device, string_copy, wrap_string, device_copy, copy_into, copy_behind_syspath, copy_serial_number,
  assemble_copy,
}

-- The requests that are still to come succeed.
abbrev pub Onwards : Heap → Type 0
Onwards h = (n : ℕ) → h.next ≤ n → h.grants n ≡ true

-- No error, an object, and the requests to come still succeed.
abbrev pub Succeeds : {A : Type 0} → (A → Type 0) → ErrorPtr × Option A → Heap → Type 0
Succeeds P (none, some a) g = P a × Onwards g
Succeeds P _ g = ⊥

pub malloc-Onwards :
    (h : Heap) → Onwards h → Returns (λ p g. (p ≡ some h.next) × Onwards g) (malloc h)
unfolding malloc
malloc-Onwards h o = rw (o h.next (omega arith)) (returns (refl, (λ n b. o n (omega (arith, b)))))

pub string_copy-Succeeds :
    (t : Text) (h : Heap)
    → Onwards h
    → Returns (Succeeds (λ c. c.chars ≡ t.chars)) (string_copy t h)
unfolding string_copy wrap_string
string_copy-Succeeds t h o = Returns.bind (malloc-Onwards h o) λ p g (q, o').
    subst (λ p. Returns (Succeeds (λ c. c.chars ≡ t.chars)) (wrap_string t p g)) (sym q)
      (returns {result = (none, some (record { at = h.next; chars = t.chars }))} (refl, o'))

copy_serial-succeeds :
    (t : Option Text) (h : Heap)
    → Onwards h
    → Returns (λ x g. (x.0 ≡ none) × Onwards g) (copy_serial_number t h)
unfolding copy_serial_number
copy_serial-succeeds none h o = returns {result = (none, none)} (refl, o)
copy_serial-succeeds (some t) h o = Returns.mono (string_copy-Succeeds t h o) λ x g s. go x g s
  where
    go :
        (x : ErrorPtr × Option Text) (g : Heap)
        → Succeeds (λ c. c.chars ≡ t.chars) x g
        → (x.0 ≡ none) × Onwards g
    go (some e, c) g s = absurd s
    go (none, none) g s = absurd s
    go (none, some c) g (q, o) = (refl, o)

assemble-Succeeds :
    (d : Device) (at : ℕ) (c : Text) (e : ErrorPtr) (t : Option Text) (g : Heap)
    → e ≡ none
    → Onwards g
    → Returns (Succeeds (λ _. Unit {0})) (assemble_copy d at c (e, t) g)
unfolding assemble_copy
assemble-Succeeds d at c (some e) t g q o = absurd cc
assemble-Succeeds d at c none t g q o =
    returns {result = (none, some (record d { at = at; syspath = c; serial_number = t }))} (tt, o)

syspath-Succeeds :
    (d : Device) (at : ℕ) (x : ErrorPtr × Option Text) (g : Heap)
    → Succeeds (λ c. c.chars ≡ d.syspath.chars) x g
    → Returns (Succeeds (λ _. Unit {0})) (copy_behind_syspath d at x g)
unfolding copy_behind_syspath
syspath-Succeeds d at (some e, c) g s = absurd s
syspath-Succeeds d at (none, none) g s = absurd s
syspath-Succeeds d at (none, some c) g (q, o) =
    Returns.bind (copy_serial-succeeds d.serial_number g o)
      λ (e, t) k (r, o'). assemble-Succeeds d at c e t k r o'

-- `libusbp_device_copy` of a device succeeds where no request for memory fails.
pub device_copy-Succeeds :
    (d : Device) (h : Heap)
    → Onwards h
    → Returns (Succeeds (λ _. Unit {0})) (device_copy (some d) h)
unfolding device_copy copy_into
device_copy-Succeeds d h o = Returns.bind (malloc-Onwards h o) λ p g (q, o').
    subst (λ p. Returns (Succeeds (λ _. Unit {0})) (copy_into d p g)) (sym q)
      (Returns.bind (string_copy-Succeeds d.syspath g o') λ x k s. syspath-Succeeds d h.next x k s)
