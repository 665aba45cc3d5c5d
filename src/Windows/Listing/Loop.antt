-- ===== src/Windows/Listing/Loop.antt =====
-- The loop over the devices that SetupAPI enumerates.
use libusbp.Base.{
  ℕ, ◌+◌, ◌≡◌, refl, sym, ◌∙◌, inl, inr, Bool-cases, Option, none, some, List, [], ◌∷◌, ◌++◌,
  append-nil, arith, length, length-append, ◌==◌,
}
use libusbp.Heap.{Heap, Blocks, M, pure, no_blocks}
use libusbp.Heap.Moves.{Moves, Owned, Short}
use libusbp.Heap.Returns
use libusbp.Heap.Returns.{Returns, returns}
use libusbp.Error.{Error, ErrorPtr, error_no_memory}
use libusbp.Error
use libusbp.Error.Ownership.{IsValid, error_free-Moves}
use libusbp.Error.Chain.{Carries}
use libusbp.Lists.{ListOf}
use libusbp.Lists
use libusbp.Lists.Ownership.{Appends, appended, no_memory, append-Appends}
use libusbp.Windows.ErrorCode
use libusbp.Windows.Errors.Meaning.{error_create_winapi-Carries}
use libusbp.Windows.Device
use libusbp.Windows.Device.{Entry, Device, Created}
use libusbp.Windows.Device.Made.{Describes, IsUsable, Creates, create_device-Creates}
use libusbp.Windows.Listing.{
  Enumeration, drop_error, try_create_device, Added, append_created, while_no_error, list_loop,
}
use libusbp.Lists.Selects.{done, take, skip, Extended, Extended-then}

abbrev pub owned : ListOf Device → Blocks
owned = Lists.owned Device.owned

-- A device of the entry; or none, where none can be made of it or a request for memory fails.
abbrev pub Tries : Entry → Heap → Option Device → Heap → Type 0
Tries entry h none g = (IsUsable entry → Short h) × Moves h no_blocks no_blocks g
Tries entry h (some d) g = Describes entry d × Moves h no_blocks (Device.owned d) g

drop_error-Tries :
    (entry : Entry) (h : Heap) (x : Created) (g : Heap)
    → Creates entry h x g
    → Returns (Tries entry h) (drop_error x g)
unfolding drop_error
drop_error-Tries entry h (none, none) g c = absurd c
drop_error-Tries entry h (none, some d) g c = returns c
drop_error-Tries entry h (some e, x) g (q, (lack, (v, m))) = simp q (
    Returns.bind (error_free-Moves (some e) g (λ a. omega (arith, m.live a))) λ _ k f.
      returns {result = none}
        (lack, record { live = λ a. omega (arith, m.live a, f.live a); same = f.same ∙ m.same }))

try_create_device-Tries :
    (entry : Entry) (h : Heap)
    → length entry.contents ≡ entry.size
    → Returns (Tries entry h) (try_create_device entry h)
unfolding try_create_device
try_create_device-Tries entry h l =
    Returns.bind (create_device-Creates entry h l) λ x g c. drop_error-Tries entry h x g c

-- A device that is lost, only where memory runs out.
abbrev pub Loses : Error → Option Device → Type 0
Loses e none = Unit {0}
Loses e (some d) = e ≡ error_no_memory

-- The list with the devices of the entries behind the others; or an error, and a list of the blocks
-- that were allocated but for the lost device.
abbrev pub Extends : List Entry → ListOf Device → Heap → Added → Heap → Type 0
Extends entries l h (none, l', count) g =
    Extended Describes IsUsable Device.owned entries l h l' count g
Extends entries l h (some e, l', count) g =
    (lost : Option Device) × Loses e lost
    × IsValid e
    × Moves h (owned l) (λ a. owned l' a + (Error.owned e a + Device.owned? lost a)) g

Extends-then :
    (entries entries' : List Entry) (l l' : ListOf Device) (count : ℕ) (h g : Heap) (x : Added)
    (k : Heap)
    → Extends entries l h (none, l', count) g
    → Extends entries' l' g x k
    → Extends (entries ++ entries') l h x k
Extends-then entries entries' l l' count h g (none, l'', count') k n n' =
    Extended-then Device.owned entries entries' l l' l'' n n'
Extends-then entries entries' l l' count h g (some e, l'', count') k (c, (n, m)) (lost, p, v, m') =
    (lost, p, v, record { live = λ a. omega (arith, m.live a, m'.live a); same = m'.same ∙ m.same })

-- Where the list is not extended the device is lost.
Appends-Extends :
    (entry : Entry) (l : ListOf Device) (count : ℕ) (h : Heap) (d : Device) (g : Heap) (x : Added)
    (k : Heap)
    → count ≡ length l.devices
    → Describes entry d
    → Moves h no_blocks (Device.owned d) g
    → Appends Device.owned l count d g x k
    → Extends (entry ∷ []) l h x k
Appends-Extends entry l count h d g _ k c t m (appended at n) = (
  omega (arith, c, length-append l.devices (d ∷ [])),
  (
    (d ∷ [], refl, take t done),
    record { live = λ a. omega (arith, m.live a, n.live a); same = n.same ∙ m.same },
  ),
)
Appends-Extends entry l count h d g _ k c t m (no_memory lack n) = (
  some d,
  refl,
  record { counted = refl; has_message = refl },
  record { live = λ a. omega (arith, m.live a, n.live a); same = n.same ∙ m.same },
)

append_created-Extends :
    (entry : Entry) (l : ListOf Device) (count : ℕ) (h : Heap) (d : Option Device) (g : Heap)
    → count ≡ length l.devices
    → Owned (owned l) h
    → Tries entry h d g
    → Returns (Extends (entry ∷ []) l h) (append_created l count d g)
unfolding append_created
append_created-Extends entry l count h none g c o (lack, m) = returns (
  c,
  (
    ([], sym (append-nil l.devices), skip lack done),
    record { live = λ a. omega (arith, m.live a); same = m.same },
  ),
)
append_created-Extends entry l count h (some d) g c o (t, m) =
    Returns.mono (append-Appends Device.owned l count d g c (λ a. omega (arith, o a, m.live a)))
      λ x k n. Appends-Extends entry l count h d g x k c t m n

end_error-Extends :
    (chars codes : List ℕ) (l : ListOf Device) (count : ℕ) (h : Heap) (e : ErrorPtr) (g : Heap)
    → Carries no_blocks chars codes h e g
    → Returns (Extends [] l h) (pure (e, l, count) g)
end_error-Extends chars codes l count h none g c = absurd c
end_error-Extends chars codes l count h (some e) g c =
    returns
      (none, tt, c.valid, record { live = λ a. omega (arith, c.moves.live a); same = c.moves.same })

-- For every entry SetupAPI gives as many bytes as it says.
abbrev pub AllSized : List Entry → Type 0
AllSized [] = Unit {0}
AllSized (entry ∷ entries) = (length entry.contents ≡ entry.size) × AllSized entries

while_no_error-Extends :
    (entry : Entry) (entries : List Entry) (more : ListOf Device → ℕ → M Added) (l : ListOf Device)
    (h : Heap) (x : Added) (g : Heap)
    → Owned (owned l) h
    → Extends (entry ∷ []) l h x g
    → ((l' : ListOf Device) (count : ℕ) (k : Heap)
        → count ≡ length l'.devices
        → Owned (owned l') k
        → Returns (Extends entries l' k) (more l' count k))
    → Returns (Extends (entry ∷ entries) l h) (while_no_error more x g)
unfolding while_no_error
while_no_error-Extends entry entries more l h (some e, l', count) g o (lost, p, v, m) next =
    returns (lost, p, v, m)
while_no_error-Extends entry entries more l h (none, l', count) g o n next =
    Returns.mono (next l' count g n.0 (λ a. omega (arith, o a, n.1.1.live a)))
      λ x k n'. Extends-then (entry ∷ []) entries l l' count h g x k n n'

pub list_loop-Extends :
    (enumeration : Enumeration) (entries : List Entry) (l : ListOf Device) (count : ℕ) (h : Heap)
    → AllSized entries
    → count ≡ length l.devices
    → Owned (owned l) h
    → Returns (Extends entries l h) (list_loop enumeration entries l count h)
unfolding list_loop
list_loop-Extends enumeration [] l count h s c o =
    elim (Bool-cases (enumeration.end_error == ErrorCode.no_more_items)) [
      | inl z ↦ simp z (
          returns
            (c, (([], sym (append-nil l.devices), done), record { live = λ a. refl; same = refl })))
      | inr z ↦ simp z (
          Returns.bind
            (error_create_winapi-Carries enumeration.format_message enumeration.end_error _ h)
            λ e g m. end_error-Extends _ _ l count h e g m)
    ]
list_loop-Extends enumeration (entry ∷ entries) l count h (s, ss) c o =
    Returns.bind (try_create_device-Tries entry h s) λ d g t.
      Returns.bind (append_created-Extends entry l count h d g c o t) λ x k n.
        while_no_error-Extends entry entries (list_loop enumeration entries) l h x k o n
          λ l' count' j c' o'. list_loop-Extends enumeration entries l' count' j ss c' o'
