-- ===== src/Handle/Opening/Faults.antt =====
-- Opening a handle where `calloc` fails.
use libusbp.Base.{
  ℕ, ◌+◌, ◌≡◌, refl, sym, ap, ◌∙◌, false, true, true≢false, ℤ, Option, none, some, arith, ◌<◌,
}
use libusbp.Heap.{Heap, M, and_then, malloc}
use libusbp.Heap.Returns.{Returns, returns}
use libusbp.Error.{Error, ErrorPtr, Text}
use libusbp.Usbfd.{is_minus_one}
use libusbp.Usbfd.Files.{GotDescriptor, open_file-GotDescriptor}
use libusbp.Device.{Device}
use libusbp.Device.Plenty.{Succeeds, Onwards}
use libusbp.Interface.{Interface}
use libusbp.Interface.Objects.Copy.{
  interface_get_device_copy-Succeeds, interface_get_os_filename-Succeeds,
}
use libusbp.Steps.{proceed}
use libusbp.Handle.Opening.{Node, assemble, open_node, setup_at, generic_handle_setup, handle_open}

-- A command is undefined where what follows its first part is.
faults-after :
    {A B : Type 0} {P : A → Heap → Type 0} (f : A → M B) {r : Option (A × Heap)}
    → Returns P r
    → ((a : A) (g : Heap) → P a g → f a g ≡ none)
    → and_then r f ≡ none
faults-after f (returns p) next = next _ _ p

faults-proceed :
    {A B : Type 0} (P : A → Type 0) (stop : Error → Option A → M B) (more : A → M B)
    (x : ErrorPtr × Option A) (g : Heap)
    → Succeeds P x g
    → ((a : A) → P a → Onwards g → more a g ≡ none)
    → proceed stop more x g ≡ none
unfolding proceed
faults-proceed P stop more (some e, x) g s next = absurd s
faults-proceed P stop more (none, none) g s next = absurd s
faults-proceed P stop more (none, some a) g (p, o) next = next a p o

module _ (node : Node) (gi : Interface)
    (opened : is_minus_one (node.open_reply gi.filename.chars).result ≡ false) where
  assemble-faults :
      (d : Device) (t : Text) (g : Heap) (x : ErrorPtr × ℤ) (k : Heap)
      → t.chars ≡ gi.filename.chars
      → GotDescriptor (node.open_reply t.chars) g x k
      → assemble none d t x k ≡ none
  unfolding assemble
  assemble-faults d t g (none, fd) k q r = refl
  assemble-faults d t g (some e, fd) k q (z, f) =
      absurd (true≢false (sym z ∙ ap (λ cs. is_minus_one (node.open_reply cs).result) q ∙ opened))

  open_node-faults : (d : Device) (g : Heap) → Onwards g → open_node node gi none d g ≡ none
  unfolding open_node
  open_node-faults d g o = faults-after _ (interface_get_os_filename-Succeeds gi g o) λ x k s.
      faults-proceed (λ c. c.chars ≡ gi.filename.chars) _ _ x k s
        λ t q o'.
          faults-after _ (open_file-GotDescriptor (node.open_reply t.chars) t.chars k)
            λ y j r. assemble-faults d t k y j q r

  setup-faults : (g : Heap) → Onwards g → setup_at node gi none g ≡ none
  unfolding setup_at
  setup-faults g o =
      faults-after _ (interface_get_device_copy-Succeeds gi g o)
        λ x k s. faults-proceed (λ _. Unit {0}) _ _ x k s λ d u o'. open_node-faults d k o'

generic_handle_setup-faults :
    (node : Node) (gi : Interface) (h : Heap)
    → is_minus_one (node.open_reply gi.filename.chars).result ≡ false
    → h.grants h.next ≡ false
    → ((n : ℕ) → h.next < n → h.grants n ≡ true)
    → generic_handle_setup node gi h ≡ none
unfolding generic_handle_setup malloc
generic_handle_setup-faults node gi h opened refused others = simp refused (
    setup-faults node gi opened (record h { next = h.next + 1 })
      (λ n b. others n (omega (arith, b))))

faults-first : {A B : Type 0} (f : A → M B) (r : Option (A × Heap)) → r ≡ none → and_then r f ≡ none
faults-first f r q = simp q refl

-- Where the first request for memory fails, all others succeed and the file can be opened,
-- `libusbp_generic_handle_open` is undefined: the handle that `calloc` did not give is written to.
pub handle_open-faults :
    (node : Node) (gi : Interface) (h : Heap)
    → is_minus_one (node.open_reply gi.filename.chars).result ≡ false
    → h.grants h.next ≡ false
    → ((n : ℕ) → h.next < n → h.grants n ≡ true)
    → handle_open node (some gi) h ≡ none
unfolding handle_open
handle_open-faults node gi h opened refused others =
    faults-first _ (generic_handle_setup node gi h)
      (generic_handle_setup-faults node gi h opened refused others)
