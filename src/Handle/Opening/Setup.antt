-- ===== src/Handle/Opening/Setup.antt =====
-- Setting up a handle, where the first request for memory succeeds.
use libusbp.Base.{
  ℤ, ℕ, ◌+◌, ◌≡◌, refl, sym, ap, subst, ◌∙◌, ◌⊎◌, inl, inr, true, false, Option, none, some, arith,
}
use libusbp.Heap.{Heap, Blocks, no_blocks, block, block?}
use libusbp.Heap.Moves.{Moves, malloc-granted, Short, Short-before}
use libusbp.Heap.Returns
use libusbp.Heap.Returns.{Returns, returns}
use libusbp.Error.{Error, ErrorPtr, Text, text_block}
use libusbp.Usbfd.{is_minus_one}
use libusbp.Usbfd.Files.{GotDescriptor, open_file-GotDescriptor}
use libusbp.Device
use libusbp.Device.{Device}
use libusbp.Device.Steps.{SameDevice, device_free-Ends, string_free-Ends}
use libusbp.Steps.{Failed, Gets, Ends, pure-Ends, free-Ends, same-Ends, proceed-Returns}
use libusbp.Interface.{Interface}
use libusbp.Interface.Objects.Copy.{
  interface_get_device_copy-GetsDevice, interface_get_os_filename-GetsText,
}
use libusbp.Handle.{Handle}
use libusbp.Handle.Opening.{
  Node, Opened, new_handle, finish_setup, assemble, open_node, setup_at, generic_handle_setup,
}

abbrev pub owned : Handle → Blocks
owned handle a = block handle.at a + Device.owned? handle.device a

abbrev pub owned? : Option Handle → Blocks
owned? none a = 0
owned? (some handle) a = owned handle a

-- A new handle with a copy of the device of the interface, on the file that was opened.
pub record SetUp (node : Node) (gi : Interface) (handle : Handle) : Type 0 where
  pub device : Device
  pub same : SameDevice gi.device device
  pub is_new : handle ≡ new_handle handle.at device handle.fd
  pub is_fd : handle.fd ≡ (node.open_reply gi.filename.chars).result
  pub opened : is_minus_one handle.fd ≡ false

-- Why no handle was set up: a request for memory fails, or the file cannot be opened.
abbrev pub CannotSetUp : Node → Interface → Heap → Type 0
CannotSetUp node gi h = Short h ⊎ (is_minus_one (node.open_reply gi.filename.chars).result ≡ true)

abbrev pub SetsUp : Node → Interface → Heap → Opened → Heap → Type 0
SetsUp node gi h = Gets (λ _. CannotSetUp node gi h) (SetUp node gi) owned h

finish_setup-Ends :
    (filename : Option Text) (device : Option Device) (handle : Option ℕ) (result : Opened)
    → Ends
        (λ a. block? (text_block filename) a + (Device.owned? device a + block? handle a))
        (finish_setup filename device handle result)
        result
unfolding finish_setup
finish_setup-Ends filename device handle result =
    same-Ends _ _ _ _ (λ a. omega arith)
      (string_free-Ends filename _ _ _
        (device_free-Ends device _ _ _ (free-Ends handle _ _ _ (pure-Ends result))))

module _ (node : Node) (gi : Interface) (h : Heap) where
  stop-SetsUp :
      (filename : Option Text) (device : Option Device) (handle : Option ℕ) (e : Error) (g k : Heap)
      → CannotSetUp node gi h
      → Moves h no_blocks
          (λ a. block? (text_block filename) a + (Device.owned? device a + block? handle a))
          g
      → Failed e g k
      → Returns (SetsUp node gi h) (finish_setup filename device handle (some e, none) k)
  stop-SetsUp filename device handle e g k why m (v, n) =
      Returns.mono
        (finish_setup-Ends filename device handle (some e, none) k
          (λ a. omega (arith, m.live a, n.live a)))
        λ x j (q, f).
          subst (λ y. SetsUp node gi h y j) (sym q)
            (
              refl,
              (
                why,
                (
                  v,
                  record {
                    live = λ a. omega (arith, m.live a, n.live a, f.live a);
                    same = f.same ∙ n.same ∙ m.same;
                  },
                ),
              ),
            )

  module _ (at : ℕ) where
    assemble-SetsUp :
        (c : Device) (t : Text) (g : Heap) (x : ErrorPtr × ℤ) (k : Heap)
        → SameDevice gi.device c
        → t.chars ≡ gi.filename.chars
        → Moves h no_blocks (λ a. block t.at a + (Device.owned c a + block at a)) g
        → GotDescriptor (node.open_reply t.chars) g x k
        → Returns (SetsUp node gi h) (assemble (some at) c t x k)
    unfolding assemble
    assemble-SetsUp c t g (some e, fd) k same q m (z, f) =
        stop-SetsUp (some t) (some c) (some at) e g k
          (inr (ap (λ cs. is_minus_one (node.open_reply cs).result) (sym q) ∙ z)) m f
    assemble-SetsUp c t g (none, fd) k same q m (r, (z, k≡g)) =
        Returns.mono
          (finish_setup-Ends (some t) none none _ k
            (λ a. omega (arith, m.live a, ap (λ k. k.live a) k≡g)))
          λ x j (p, f).
            subst (λ y. SetsUp node gi h y j) (sym p)
              (
                record {
                  device = c;
                  same = same;
                  is_new = refl;
                  is_fd = r ∙ ap (λ cs. (node.open_reply cs).result) q;
                  opened = ap is_minus_one r ∙ z;
                },
                record {
                  live = λ a. omega (arith, m.live a, f.live a, ap (λ k. k.live a) k≡g);
                  same = f.same ∙ ap (λ k. k.surroundings) k≡g ∙ m.same;
                },
              )

    open_node-SetsUp :
        (c : Device) (g : Heap)
        → SameDevice gi.device c
        → Moves h no_blocks (λ a. Device.owned c a + block at a) g
        → Returns (SetsUp node gi h) (open_node node gi (some at) c g)
    unfolding open_node
    open_node-SetsUp c g same m = Returns.bind (interface_get_os_filename-GetsText gi g) λ x k r.
        proceed-Returns _ _ x k r
          (λ e lack f.
            stop-SetsUp none (some c) (some at) e g k (inl (Short-before m lack))
              (record { live = λ a. omega (arith, m.live a); same = m.same }) f)
          λ t q n.
            Returns.bind (open_file-GotDescriptor (node.open_reply t.chars) t.chars k) λ y j d.
              assemble-SetsUp c t k y j same q
                (record { live = λ a. omega (arith, m.live a, n.live a); same = n.same ∙ m.same }) d

    setup_at-SetsUp :
        (g : Heap)
        → Moves h no_blocks (block at) g
        → Returns (SetsUp node gi h) (setup_at node gi (some at) g)
    unfolding setup_at
    setup_at-SetsUp g m = Returns.bind (interface_get_device_copy-GetsDevice gi g) λ x k r.
        proceed-Returns _ _ x k r
          (λ e lack f.
            stop-SetsUp none none (some at) e g k (inl (Short-before m lack))
              (record { live = λ a. omega (arith, m.live a); same = m.same }) f)
          λ c same n.
            open_node-SetsUp c k same
              (record { live = λ a. omega (arith, m.live a, n.live a); same = n.same ∙ m.same })

pub generic_handle_setup-SetsUp :
    (node : Node) (gi : Interface) (h : Heap)
    → h.grants h.next ≡ true
    → Returns (SetsUp node gi h) (generic_handle_setup node gi h)
unfolding generic_handle_setup
generic_handle_setup-SetsUp node gi h granted =
    Returns.bind (malloc-granted h granted) λ p g (q, m).
      subst (λ p. Returns (SetsUp node gi h) (setup_at node gi p g)) (sym q)
        (setup_at-SetsUp node gi h h.next g m)
