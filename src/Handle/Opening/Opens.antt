-- ===== src/Handle/Opening/Opens.antt =====
-- Opening a handle, where the first request for memory succeeds.
use libusbp.Base.{
  ℤ, ℕ, ◌≡◌, refl, sym, ap, subst, ◌∙◌, ◌⊎◌, inl, inr, true, Option, none, some, arith,
}
use libusbp.Heap.{Heap, no_blocks}
use libusbp.Heap.Moves.{Moves}
use libusbp.Heap.Returns
use libusbp.Heap.Returns.{Returns, returns}
use libusbp.Error.{Error}
use libusbp.Device.{Device}
use libusbp.Device.Steps.{SameDevice, device_free-Ends}
use libusbp.Steps.{
  Failed, Gets, Ends, pure-Ends, free-Ends, same-Ends, proceed-Returns, unless_error-Returns,
}
use libusbp.Interface.{Interface}
use libusbp.Handle.{Handle, handle_close}
use libusbp.Handle.Opening.Checking.{matches, IsRead, Mismatches, check_device_descriptor-Checks}
use libusbp.Handle.Opening.{
  Node, Opened, Descriptor, new_handle, finish_open, check_handle, handle_open,
}
use libusbp.Handle.Opening.Setup.{owned, owned?, SetUp, CannotSetUp, generic_handle_setup-SetsUp}

abbrev fd_of : Option Handle → Option ℤ
fd_of none = none
fd_of (some handle) = some handle.fd

-- `libusbp_generic_handle_close` gives back the handle and its device, and closes its descriptor.
pub handle_close-Ends :
    (handle : Option Handle) → Ends (owned? handle) (handle_close handle) (fd_of handle)
unfolding handle_close
handle_close-Ends none = pure-Ends none
handle_close-Ends (some handle) =
    same-Ends _ _ _ _ (λ a. omega arith)
      (device_free-Ends handle.device _ _ _
        (free-Ends (some handle.at) _ _ _ (pure-Ends (some handle.fd))))

finish_open-Ends :
    (handle : Option Handle) (result : Opened)
    → Ends (owned? handle) (finish_open handle result) result
unfolding finish_open
finish_open-Ends handle result =
    λ h o. Returns.bind (handle_close-Ends handle h o) λ _ g (q, m). returns (refl, m)

-- An open handle, for a device that the descriptor matches.
pub record Opens (node : Node) (gi : Interface) (handle : Handle) : Type 0 where
  pub set_up : SetUp node gi handle
  pub read : IsRead node
  pub matching : matches node.descriptor gi.device ≡ true

-- Why no handle was opened.
abbrev pub CannotOpen : Node → Interface → Heap → Type 0
CannotOpen node gi h = CannotSetUp node gi h ⊎ Mismatches node gi.device

-- The handle, which owns what was allocated; or an error with its reason, and NULL.
abbrev pub OpensHandle : Node → Interface → Heap → Opened → Heap → Type 0
OpensHandle node gi h = Gets (λ _. CannotOpen node gi h) (Opens node gi) owned h

same-matches :
    (descriptor : Descriptor) (d c : Device)
    → SameDevice d c
    → matches descriptor c ≡ matches descriptor d
same-matches descriptor d c s = simp (s.vendor_id, s.product_id, s.revision) refl

module _ (node : Node) (gi : Interface) (h : Heap) where
  close-OpensHandle :
      (handle : Option Handle) (e : Error) (g k : Heap)
      → CannotOpen node gi h
      → Moves h no_blocks (owned? handle) g
      → Failed e g k
      → Returns (OpensHandle node gi h) (finish_open handle (some e, none) k)
  close-OpensHandle handle e g k why m (v, n) =
      Returns.mono
        (finish_open-Ends handle (some e, none) k (λ a. omega (arith, m.live a, n.live a)))
        λ x j (q, f).
          subst (λ y. OpensHandle node gi h y j) (sym q)
            (
              refl,
              (
                why,
                (
                  v,
                  record {
                    live = λ a. omega (arith, m.live a, n.live a, f.live a);
                    same = f.same ∙ n.same ∙ m.same;
                  },
                ),
              ),
            )

  check-OpensHandle :
      (at : ℕ) (c : Device) (fd : ℤ) (g : Heap)
      → SameDevice gi.device c
      → SetUp node gi (new_handle at c fd)
      → Moves h no_blocks (owned (new_handle at c fd)) g
      → Returns (OpensHandle node gi h) (check_handle node (new_handle at c fd) g)
  unfolding check_handle
  check-OpensHandle at c fd g same s m =
      Returns.bind (check_device_descriptor-Checks node at c fd g) λ x k r.
        unless_error-Returns _ _ x k r
          (λ e why f.
            close-OpensHandle (some (new_handle at c fd)) e g k
              (inr (elim why [
                | inl z ↦ inl z
                | inr z ↦ inr (sym (same-matches node.descriptor gi.device c same) ∙ z)
              ]))
              m f)
          λ (read, z) k≡g. Returns.mono (finish_open-Ends none _ k (λ a. omega arith)) λ y j (p, f).
            subst (λ y. OpensHandle node gi h y j) (sym p)
              (
                record {
                  set_up = s;
                  read = read;
                  matching = sym (same-matches node.descriptor gi.device c same) ∙ z;
                },
                record {
                  live = λ a. omega (arith, m.live a, f.live a, ap (λ k. k.live a) k≡g);
                  same = f.same ∙ ap (λ k. k.surroundings) k≡g ∙ m.same;
                },
              )

-- Where the first request for memory succeeds, `libusbp_generic_handle_open` gives a handle with a
-- copy of the device of the interface, the file descriptor of its file and every timeout 0, if the
-- file can be opened and the device descriptor in it is complete and matches the device. It returns
-- an error and NULL only where a later request for memory fails, the file cannot be opened, or the
-- descriptor is not complete or does not match. Nothing stays allocated but what is returned.
pub handle_open-OpensHandle :
    (node : Node) (gi : Interface) (h : Heap)
    → h.grants h.next ≡ true
    → Returns (OpensHandle node gi h) (handle_open node (some gi) h)
unfolding handle_open
handle_open-OpensHandle node gi h granted =
    Returns.bind (generic_handle_setup-SetsUp node gi h granted) λ x g r.
      proceed-Returns _ _ x g r
        (λ e why f.
          close-OpensHandle node gi h none e h g (inl why)
            (record { live = λ a. refl; same = refl }) f)
        λ handle s m.
          subst (λ x. Returns (OpensHandle node gi h) (check_handle node x g)) (sym s.is_new)
            (check-OpensHandle node gi h handle.at s.device handle.fd g s.same
              (subst (SetUp node gi) s.is_new s)
              (subst (λ x. Moves h no_blocks (owned x) g) s.is_new m))
