-- ===== src/Windows/Listing/Listed.antt =====
-- The list of the connected devices, and what stays allocated.
use libusbp.Base.{
  ℕ, ◌+◌, ◌≡◌, refl, sym, ap, subst, ◌∙◌, Option, none, some, List, [], arith, length,
}
use libusbp.Heap.{Heap, no_blocks, block, block?, ◌>>=◌}
use libusbp.Heap.Moves.{Moves, Owned, malloc-Moves, free-Moves}
use libusbp.Heap.Returns
use libusbp.Heap.Returns.{Returns, returns}
use libusbp.Error.{Error, ErrorPtr, error_no_memory}
use libusbp.Error
use libusbp.Error.Ownership.{IsValid}
use libusbp.Error.Chain.{Carries}
use libusbp.Lists.{ListOf}
use libusbp.Lists
use libusbp.Lists.Ownership.{IsNewList, create-IsNewList, free_devices_and_list-Moves}
use libusbp.Windows.Errors.Meaning.{error_create_winapi-Carries}
use libusbp.Windows.Device
use libusbp.Windows.Device.{Entry, Device, device_free}
use libusbp.Windows.Device.Ends.{device_free-Ends}
use libusbp.Windows.Listing.{
  Enumeration, Added, list_loop, Listed, finish_listing, pass_list, fill_list, with_handle,
  list_connected_devices,
}
use libusbp.Lists.Selects.{Selects, Selects-before}
use libusbp.Windows.Device.Made.{Describes, IsUsable}
use libusbp.Windows.Listing.Loop.{owned, Loses, Extends, AllSized, list_loop-Extends}

-- A counted list of the devices of the entries, in their order, which owns all that was allocated; or
-- an error that does, except for a device that may be lost where memory runs out.
abbrev pub IsListing : Enumeration → Heap → Listed → Heap → Type 0
IsListing enumeration h (none, none, count) g = ⊥
IsListing enumeration h (none, some l, count) g =
    (count ≡ length l.devices)
    × (Selects Describes IsUsable h enumeration.entries l.devices × Moves h no_blocks (owned l) g)
IsListing enumeration h (some e, l, count) g =
    (l ≡ none)
    × (count ≡ 0)
    × ((lost : Option Device) × Loses e lost
        × IsValid e
        × Moves h no_blocks (λ a. Error.owned e a + Device.owned? lost a) g)

free_list-Moves :
    (l : Option (ListOf Device)) (h : Heap)
    → Owned (Lists.owned? Device.owned l) h
    → Returns
        (λ _ g. Moves h (Lists.owned? Device.owned l) no_blocks g)
        (Lists.free_devices_and_list device_free l h)
free_list-Moves l h o =
    free_devices_and_list-Moves Device.owned device_free
      (λ d h o. Returns.mono (device_free-Ends (some d) h o) λ r g (q, m). m) l h o

pub finish_listing-Moves :
    (result : Listed) (handle : Option ℕ) (l : Option (ListOf Device)) (h : Heap)
    → Owned (λ a. block? handle a + Lists.owned? Device.owned l a) h
    → Returns
        (λ r g.
          (r ≡ result) × Moves h (λ a. block? handle a + Lists.owned? Device.owned l a) no_blocks g)
        (finish_listing result handle l h)
unfolding finish_listing
finish_listing-Moves result handle l h o =
    Returns.bind (free-Moves handle h (λ a. omega (arith, o a))) λ _ g m.
      Returns.bind (free_list-Moves l g (λ a. omega (arith, o a, m.live a))) λ _ k n.
        returns
          (refl, record { live = λ a. omega (arith, m.live a, n.live a); same = n.same ∙ m.same })

module _ (enumeration : Enumeration) (h : Heap) where
  stop-IsListing :
      (e : Error) (lost : Option Device) (handle : Option ℕ) (l : Option (ListOf Device)) (g : Heap)
      → Loses e lost
      → IsValid e
      → Moves h no_blocks
          (λ a.
            block? handle a
            + Lists.owned? Device.owned l a
            + (Error.owned e a + Device.owned? lost a))
          g
      → Returns (IsListing enumeration h) (finish_listing (some e, none, 0) handle l g)
  stop-IsListing e lost handle l g p v m =
      Returns.mono
        (finish_listing-Moves (some e, none, 0) handle l g (λ a. omega (arith, m.live a)))
        λ r k (q, n). simp q (
          refl,
          refl,
          (
            lost,
            p,
            v,
            record { live = λ a. omega (arith, m.live a, n.live a); same = n.same ∙ m.same },
          ),
        )

  pass_list-IsListing :
      (handle : ℕ) (at : ℕ) (g : Heap) (x : Added) (k : Heap)
      → Moves h no_blocks (λ a. block handle a + block at a) g
      → Extends enumeration.entries (record { at = at; devices = [] }) g x k
      → Returns (IsListing enumeration h) (pass_list handle x k)
  unfolding pass_list
  pass_list-IsListing handle at g (none, l, count) k m (c, ((new, q, s), n)) =
      Returns.mono
        (finish_listing-Moves (none, some l, count) (some handle) none k
          (λ a. omega (arith, m.live a, n.live a)))
        λ r j (p, f). simp p (
          c,
          (
            subst (λ ds. Selects Describes IsUsable h enumeration.entries ds) (sym q)
                (Selects-before m s),
            record {
              live = λ a. omega (arith, m.live a, n.live a, f.live a);
              same = f.same ∙ n.same ∙ m.same;
            },
          ),
        )
  pass_list-IsListing handle at g (some e, l, count) k m (lost, p, v, n) =
      stop-IsListing e lost (some handle) (some l) k p v
        (record { live = λ a. omega (arith, m.live a, n.live a); same = n.same ∙ m.same })

  new_list-IsListing :
      (handle : ℕ) (at : ℕ) (l : ListOf Device) (g k : Heap)
      → AllSized enumeration.entries
      → l.devices ≡ []
      → Moves h no_blocks (block handle) g
      → Moves g no_blocks (block l.at) k
      → Returns
          (IsListing enumeration h)
          ((list_loop enumeration enumeration.entries l 0 >>= pass_list handle) k)
  new_list-IsListing handle at l g k sized q m n =
      let o : Owned (owned l) k =
        λ a. omega (arith, n.live a, ap (λ ds. Lists.owned_all Device.owned ds a) q) in
      Returns.bind
        (list_loop-Extends enumeration enumeration.entries l 0 k sized (sym (ap length q)) o)
        λ x j e.
          pass_list-IsListing handle l.at k x j
            (record { live = λ a. omega (arith, m.live a, n.live a); same = n.same ∙ m.same })
            (subst (λ ds. Extends enumeration.entries (record { at = l.at; devices = ds }) k x j) q
              e)

  fill_list-IsListing :
      (handle : ℕ) (g : Heap) (x : ErrorPtr × Option (ListOf Device)) (k : Heap)
      → AllSized enumeration.entries
      → Moves h no_blocks (block handle) g
      → IsNewList g x k
      → Returns (IsListing enumeration h) (fill_list enumeration handle x k)
  unfolding fill_list
  fill_list-IsListing handle g (none, none) k sized m n = absurd n
  fill_list-IsListing handle g (some e, l) k sized m ((q, p, _), n) = simp p (
      stop-IsListing e none (some handle) none k tt
        (subst IsValid (sym q) (record { counted = refl; has_message = refl }))
        (record {
          live = λ a. omega (arith, m.live a, n.live a, ap (λ x. Error.owned x a) q);
          same = n.same ∙ m.same;
        }))
  fill_list-IsListing handle g (none, some l) k sized m (q, n) =
      new_list-IsListing handle l.at l g k sized q m n

  no_handle-IsListing :
      (chars codes : List ℕ) (e : ErrorPtr) (g k : Heap)
      → Moves h no_blocks no_blocks g
      → Carries no_blocks chars codes g e k
      → Returns (IsListing enumeration h) (finish_listing (e, none, 0) none none k)
  no_handle-IsListing chars codes none g k m c = absurd c
  no_handle-IsListing chars codes (some e) g k m c =
      stop-IsListing e none none none k tt c.valid (record {
        live = λ a. omega (arith, m.live a, c.moves.live a);
        same = c.moves.same ∙ m.same;
      })

  with_handle-IsListing :
      (p : Option ℕ) (g : Heap)
      → AllSized enumeration.entries
      → Moves h no_blocks (block? p) g
      → Returns (IsListing enumeration h) (with_handle enumeration p g)
  unfolding with_handle
  with_handle-IsListing none g sized m =
      Returns.bind
        (error_create_winapi-Carries enumeration.format_message enumeration.open_error _ g)
        λ e k c. no_handle-IsListing _ _ e g k (record { live = m.live; same = m.same }) c
  with_handle-IsListing (some handle) g sized m =
      Returns.bind (create-IsNewList g)
        λ x k n. fill_list-IsListing handle g x k sized (record { live = m.live; same = m.same }) n

-- Where SetupAPI gives as many bytes as it says for every entry, `libusbp_list_connected_devices`
-- returns a list with its count, in which the devices of the entries stand in their order. It lacks
-- those of entries of which no device can be made, and others only where a request for memory fails,
-- and it owns all that was allocated. Or it returns an error and no list, and nothing but the error
-- stays allocated, except for one device where memory runs out.
pub list_connected-Lists :
    (enumeration : Enumeration) (h : Heap)
    → AllSized enumeration.entries
    → Returns (IsListing enumeration h) (list_connected_devices enumeration h)
unfolding list_connected_devices
list_connected-Lists enumeration h sized =
    Returns.bind (malloc-Moves h) λ p g m. with_handle-IsListing enumeration h p g sized m
