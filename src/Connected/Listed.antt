-- ===== src/Connected/Listed.antt =====
-- The list of the connected devices, and the search for one of them.
use libusbp.Base.{
  ℕ, ◌+◌, ◌≡◌, refl, ap, ◌∙◌, sym, subst, ◌⊎◌, inl, inr, ◌++◌, Option, none, some, List, arith,
  length,
}
use libusbp.Heap.{Heap, Blocks, no_blocks, block, block?}
use libusbp.Heap.Moves.{Moves, Short, Short-before, Owned, free-Moves}
use libusbp.Heap.Returns
use libusbp.Heap.Returns.{Returns, returns}
use libusbp.Error.{Error, ErrorPtr, error_no_memory}
use libusbp.Error
use libusbp.Error.Ownership.{IsValid}
use libusbp.Device
use libusbp.Device.{Device}
use libusbp.Devices.{DeviceList, owned, owned_all, Found}
use libusbp.Lists.Ownership.{IsNewList, create-IsNewList}
use libusbp.Devices.Search.{first_match, find_in_list-Found}
use libusbp.Udev.{Libudev}
use libusbp.Udev.Objects.{Opened, RefusesUsb, create_context-Opened, create_usb_list-Opened}
use libusbp.Steps.{Failed}
use libusbp.Connected.{
  Listed, finish_listing, fill_list, with_enumeration, with_udev, list_connected_devices,
  search_list, find_device_with_vid_pid,
}
use libusbp.Lists.Selects.{Selects, Selects-before}
use libusbp.Connected.Loop.{Connects, IsAvailable, list_loop-Extends}

-- A counted list that owns all that was allocated, with the devices of the names that libudev lists,
-- in their order, without those that are not available; or an error that does, where a request for
-- memory fails or libudev refuses to enumerate.
abbrev pub SelectsNames : Libudev → Heap → List Device → Type 0
SelectsNames lib h ds = Selects (Connects lib) (IsAvailable lib) h lib.names ds

abbrev pub IsListing : Libudev → Heap → Listed → Heap → Type 0
IsListing lib h (none, none, count) g = ⊥
IsListing lib h (none, some l, count) g =
    (count ≡ length l.devices) × (SelectsNames lib h l.devices × Moves h no_blocks (owned l) g)
IsListing lib h (some e, l, count) g =
    (l ≡ none) × ((count ≡ 0) × ((Short h ⊎ RefusesUsb lib) × Failed e h g))

finish_with :
    {P : Listed → Heap → Type 0} (x : Listed) (p q : Option ℕ) (k : Heap)
    → Owned (λ a. block? p a + block? q a) k
    → ((j : Heap) → Moves k (λ a. block? p a + block? q a) no_blocks j → P x j)
    → Returns P (finish_listing x p q k)
unfolding finish_listing
finish_with x p q k o next = Returns.bind (free-Moves p k (λ a. omega (arith, o a))) λ _ i f.
    Returns.bind (free-Moves q i (λ a. omega (arith, o a, f.live a))) λ _ j g.
      returns
        (next j (record { live = λ a. omega (arith, f.live a, g.live a); same = g.same ∙ f.same }))

-- After an error the objects of libudev are given back.
finish-IsListing :
    (lib : Libudev) (e : Error) (p q : Option ℕ) (h k : Heap)
    → Short h ⊎ RefusesUsb lib
    → IsValid e
    → Moves h no_blocks (λ a. Error.owned e a + (block? p a + block? q a)) k
    → Returns (IsListing lib h) (finish_listing (some e, none, 0) p q k)
finish-IsListing lib e p q h k reason v m =
    finish_with (some e, none, 0) p q k (λ a. omega (arith, m.live a))
      λ j f. (
        refl,
        (
          refl,
          (
            reason,
            (v, record { live = λ a. omega (arith, m.live a, f.live a); same = f.same ∙ m.same }),
          ),
        ),
      )

fill_list-IsListing :
    (lib : Libudev) (udev enumerate : ℕ) (h g : Heap) (x : ErrorPtr × Option DeviceList) (k : Heap)
    → Moves h no_blocks (λ a. block enumerate a + block udev a) g
    → IsNewList g x k
    → Returns (IsListing lib h) (fill_list lib udev enumerate x k)
unfolding fill_list
fill_list-IsListing lib udev enumerate h g (none, none) k m n = absurd n
fill_list-IsListing lib udev enumerate h g (some e, l) k m ((q, _, lack), n) =
    finish-IsListing lib e (some enumerate) (some udev) h k (inl (Short-before m lack))
      (subst IsValid (sym q) (record { counted = refl; has_message = refl }))
      (record {
        live = λ a. omega (arith, m.live a, n.live a, ap (λ x. Error.owned x a) q);
        same = n.same ∙ m.same;
      })
fill_list-IsListing lib udev enumerate h g (none, some l) k m (q, n) =
    let empty : (a : ℕ) → owned l a ≡ block l.at a =
      λ a. omega (arith, ap (λ ds. owned_all ds a) q) in
    Returns.bind
      (list_loop-Extends lib lib.names l 0 k (sym (ap length q))
        (λ a. omega (arith, n.live a, empty a)))
      λ (l', count) j (c, ((new, q', s), e)).
        finish_with (none, some l', count) (some enumerate) (some udev) j
          (λ a. omega (arith, m.live a, n.live a, e.live a, empty a))
          λ i f. (
            c,
            (
              subst (λ ds. SelectsNames lib h ds) (sym (q' ∙ ap (λ ds. ds ++ new) q))
                  (Selects-before m (Selects-before n s)),
              record {
                live = λ a. omega (arith, m.live a, n.live a, e.live a, f.live a, empty a);
                same = f.same ∙ e.same ∙ n.same ∙ m.same;
              },
            ),
          )

refused :
    (lib : Libudev) (h g : Heap) {new : Blocks}
    → Moves h no_blocks new g
    → Short g ⊎ RefusesUsb lib
    → Short h ⊎ RefusesUsb lib
refused lib h g m (inl lack) = inl (Short-before m lack)
refused lib h g m (inr r) = inr r

with_enumeration-IsListing :
    (lib : Libudev) (udev : ℕ) (h g : Heap) (x : ErrorPtr × Option ℕ) (k : Heap)
    → Moves h no_blocks (block udev) g
    → Opened (RefusesUsb lib) g x k
    → Returns (IsListing lib h) (with_enumeration lib udev x k)
unfolding with_enumeration
with_enumeration-IsListing lib udev h g (none, none) k m n = absurd n
with_enumeration-IsListing lib udev h g (some e, list) k m n =
    finish-IsListing lib e none (some udev) h k (refused lib h g m n.1.0) n.1.1.0
      (record { live = λ a. omega (arith, m.live a, n.1.1.1.live a); same = n.1.1.1.same ∙ m.same })
with_enumeration-IsListing lib udev h g (none, some enumerate) k m n =
    Returns.bind (create-IsNewList k) λ x j l.
      fill_list-IsListing lib udev enumerate h k x j
        (record { live = λ a. omega (arith, m.live a, n.1.live a); same = n.1.same ∙ m.same }) l

no_context : (lib : Libudev) (h : Heap) → Short h ⊎ ⊥ → Short h ⊎ RefusesUsb lib
no_context lib h (inl lack) = inl lack
no_context lib h (inr impossible) = absurd impossible

with_udev-IsListing :
    (lib : Libudev) (h : Heap) (x : ErrorPtr × Option ℕ) (g : Heap)
    → Opened ⊥ h x g
    → Returns (IsListing lib h) (with_udev lib x g)
unfolding with_udev
with_udev-IsListing lib h (none, none) g m = absurd m
with_udev-IsListing lib h (some e, context) g m =
    finish-IsListing lib e none none h g (no_context lib h m.1.0) m.1.1.0
      (record { live = λ a. omega (arith, m.1.1.1.live a); same = m.1.1.1.same })
with_udev-IsListing lib h (none, some udev) g m =
    Returns.bind (create_usb_list-Opened lib g)
      λ x k n. with_enumeration-IsListing lib udev h g x k m.1 n

-- `libusbp_list_connected_devices` returns a list with its count, of the devices that libudev lists,
-- in their order and with the IDs and texts that libudev tells. It lacks only names that libudev does
-- not know as an initialized USB device and devices of which a number cannot be read, and others only
-- where a request for memory fails. Or it returns an error and no list, only where libudev refuses to
-- enumerate or a request for memory fails, never for a single device. In every case nothing stays
-- allocated but what is returned.
pub list_connected-IsListing :
    (lib : Libudev) (h : Heap) → Returns (IsListing lib h) (list_connected_devices lib h)
unfolding list_connected_devices
list_connected-IsListing lib h =
    Returns.bind (create_context-Opened h) λ x g m. with_udev-IsListing lib h x g m

-- The first device with these IDs in such a list of the connected ones, or NULL; or an error.
abbrev pub IsFound : Libudev → (vendor_id product_id : ℕ) → Heap → Found → Heap → Type 0
IsFound lib vendor_id product_id h (none, d) g =
    (ds : List Device) × (SelectsNames lib h ds
      × ((d ≡ first_match vendor_id product_id ds) × Moves h no_blocks (Device.owned? d) g))
IsFound lib vendor_id product_id h (some e, d) g =
    (d ≡ none) × ((Short h ⊎ RefusesUsb lib) × Failed e h g)

search_list-IsFound :
    (lib : Libudev) (vendor_id product_id : ℕ) (h : Heap) (x : Listed) (g : Heap)
    → IsListing lib h x g
    → Returns (IsFound lib vendor_id product_id h) (search_list vendor_id product_id x g)
unfolding search_list
search_list-IsFound lib vendor_id product_id h (none, none, count) g m = absurd m
search_list-IsFound lib vendor_id product_id h (some e, l, count) g m = returns (refl, m.1.1)
search_list-IsFound lib vendor_id product_id h (none, some l, count) g (c, (all, m)) =
    Returns.mono (find_in_list-Found vendor_id product_id l g (λ a. omega (arith, m.live a)))
      λ r k (q, f).
        subst (λ r. IsFound lib vendor_id product_id h r k) (sym q)
          (
            l.devices,
            (
              all,
              (
                refl,
                record { live = λ a. omega (arith, m.live a, f.live a); same = f.same ∙ m.same },
              ),
            ),
          )

-- `libusbp_find_device_with_vid_pid` gives the first device with both IDs among those that libudev
-- lists, or NULL where none of them has these IDs. It takes account of all of them but for the names
-- of which no device can be made, and leaves out others only where a request for memory fails. Or it
-- returns an error and no device, only where libudev refuses to enumerate or a request for memory
-- fails. Nothing else stays allocated.
pub find_device-IsFound :
    (lib : Libudev) (vendor_id product_id : ℕ) (h : Heap)
    → Returns
        (IsFound lib vendor_id product_id h)
        (find_device_with_vid_pid lib vendor_id product_id h)
unfolding find_device_with_vid_pid
find_device-IsFound lib vendor_id product_id h =
    Returns.bind (list_connected-IsListing lib h)
      λ x g m. search_list-IsFound lib vendor_id product_id h x g m
