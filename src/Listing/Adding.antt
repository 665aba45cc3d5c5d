-- ===== src/Listing/Adding.antt =====
-- Adding a device to the list of the connected devices.
use libusbp.Base.{ℕ, ◌+◌, ◌≡◌, refl, ◌∙◌, none, some, [], ◌++◌, ◌∷◌, arith, length}
use libusbp.Heap.{Heap, no_blocks}
use libusbp.Heap.Moves.{Moves, Short, Short-before, Owned}
use libusbp.Heap.Returns
use libusbp.Heap.Returns.{Returns, returns}
use libusbp.Error.{Error, error_no_memory}
use libusbp.Device
use libusbp.Device.{Device}
use libusbp.Device.Copy.{device_free-Moves}
use libusbp.Devices.{DeviceList, owned}
use libusbp.Lists.Ownership.{Appends, appended, no_memory, append-Appends}
use libusbp.Steps.{Failed}
use libusbp.Udev.{UdevDevice}
use libusbp.Listing.{Created, Added, add_udev_device_to_list, add_created, keep_or_free}
use libusbp.Listing.Creation.{Describes, IsReadable, IsCreated, device_create-IsCreated}

-- The device as libudev describes it stands at the end of the list, which owns it; or there is an
-- error, where a number cannot be read or a request for memory fails, and the list is as it was.
pub data Adds (dev : UdevDevice) (l : DeviceList) (count : ℕ) (h : Heap)
    : Added → Heap → Type 0 where
  added :
      (d : Device) (at : ℕ) {g : Heap}
      → Describes dev d
      → Moves h (owned l) (owned (record { at = at; devices = l.devices ++ (d ∷ []) })) g
      → Adds dev l count h (none, record { at = at; devices = l.devices ++ (d ∷ []) }, count + 1) g
  failed :
      (e : Error) {g : Heap}
      → (IsReadable dev.info → Short h)
      → Failed e h g
      → Adds dev l count h (some e, l, count) g

keep_or_free-Adds :
    (dev : UdevDevice) (l : DeviceList) (count : ℕ) (d : Device) (h g : Heap) (x : Added) (k : Heap)
    → Owned (owned l) h
    → Describes dev d
    → Moves h no_blocks (Device.owned d) g
    → Appends Device.owned l count d g x k
    → Returns (Adds dev l count h) (keep_or_free d x k)
unfolding keep_or_free
keep_or_free-Adds dev l count d h g _ k o s m (appended at w) = returns (
    added d at s (record { live = λ a. omega (arith, m.live a, w.live a); same = w.same ∙ m.same }))
keep_or_free-Adds dev l count d h g _ k o s m (no_memory lack w) =
    Returns.bind (device_free-Moves (some d) k (λ a. omega (arith, m.live a, w.live a))) λ _ j f.
      returns (
        failed error_no_memory (λ _. Short-before m lack)
          (
            record { counted = refl; has_message = refl },
            record {
              live = λ a. omega (arith, m.live a, w.live a, f.live a);
              same = f.same ∙ w.same ∙ m.same;
            },
          ))

add_created-Adds :
    (dev : UdevDevice) (l : DeviceList) (count : ℕ) (h : Heap) (x : Created) (g : Heap)
    → count ≡ length l.devices
    → Owned (owned l) h
    → IsCreated dev h x g
    → Returns (Adds dev l count h) (add_created l count x g)
unfolding add_created
add_created-Adds dev l count h (none, none) g c o m = absurd m
add_created-Adds dev l count h (some e, some d) g c o m = absurd m
add_created-Adds dev l count h (some e, none) g c o m = returns (failed e m.0 m.1)
add_created-Adds dev l count h (none, some d) g c o m =
    Returns.bind (append-Appends Device.owned l count d g c (λ a. omega (arith, o a, m.1.live a)))
      λ x k w. keep_or_free-Adds dev l count d h g x k o m.0 m.1 w

-- `add_udev_device_to_list` puts the device that libudev describes at the end of the list; or it
-- returns an error, the list and its count are as they were, and nothing but the error stays
-- allocated.
pub add_udev_device-Adds :
    (dev : UdevDevice) (l : DeviceList) (count : ℕ) (h : Heap)
    → count ≡ length l.devices
    → Owned (owned l) h
    → Returns (Adds dev l count h) (add_udev_device_to_list dev l count h)
unfolding add_udev_device_to_list
add_udev_device-Adds dev l count h c o =
    Returns.bind (device_create-IsCreated dev h) λ x g m. add_created-Adds dev l count h x g c o m
