-- ===== src/Udev/Objects.antt =====
-- Making the reference-counted objects of libudev.
use libusbp.Base.{
  ℤ, ℕ, ◌≡◌, refl, ◌∙◌, false, ◌⊎◌, Bool-cases, inl, inr, Option, none, some, List, [], ◌++◌, text,
  arith,
}
use libusbp.Heap.{Heap, no_blocks, block, block?}
use libusbp.Heap.Moves.{Moves, Short, Gave, malloc-Gave, free-Moves}
use libusbp.Heap.Returns
use libusbp.Heap.Returns.{Returns, returns}
use libusbp.Error.{ErrorPtr}
use libusbp.Error.Chain.{Carries, error_create-Carries}
use libusbp.LinuxError.Meaning.{error_create_udev-Carries}
use libusbp.Usbfd.{equals}
use libusbp.Udev.{
  Libudev, DeviceInfo, UdevDevice, with_context, create_context, drop_list, scan_list, match_list,
  create_usb_list, create_child_list, or_error, get_device_type, get_parent_usb_device, get_devnode,
  no_device, with_device, find_device, get_device_from_syspath,
}
use libusbp.Steps.{Gets, failed-Gets}

-- A new object; or an error, where a request for memory fails or `Q` holds.
abbrev pub Opened : Type 0 → Heap → ErrorPtr × Option ℕ → Heap → Type 0
Opened Q h = Gets (λ _. Short h ⊎ Q) (λ _. Unit {0}) block h

with_context-Opened :
    (p : Option ℕ) (h g : Heap)
    → Gave h p
    → Moves h no_blocks (block? p) g
    → Returns (Opened ⊥ h) (with_context p g)
unfolding with_context
with_context-Opened none h g s m = Returns.bind (error_create-Carries _ g) λ e k c.
    returns
      (failed-Gets _ _ block _ _ h g e k (λ _. inl s) (record { live = m.live; same = m.same }) c)
with_context-Opened (some at) h g s m = returns (tt, record { live = m.live; same = m.same })

-- `udevw_create_context` fails only where a request for memory fails.
pub create_context-Opened : (h : Heap) → Returns (Opened ⊥ h) (create_context h)
unfolding create_context
create_context-Opened h = Returns.bind (malloc-Gave h) λ p g (s, m). with_context-Opened p h g s m

drop_list-Opened :
    (Q : Type 0) (chars : List ℕ) (p : Option ℕ) (h g : Heap) (e : ErrorPtr) (k : Heap)
    → Short h ⊎ Q
    → Moves h no_blocks (block? p) g
    → Carries no_blocks chars [] g e k
    → Returns (Opened Q h) (drop_list e p k)
unfolding drop_list
drop_list-Opened Q chars p h g none k q m c = absurd c
drop_list-Opened Q chars p h g (some e) k q m c =
    Returns.bind (free-Moves p k (λ a. omega (arith, m.live a, c.moves.live a))) λ _ j f. returns (
      refl,
      (
        q,
        (
          c.valid,
          record {
            live = λ a. omega (arith, m.live a, c.moves.live a, f.live a);
            same = f.same ∙ c.moves.same ∙ m.same;
          },
        ),
      ),
    )

-- An enumeration is refused where libudev answers anything but 0.
abbrev pub Refuses : (matched scanned : ℤ) → Type 0
Refuses matched scanned = (equals matched 0 ≡ false) ⊎ (equals scanned 0 ≡ false)

scan_list-Opened :
    (Q : Type 0) (scanned : ℤ) (at : ℕ) (h g : Heap)
    → (equals scanned 0 ≡ false → Q)
    → Moves h no_blocks (block at) g
    → Returns (Opened Q h) (scan_list scanned at g)
unfolding scan_list
scan_list-Opened Q scanned at h g q m = elim (Bool-cases (equals scanned 0)) [
  | inl z ↦ simp z (returns (tt, m))
  | inr z ↦ simp z (
      Returns.bind (error_create_udev-Carries scanned _ g) λ e k c.
        drop_list-Opened Q _ (some at) h g e k (inr (q z)) (record { live = m.live; same = m.same })
          c)
]

match_list-Opened :
    (Q : Type 0) (matched : ℤ) (message : List ℕ) (scanned : ℤ) (p : Option ℕ) (h g : Heap)
    → (Refuses matched scanned → Q)
    → Gave h p
    → Moves h no_blocks (block? p) g
    → Returns (Opened Q h) (match_list matched message scanned p g)
unfolding match_list
match_list-Opened Q matched message scanned none h g q s m =
    Returns.bind (error_create-Carries _ g) λ e k c. drop_list-Opened Q _ none h g e k (inl s) m c
match_list-Opened Q matched message scanned (some at) h g q s m =
    elim (Bool-cases (equals matched 0)) [
      | inl z ↦ simp z (
          scan_list-Opened Q scanned at h g (λ r. q (inr r))
            (record { live = m.live; same = m.same }))
      | inr z ↦ simp z (
          Returns.bind (error_create_udev-Carries matched _ g)
            λ e k c. drop_list-Opened Q _ (some at) h g e k (inr (q (inl z))) m c)
    ]

abbrev pub RefusesUsb : Libudev → Type 0
RefusesUsb lib = Refuses lib.add_match_subsystem lib.scan_devices

-- `udevw_create_usb_list` makes an enumeration; or, where a request for memory fails or libudev
-- refuses, it returns an error, and the enumeration that was begun is given back.
pub create_usb_list-Opened :
    (lib : Libudev) (h : Heap) → Returns (Opened (RefusesUsb lib) h) (create_usb_list lib h)
unfolding create_usb_list
create_usb_list-Opened lib h = Returns.bind (malloc-Gave h) λ p g (s, m).
    match_list-Opened (RefusesUsb lib) lib.add_match_subsystem _ lib.scan_devices p h g (λ r. r) s m

abbrev pub RefusesChildren : Libudev → List ℕ → Type 0
RefusesChildren lib syspath = Refuses (lib.add_match_parent syspath) (lib.scan_children syspath)

pub create_child_list-Opened :
    (lib : Libudev) (parent : UdevDevice) (h : Heap)
    → Returns (Opened (RefusesChildren lib parent.info.syspath) h) (create_child_list lib parent h)
unfolding create_child_list
create_child_list-Opened lib parent h = Returns.bind (malloc-Gave h) λ p g (s, m).
    match_list-Opened (RefusesChildren lib parent.info.syspath)
      (lib.add_match_parent parent.info.syspath) _ (lib.scan_children parent.info.syspath) p h g
      (λ r. r) s m

-- The device, where libudev knows one; or an error, where it does not or a request for memory fails.
abbrev pub GotDevice : Option DeviceInfo → Heap → ErrorPtr × Option UdevDevice → Heap → Type 0
GotDevice info h =
    Gets (λ _. Short h ⊎ (info ≡ none)) (λ dev. info ≡ some dev.info) (λ dev. block dev.at) h

no_device-GotDevice :
    (syspath : List ℕ) (info : Option DeviceInfo) (h g : Heap)
    → Short h ⊎ (info ≡ none)
    → Moves h no_blocks no_blocks g
    → Returns (GotDevice info h) (no_device syspath g)
unfolding no_device
no_device-GotDevice syspath info h g q m =
    Returns.bind
      (error_create-Carries
        (text "Failed to get udev device from syspath: " ++ (syspath ++ text ".")) g)
      λ e k c. returns (failed-Gets _ _ (λ dev. block dev.at) _ _ h g e k (λ _. q) m c)

with_device-GotDevice :
    (syspath : List ℕ) (info : DeviceInfo) (p : Option ℕ) (h g : Heap)
    → Gave h p
    → Moves h no_blocks (block? p) g
    → Returns (GotDevice (some info) h) (with_device syspath info p g)
unfolding with_device
with_device-GotDevice syspath info none h g s m =
    no_device-GotDevice syspath (some info) h g (inl s) (record { live = m.live; same = m.same })
with_device-GotDevice syspath info (some at) h g s m =
    returns (refl, record { live = m.live; same = m.same })

find_device-GotDevice :
    (syspath : List ℕ) (info : Option DeviceInfo) (h : Heap)
    → Returns (GotDevice info h) (find_device syspath info h)
unfolding find_device
find_device-GotDevice syspath none h =
    no_device-GotDevice syspath none h h (inr refl) (record { live = λ a. refl; same = refl })
find_device-GotDevice syspath (some info) h =
    Returns.bind (malloc-Gave h) λ p g (s, m). with_device-GotDevice syspath info p h g s m

pub get_device-GotDevice :
    (lib : Libudev) (syspath : List ℕ) (h : Heap)
    → Returns (GotDevice (lib.device_of_syspath syspath) h) (get_device_from_syspath lib syspath h)
unfolding get_device_from_syspath
get_device-GotDevice lib syspath h = find_device-GotDevice syspath (lib.device_of_syspath syspath) h

-- What the getters of a device's texts give, which allocate nothing but an error.
abbrev pub GotOwn : Option (List ℕ) → Heap → ErrorPtr × Option (List ℕ) → Heap → Type 0
GotOwn str = Gets (λ _. str ≡ none) (λ s. str ≡ some s) (λ _. no_blocks)

or_error-GotOwn :
    (message : List ℕ) (str : Option (List ℕ)) (h : Heap)
    → Returns (GotOwn str h) (or_error message str h)
unfolding or_error
or_error-GotOwn message none h = Returns.bind (error_create-Carries message h) λ e g c. returns (
    failed-Gets _ _ (λ _. no_blocks) _ _ h h e g (λ _. refl)
      (record { live = λ a. refl; same = refl }) c)
or_error-GotOwn message (some str) h = returns (refl, record { live = λ a. refl; same = refl })

pub get_device_type-GotOwn :
    (dev : UdevDevice) (h : Heap) → Returns (GotOwn dev.info.devtype h) (get_device_type dev h)
unfolding get_device_type
get_device_type-GotOwn dev h = or_error-GotOwn _ dev.info.devtype h

pub get_parent-GotOwn :
    (dev : UdevDevice) (h : Heap)
    → Returns (GotOwn dev.info.parent_usb_device h) (get_parent_usb_device dev h)
unfolding get_parent_usb_device
get_parent-GotOwn dev h = or_error-GotOwn _ dev.info.parent_usb_device h

pub get_devnode-GotOwn :
    (dev : UdevDevice) (h : Heap) → Returns (GotOwn dev.info.devnode h) (get_devnode dev h)
unfolding get_devnode
get_devnode-GotOwn dev h = or_error-GotOwn _ dev.info.devnode h
