-- ===== src/Connected/Loop.antt =====
-- The loop over the names that libudev lists.
use libusbp.Base.{
  ℕ, ◌≡◌, refl, sym, ap, subst, ◌∙◌, ◌⊎◌, some-injective, some≢none, true≢false, append-nil, Bool,
  true, false, Bool-cases, inl, inr, Option, Option-cases, none, some, List, [], ◌∷◌, arith, length,
  length-append,
}
use libusbp.Heap.{Heap, M, no_blocks, block}
use libusbp.Heap.Moves.{Moves, Short, Short-before, Owned, free-Moves}
use libusbp.Heap.Returns
use libusbp.Heap.Returns.{Returns, returns}
use libusbp.Error.{ErrorPtr}
use libusbp.Error.Ownership.{error_free-Moves}
use libusbp.Error.Chain.{Carries, error_create-Carries}
use libusbp.Device
use libusbp.Device.{Device}
use libusbp.Devices.{DeviceList, owned}
use libusbp.Steps.{Failed}
use libusbp.Lists.Selects.{done, take, skip, Selects-before, Extended, Extended-then}
use libusbp.Udev.{Libudev, DeviceInfo, UdevDevice}
use libusbp.Udev.Objects.{GotDevice, get_device-GotDevice}
use libusbp.Listing.{Added}
use libusbp.Listing.Creation.{Describes, IsReadable}
use libusbp.Listing.Adding.{Adds, added, failed, add_udev_device-Adds}
use libusbp.Connected.{
  is_listed, add_if_listed, unref_after, add_found, add_if_needed, ignore_error, list_loop,
}

abbrev pub is_usb_device : Option (List ℕ) → Bool → Bool
is_usb_device none is_initialized = false
is_usb_device (some devtype) is_initialized = is_listed devtype is_initialized

-- libudev knows this name as that of an initialized USB device, and describes the device so.
pub record Connects (lib : Libudev) (name : List ℕ) (d : Device) : Type 0 where
  pub dev : UdevDevice
  pub known : lib.device_of_syspath name ≡ some dev.info
  pub is_device : is_usb_device dev.info.devtype dev.info.is_initialized ≡ true
  pub describes : Describes dev d

-- And its three numbers can be read, so that a device can be made of it.
pub record IsAvailable (lib : Libudev) (name : List ℕ) : Type 0 where
  pub info : DeviceInfo
  pub known : lib.device_of_syspath name ≡ some info
  pub is_device : is_usb_device info.devtype info.is_initialized ≡ true
  pub readable : IsReadable info

-- The list with the devices of the names behind the others.
abbrev pub Extends : Libudev → List (List ℕ) → DeviceList → Heap → DeviceList × ℕ → Heap → Type 0
Extends lib names l h (l', count) g =
    Extended (Connects lib) (IsAvailable lib) Device.owned names l h l' count g

-- What one name makes of the list; or an error, and the list as it was.
abbrev pub Goes : Libudev → List ℕ → DeviceList → ℕ → Heap → Added → Heap → Type 0
Goes lib name l count h (none, l', count') g = Extends lib (name ∷ []) l h (l', count') g
Goes lib name l count h (some e, l', count') g =
    (l' ≡ l) × (count' ≡ count) × (IsAvailable lib name → Short h) × Failed e h g

unchanged-Extends :
    (lib : Libudev) (name : List ℕ) (l : DeviceList) (count : ℕ) (h g : Heap)
    → (IsAvailable lib name → Short h)
    → count ≡ length l.devices
    → Moves h no_blocks no_blocks g
    → Extends lib (name ∷ []) l h (l, count) g
unchanged-Extends lib name l count h g lack c m = (
  c,
  (
    ([], sym (append-nil l.devices), skip lack done),
    record { live = λ a. omega (arith, m.live a); same = m.same },
  ),
)

error-Goes :
    (lib : Libudev) (name chars : List ℕ) (l : DeviceList) (count : ℕ) (h : Heap) (e : ErrorPtr)
    (g : Heap)
    → (IsAvailable lib name → Short h)
    → Carries no_blocks chars [] h e g
    → Goes lib name l count h (e, l, count) g
error-Goes lib name chars l count h none g lack m = absurd m
error-Goes lib name chars l count h (some e) g lack m = (refl, refl, lack, (m.valid, m.moves))

module _ (lib : Libudev) (name : List ℕ) (l : DeviceList) (count : ℕ)
    (c : count ≡ length l.devices) where
  Adds-Goes :
      (dev : UdevDevice) (h : Heap) (x : Added) (g : Heap)
      → lib.device_of_syspath name ≡ some dev.info
      → is_usb_device dev.info.devtype dev.info.is_initialized ≡ true
      → Adds dev l count h x g
      → Goes lib name l count h x g
  Adds-Goes dev h _ g k u (added d at s m) = (
    omega (arith, c, length-append l.devices (d ∷ [])),
    (
      (d ∷ [], refl, take (record { dev = dev; known = k; is_device = u; describes = s }) done),
      record { live = λ a. omega (arith, m.live a); same = m.same },
    ),
  )
  Adds-Goes dev h _ g k u (failed e lack f) = (
    refl,
    refl,
    (λ v. lack (subst IsReadable (some-injective _ _ (sym v.known ∙ k)) v.readable)),
    f,
  )

  -- A name that libudev does not know as a device is not available.
  no_device :
      (info : DeviceInfo) (h : Heap)
      → lib.device_of_syspath name ≡ some info
      → is_usb_device info.devtype info.is_initialized ≡ false
      → IsAvailable lib name
      → Short h
  no_device info h k u v = absurd (
      true≢false (
        sym v.is_device
        ∙ ap (λ i. is_usb_device i.devtype i.is_initialized) (some-injective _ _ (sym v.known ∙ k))
        ∙ u))

  add_if_listed-Goes :
      (dev : UdevDevice) (h : Heap)
      → lib.device_of_syspath name ≡ some dev.info
      → Owned (owned l) h
      → Returns (Goes lib name l count h) (add_if_listed dev l count dev.info.devtype h)
  unfolding add_if_listed
  add_if_listed-Goes dev h k o = elim (Option-cases dev.info.devtype) [
    | inl t ↦ simp t (
        Returns.bind (error_create-Carries _ h) λ e g m.
          returns (error-Goes lib name _ l count h e g (no_device dev.info h k (rw t refl)) m))
    | inr (devtype, t) ↦ elim (Bool-cases (is_listed devtype dev.info.is_initialized)) [
      | inl u ↦
          simp (t, u)
            (Returns.mono (add_udev_device-Adds dev l count h c o)
              λ x g m. Adds-Goes dev h x g k (rw t u) m)
      | inr u ↦
          simp (t, u)
            (returns (
              unchanged-Extends lib name l count h h (no_device dev.info h k (rw t u)) c
                (record { live = λ a. refl; same = refl })))
    ]
  ]

  unref_after-Goes :
      (dev : UdevDevice) (h g : Heap) (x : Added) (k : Heap)
      → Moves h no_blocks (block dev.at) g
      → Owned (owned l) h
      → Goes lib name l count g x k
      → Returns (Goes lib name l count h) (unref_after dev x k)
  unfolding unref_after
  unref_after-Goes dev h g (none, l', count') k m o (c', ((new, q, s), n)) =
      Returns.bind (free-Moves (some dev.at) k (λ b. omega (arith, o b, m.live b, n.live b)))
        λ _ j f. returns (
          c',
          (
            (new, q, Selects-before m s),
            record {
              live = λ b. omega (arith, m.live b, n.live b, f.live b);
              same = f.same ∙ n.same ∙ m.same;
            },
          ),
        )
  unref_after-Goes dev h g (some e, l', count') k m o (p, q, lack, (v, n)) =
      Returns.bind (free-Moves (some dev.at) k (λ b. omega (arith, m.live b, n.live b))) λ _ j f.
        returns (
          p,
          q,
          (λ u. Short-before m (lack u)),
          (
            v,
            record {
              live = λ b. omega (arith, m.live b, n.live b, f.live b);
              same = f.same ∙ n.same ∙ m.same;
            },
          ),
        )

  unknown :
      (h : Heap) → Short h ⊎ (lib.device_of_syspath name ≡ none) → IsAvailable lib name → Short h
  unknown h (inl lack) u = lack
  unknown h (inr q) u = absurd (some≢none (sym u.known ∙ q))

  add_found-Goes :
      (h : Heap) (x : ErrorPtr × Option UdevDevice) (g : Heap)
      → Owned (owned l) h
      → GotDevice (lib.device_of_syspath name) h x g
      → Returns (Goes lib name l count h) (add_found l count x g)
  unfolding add_found
  add_found-Goes h (none, none) g o m = absurd m
  add_found-Goes h (some e, dev) g o (p, (q, f)) = returns (refl, refl, unknown h q, f)
  add_found-Goes h (none, some dev) g o m =
      Returns.bind (add_if_listed-Goes dev g m.0 (λ a. omega (arith, o a, m.1.live a)))
        λ x k n. unref_after-Goes dev h g x k m.1 o n

  add_if_needed-Goes :
      (h : Heap)
      → Owned (owned l) h
      → Returns (Goes lib name l count h) (add_if_needed lib name l count h)
  unfolding add_if_needed
  add_if_needed-Goes h o =
      Returns.bind (get_device-GotDevice lib name h) λ x g m. add_found-Goes h x g o m

-- The error of one name is freed, and the loop goes on with the list as it was.
ignore_error-Extends :
    (lib : Libudev) (name : List ℕ) (names : List (List ℕ))
    (more : DeviceList → ℕ → M (DeviceList × ℕ)) (l : DeviceList) (count : ℕ) (h : Heap) (x : Added)
    (g : Heap)
    → count ≡ length l.devices
    → Owned (owned l) h
    → Goes lib name l count h x g
    → ((l' : DeviceList) (count' : ℕ) (k : Heap)
        → count' ≡ length l'.devices
        → Owned (owned l') k
        → Returns (Extends lib names l' k) (more l' count' k))
    → Returns (Extends lib (name ∷ names) l h) (ignore_error more x g)
unfolding ignore_error
ignore_error-Extends lib name names more l count h (none, l', count') g c o n next =
    Returns.mono (next l' count' g n.0 (λ a. omega (arith, o a, n.1.1.live a)))
      λ x k n'. Extended-then Device.owned (name ∷ []) names l l' x.0 n n'
ignore_error-Extends lib name names more l count h (some e, l', count') g c o (p, q, lack, (v, n))
      next =
    Returns.bind (error_free-Moves (some e) g (λ a. omega (arith, n.live a))) λ _ j f.
      let m : Moves h no_blocks no_blocks j = record {
        live = λ a. omega (arith, n.live a, f.live a);
        same = f.same ∙ n.same;
      } in
      simp (p, q)
        (Returns.mono (next l count j c (λ a. omega (arith, o a, m.live a))) λ x k n'.
          Extended-then Device.owned (name ∷ []) names l l x.0
            (unchanged-Extends lib name l count h j lack c m) n')

pub list_loop-Extends :
    (lib : Libudev) (names : List (List ℕ)) (l : DeviceList) (count : ℕ) (h : Heap)
    → count ≡ length l.devices
    → Owned (owned l) h
    → Returns (Extends lib names l h) (list_loop lib names l count h)
unfolding list_loop
list_loop-Extends lib [] l count h c o =
    returns (c, (([], sym (append-nil l.devices), done), record { live = λ a. refl; same = refl }))
list_loop-Extends lib (name ∷ names) l count h c o =
    Returns.bind (add_if_needed-Goes lib name l count c h o) λ x g m.
      ignore_error-Extends lib name names (list_loop lib names) l count h x g c o m
        λ l' count' k c' o'. list_loop-Extends lib names l' count' k c' o'
