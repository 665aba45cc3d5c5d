-- ===== src/Interface/Success.antt =====
-- When the creation of an interface succeeds.
use libusbp.Base.{
  ℕ, ◌≡◌, refl, sym, ap, ◌∙◌, inl, inr, true, true≢false, none, some, some-injective, some≢none,
  List,
}
use libusbp.Heap.{Heap}
use libusbp.Heap.Moves.{Plenty, Short}
use libusbp.Heap.Returns
use libusbp.Heap.Returns.{Returns}
use libusbp.Error.{Error}
use libusbp.Usbfd.{Reply, equals}
use libusbp.Device.{Device}
use libusbp.Udev.{Libudev, DeviceInfo}
use libusbp.Udev.Objects.{RefusesUsb}
use libusbp.Finding.Loop.{Outcome}
use libusbp.Finding.Found.{Misses, short, refused, broken_off, absent, interface_of}
use libusbp.Interface.{Interface, Created, interface_create}
use libusbp.Interface.Ends.{is_accepted_driver}
use libusbp.Interface.Creation.{
  node_of, Makes, Fails, lacks_memory, finds_none, wrong_driver, no_devnode, no_file, CreatesFrom,
  interface_create-CreatesFrom,
}

not-Short : (h : Heap) → Plenty h → Short h → ⊥
not-Short h p (n, z) = true≢false (sym (p n) ∙ z)

-- The enumeration of the USB devices is not refused.
pub record Enumerates (lib : Libudev) : Type 0 where
  pub matched : equals lib.add_match_subsystem 0 ≡ true
  pub scanned : equals lib.scan_devices 0 ≡ true

not-RefusesUsb : {lib : Libudev} → Enumerates lib → RefusesUsb lib → ⊥
not-RefusesUsb e (inl z) = true≢false (sym e.matched ∙ z)
not-RefusesUsb e (inr z) = true≢false (sym e.scanned ∙ z)

found-Misses :
    {lib : Libudev} {s : Outcome} {info : DeviceInfo} {message : List ℕ} (h : Heap) {e : Error}
    → Plenty h
    → Enumerates lib
    → s ≡ some (some info)
    → Misses (RefusesUsb lib) s message h e
    → ⊥
found-Misses h p n q (short lack) = not-Short h p lack
found-Misses h p n q (refused r) = not-RefusesUsb n r
found-Misses h p n q (broken_off b) = some≢none (sym q ∙ b)
found-Misses h p n q (absent b t) = some≢none (some-injective _ _ (sym q ∙ b))

module _ (lib : Libudev) (access : List ℕ → Reply) (n : ℕ) (path : List ℕ) (info : DeviceInfo)
    (filename : List ℕ) where
  -- The interface is there, with a driver that the library accepts, and the device has a node that
  -- exists.
  pub record IsReady : Type 0 where
    pub enumerates : Enumerates lib
    pub found : interface_of lib path n ≡ some (some info)
    pub driver : is_accepted_driver info.driver ≡ true
    pub has_node : node_of lib path ≡ some filename
    pub exists : equals (access filename).result 0 ≡ true

  ready-Fails : (h : Heap) (e : Error) → Plenty h → IsReady → Fails lib access n path h e → ⊥
  ready-Fails h e p r (lacks_memory lack) = not-Short h p lack
  ready-Fails h e p r (finds_none message inner m w) = found-Misses h p r.enumerates r.found m
  ready-Fails h e p r (wrong_driver info' q z) =
      let same : info ≡ info' = some-injective _ _ (some-injective _ _ (sym r.found ∙ q)) in
      true≢false (sym r.driver ∙ ap (λ i. is_accepted_driver i.driver) same ∙ z)
  ready-Fails h e p r (no_devnode b) = some≢none (sym r.has_node ∙ b)
  ready-Fails h e p r (no_file f inner q z w) =
      let same : filename ≡ f = some-injective _ _ (sym r.has_node ∙ q) in
      true≢false (sym r.exists ∙ ap (λ f. equals (access f).result 0) same ∙ z.0)

abbrev pub Succeeds : Libudev → (List ℕ → Reply) → ℕ → Device → Created → Heap → Type 0
Succeeds lib access n d (e, gi) g =
    (e ≡ none)
    × ((made : Interface) × ((gi ≡ some made) × Makes lib access n d d.syspath.chars made))

-- Where memory suffices, the enumeration is not refused, and the interface is there with no driver,
-- or usbfs or cp210x, the two that the code accepts, and a device node that exists, `libusbp_generic_interface_create` returns no error and an
-- interface object for it.
pub interface_create-Succeeds :
    (lib : Libudev) (access : List ℕ → Reply) (n : ℕ) (d : Device) (info : DeviceInfo)
    (filename : List ℕ) (h : Heap)
    → Plenty h
    → IsReady lib access n d.syspath.chars info filename
    → Returns (Succeeds lib access n d) (interface_create lib access n (some d) h)
interface_create-Succeeds lib access n d info filename h p r =
    Returns.mono (interface_create-CreatesFrom lib access n d h) λ x g c. go x g c
  where
    go :
        (x : Created) (g : Heap)
        → CreatesFrom lib access n d h d.syspath.chars x g
        → Succeeds lib access n d x g
    go (none, none) g c = absurd c
    go (none, some gi) g (m, f) = (refl, (gi, (refl, m)))
    go (some e, x) g (q, (why, f)) =
        absurd (ready-Fails lib access n d.syspath.chars info filename h e p r why)
