-- ===== src/Finding/Verdicts.antt =====
-- The check whether a device of libudev is the interface that is looked for.
use libusbp.Base.{
  ℕ, ◌≡◌, refl, ap, ◌∙◌, Bool, false, not, Bool-cases, inl, inr, Option, none, some, List, arith,
  text, same_text, ◌==◌, if◌then◌else◌,
}
use libusbp.Heap.{Heap, no_blocks}
use libusbp.Heap.Moves.{Moves}
use libusbp.Heap.Returns
use libusbp.Heap.Returns.{Returns, returns}
use libusbp.Error.{ErrorPtr}
use libusbp.Steps.{Failed, proceed-Returns}
use libusbp.Udev.{DeviceInfo, UdevDevice}
use libusbp.Udev.Objects.{get_device_type-GotOwn, get_parent-GotOwn}
use libusbp.Udev.Sysattrs.{small_number_of, get_sysattr_uint8-GotParsed}
use libusbp.Finding.{
  broken_check, check_parent, check_number, check_if_device_is_specific_interface, is_tty,
  check_tty,
}

abbrev parent_verdict : List ℕ → Option (List ℕ) → Option Bool
parent_verdict device_syspath none = none
parent_verdict device_syspath (some syspath) = some (same_text syspath device_syspath)

abbrev number_verdict : List ℕ → ℕ → DeviceInfo → Option ℕ → Option Bool
number_verdict device_syspath interface_number info none = none
number_verdict device_syspath interface_number info (some actual) =
    if not (actual == interface_number)
    then some false
    else parent_verdict device_syspath info.parent_usb_device

abbrev type_verdict : List ℕ → ℕ → DeviceInfo → Option (List ℕ) → Option Bool
type_verdict device_syspath interface_number info none = none
type_verdict device_syspath interface_number info (some devtype) =
    if not (same_text devtype (text "usb_interface"))
    then some false
    else number_verdict device_syspath interface_number info
        (small_number_of info (text "bInterfaceNumber"))

-- Whether a device is the interface with this number of the device with this syspath, as far as
-- libudev tells.
abbrev pub is_interface :
    (device_syspath : List ℕ) → (interface_number : ℕ) → DeviceInfo → Option Bool
is_interface device_syspath interface_number info =
    type_verdict device_syspath interface_number info info.devtype

-- The answer, and nothing is allocated; or an error, where there is no answer.
abbrev pub Judges : Option Bool → Heap → ErrorPtr × Bool → Heap → Type 0
Judges verdict h (none, correct) g = (verdict ≡ some correct) × Moves h no_blocks no_blocks g
Judges verdict h (some e, correct) g = (verdict ≡ none) × Failed e h g

Judges-after :
    {v w : Option Bool} {h g : Heap} (x : ErrorPtr × Bool) (k : Heap)
    → v ≡ w
    → Moves h no_blocks no_blocks g
    → Judges w g x k
    → Judges v h x k
Judges-after (none, correct) k q m (r, n) =
    (q ∙ r, record { live = λ a. omega (arith, m.live a, n.live a); same = n.same ∙ m.same })
Judges-after (some e, correct) k q m (r, (v, n)) =
    (q ∙ r, (v, record { live = λ a. omega (arith, m.live a, n.live a); same = n.same ∙ m.same }))

check_parent-Judges :
    (device_syspath : List ℕ) (dev : UdevDevice) (h : Heap)
    → Returns
        (Judges (parent_verdict device_syspath dev.info.parent_usb_device) h)
        (check_parent device_syspath dev h)
unfolding check_parent broken_check
check_parent-Judges device_syspath dev h = Returns.bind (get_parent-GotOwn dev h) λ x g m.
    proceed-Returns broken_check _ x g m
      (λ e q f. returns (ap (parent_verdict device_syspath) q, f))
      λ syspath q n. returns (ap (parent_verdict device_syspath) q, n)

check_number-Judges :
    (device_syspath : List ℕ) (interface_number : ℕ) (dev : UdevDevice) (h : Heap)
    → Returns
        (Judges
          (number_verdict device_syspath interface_number dev.info
            (small_number_of dev.info (text "bInterfaceNumber")))
          h)
        (check_number device_syspath interface_number dev h)
unfolding check_number broken_check
check_number-Judges device_syspath interface_number dev h =
    let verdict : Option ℕ → Option Bool =
      λ value. number_verdict device_syspath interface_number dev.info value in
    Returns.bind (get_sysattr_uint8-GotParsed dev (text "bInterfaceNumber") h) λ x g m.
      proceed-Returns broken_check _ x g m (λ e q f. returns (ap verdict q, f))
        λ actual q n. elim (Bool-cases (actual == interface_number)) [
          | inl z ↦ simp z (
              Returns.mono (check_parent-Judges device_syspath dev g)
                λ x k j. Judges-after x k (ap verdict q ∙ simp z refl) n j)
          | inr z ↦ simp z (returns (ap verdict q ∙ simp z refl, n))
        ]

-- The check for an interface answers as libudev tells: whether the device is a USB interface, has
-- the number and has the USB device with the syspath above it. It returns an error only where
-- libudev does not tell what it asks for, and allocates nothing but that.
pub check_interface-Judges :
    (device_syspath : List ℕ) (interface_number : ℕ) (dev : UdevDevice) (h : Heap)
    → Returns
        (Judges (is_interface device_syspath interface_number dev.info) h)
        (check_if_device_is_specific_interface device_syspath interface_number dev h)
unfolding check_if_device_is_specific_interface broken_check
check_interface-Judges device_syspath interface_number dev h =
    let verdict : Option (List ℕ) → Option Bool =
      λ devtype. type_verdict device_syspath interface_number dev.info devtype in
    Returns.bind (get_device_type-GotOwn dev h) λ x g m.
      proceed-Returns broken_check _ x g m (λ e q f. returns (ap verdict q, f))
        λ devtype q n. elim (Bool-cases (same_text devtype (text "usb_interface"))) [
          | inl z ↦ simp z (
              Returns.mono (check_number-Judges device_syspath interface_number dev g)
                λ x k j. Judges-after x k (ap verdict q ∙ simp z refl) n j)
          | inr z ↦ simp z (returns (ap verdict q ∙ simp z refl, n))
        ]

abbrev pub is_tty? : DeviceInfo → Option Bool
is_tty? info = some (is_tty info.subsystem)

pub check_tty-Judges :
    (dev : UdevDevice) (h : Heap) → Returns (Judges (is_tty? dev.info) h) (check_tty dev h)
unfolding check_tty
check_tty-Judges dev h = returns (refl, record { live = λ a. refl; same = refl })
