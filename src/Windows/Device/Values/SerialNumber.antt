-- ===== src/Windows/Device/Values/SerialNumber.antt =====
-- The serial number in the instance ID of a device.
use libusbp.Base.{
  ℕ, ◌≡◌, refl, Bool, true, false, Bool-cases, inl, inr, Option, none, some, List, [], ◌∷◌, ◌++◌,
  arith, text, length, ltb, ◌==◌, if◌then◌else◌, ap, sym, subst, ◌∙◌,
}
use libusbp.Print.{hex}
use libusbp.Windows.HardwareIds.{capitalize}
use libusbp.Heap.{Heap, no_blocks, block}
use libusbp.Heap.Moves.{Short}
use libusbp.Heap.Returns
use libusbp.Heap.Returns.{Returns, returns}
use libusbp.Error.{ErrorPtr, Text, chars_of, codes_of}
use libusbp.Error.Message.{joined}
use libusbp.Error.Chain.{Carries, error_create-Carries, error_add-Carries}
use libusbp.Steps.{Gets}
use libusbp.Device.Steps.{GetsText, string_copy-GetsText}
use libusbp.Windows.Device.{Device}
use libusbp.Windows.Device.Values.{
  from_index, add_failure, serial_number_of, read_serial_number, device_get_serial_number,
}

abbrev failure : List ℕ
failure = text "Failed to get serial number."

abbrev too_short : List ℕ
too_short = text "Device instance ID is too short."

add_failure-GetsText :
    (t : Text) (h : Heap) (x : ErrorPtr × Option Text) (g : Heap)
    → GetsText t h x g
    → Returns (GetsText t h) (add_failure x g)
unfolding add_failure
add_failure-GetsText t h (none, none) g n = absurd n
add_failure-GetsText t h (none, some c) g n = returns n
add_failure-GetsText t h (some e, x) g (q, (lack, (v, m))) =
    Returns.bind
      (error_add-Carries (some e) failure (chars_of e.message) (codes_of e.code_array) g
        (λ a. omega arith) (record { moves = m; valid = v; tells = inl (refl, refl) }))
      λ r k c. returns (go r k c)
  where
    go :
        (r : ErrorPtr) (k : Heap)
        → Carries no_blocks (joined failure (chars_of e.message)) (codes_of e.code_array) h r k
        → GetsText t h (r, x) k
    go none k c = absurd c
    go (some r) k c = (q, (lack, (c.valid, c.moves)))

-- The characters behind the first 22, or an error for an instance ID that has fewer.
abbrev GetsSerialNumber : List ℕ → Heap → ErrorPtr × Option Text → Heap → Type 0
GetsSerialNumber id h (e, s) g =
    if ltb (length id) 22
    then (s ≡ none) × Carries no_blocks (joined failure too_short) [] h e g
    else GetsText (record { at = 0; chars = from_index 22 id }) h (e, s) g

-- The same before the message of the caller is added.
abbrev GetsPart : List ℕ → Heap → ErrorPtr × Option Text → Heap → Type 0
GetsPart id h (e, s) g =
    if ltb (length id) 22
    then (s ≡ none) × Carries no_blocks too_short [] h e g
    else GetsText (record { at = 0; chars = from_index 22 id }) h (e, s) g

serial_number_of-GetsPart :
    (id : List ℕ) (h : Heap) → Returns (GetsPart id h) (serial_number_of id h)
unfolding serial_number_of
serial_number_of-GetsPart id h = elim (Bool-cases (ltb (length id) 22)) [
  | inl z ↦
      simp z (Returns.bind (error_create-Carries too_short h) λ e g c. returns (simp z (refl, c)))
  | inr z ↦ simp z (Returns.mono (string_copy-GetsText _ h) λ (e, s) g n. simp z n)
]

short-Carries :
    (h : Heap) (e : ErrorPtr) (s : Option Text) (g : Heap)
    → s ≡ none
    → Carries no_blocks too_short [] h e g
    → Returns
        (λ x k. (x.1 ≡ none) × Carries no_blocks (joined failure too_short) [] h x.0 k)
        (add_failure (e, s) g)
unfolding add_failure
short-Carries h none s g q c = absurd c
short-Carries h (some e) s g q c =
    Returns.bind (error_add-Carries (some e) failure _ _ g (λ a. omega arith) c)
      λ r k c'. returns (q, c')

read_serial_number-GetsSerialNumber :
    (id : Text) (h : Heap) → Returns (GetsSerialNumber id.chars h) (read_serial_number (some id) h)
unfolding read_serial_number
read_serial_number-GetsSerialNumber id h =
    Returns.bind (serial_number_of-GetsPart id.chars h) λ (e, s) g n.
      elim (Bool-cases (ltb (length id.chars) 22)) [
        | inl z ↦
            let n' : (s ≡ none) × Carries no_blocks too_short [] h e g = simp z at n in
            Returns.mono (short-Carries h e s g n'.0 n'.1) λ (e', s') k m. simp z m
        | inr z ↦
            let t : Text = record { at = 0; chars = from_index 22 id.chars } in
            let n' : GetsText t h (e, s) g = simp z at n in
            Returns.mono (add_failure-GetsText t h (e, s) g n') λ (e', s') k m. simp z m
      ]

-- What is copied, or why nothing is.
device_get_serial_number-GetsSerialNumber :
    (d : Device) (id : Text) (h : Heap)
    → d.device_instance_id ≡ some id
    → Returns (GetsSerialNumber id.chars h) (device_get_serial_number (some d) h)
unfolding device_get_serial_number
device_get_serial_number-GetsSerialNumber d id h q =
    simp q (read_serial_number-GetsSerialNumber id h)

-- The instance ID that Windows makes of the IDs and the serial number of a USB device.
abbrev pub instance_id : (vendor_id product_id : ℕ) → List ℕ → List ℕ
instance_id vendor_id product_id serial =
    text "USB\\VID_"
    ++ (capitalize (hex 4 vendor_id [])
        ++ (text "&PID_" ++ (capitalize (hex 4 product_id []) ++ (text "\\" ++ serial))))

abbrev or_here : Option (List ℕ) → Bool → List ℕ → Option (List ℕ)
or_here (some later) here s = some later
or_here none true s = some s
or_here none false s = none

-- What stands behind the last slash, if there is one.
abbrev pub last_segment : List ℕ → Option (List ℕ)
last_segment [] = none
last_segment (c ∷ s) = or_here (last_segment s) (c == b'\\') s

module _ (vendor_id product_id : ℕ) (serial : List ℕ) where
  instance_id-length : ltb (length (instance_id vendor_id product_id serial)) 22 ≡ false
  unfolding hex capitalize
  instance_id-length = ground arith

  from_index-instance_id : from_index 22 (instance_id vendor_id product_id serial) ≡ serial
  unfolding hex capitalize
  from_index-instance_id = refl

  last_segment-instance_id :
      last_segment serial ≡ none
      → last_segment (instance_id vendor_id product_id serial) ≡ some serial
  unfolding hex capitalize
  last_segment-instance_id q = simp q refl

-- A copy of the segment of an instance ID behind the last slash; or an error, where a request for
-- memory fails.
abbrev pub GetsSegment : List ℕ → Heap → ErrorPtr × Option Text → Heap → Type 0
GetsSegment id h = Gets (λ _. Short h) (λ c. last_segment id ≡ some c.chars) (λ c. block c.at) h

segment-Gets :
    (v p : ℕ) (serial : List ℕ) (h : Heap) (x : ErrorPtr × Option Text) (g : Heap)
    → last_segment serial ≡ none
    → GetsText (record { at = 0; chars = from_index 22 (instance_id v p serial) }) h x g
    → GetsSegment (instance_id v p serial) h x g
segment-Gets v p serial h (none, none) g q n = n
segment-Gets v p serial h (none, some c) g q (same, m) = (
  last_segment-instance_id v p serial q
      ∙ ap some (sym (from_index-instance_id v p serial) ∙ sym same),
  m,
)
segment-Gets v p serial h (some e, x) g q n = n

to_GetsSegment :
    (v p : ℕ) (serial : List ℕ) (h : Heap) (x : ErrorPtr × Option Text) (g : Heap)
    → last_segment serial ≡ none
    → GetsSerialNumber (instance_id v p serial) h x g
    → GetsSegment (instance_id v p serial) h x g
to_GetsSegment v p serial h (e, s) g q n =
    segment-Gets v p serial h (e, s) g q (simp (instance_id-length v p serial) at n)

-- For an instance ID `USB\VID_xxxx&PID_xxxx\serial`, whose serial number has no slash in it,
-- `libusbp_device_get_serial_number` copies the segment behind the last slash of the ID; or it gives
-- an error, where a request for memory fails.
pub device_get_serial_number-GetsSegment :
    (d : Device) (id : Text) (vendor_id product_id : ℕ) (serial : List ℕ) (h : Heap)
    → d.device_instance_id ≡ some id
    → id.chars ≡ instance_id vendor_id product_id serial
    → last_segment serial ≡ none
    → Returns (GetsSegment id.chars h) (device_get_serial_number (some d) h)
device_get_serial_number-GetsSegment d id v p serial h q r no_slash =
    Returns.mono (device_get_serial_number-GetsSerialNumber d id h q) λ x g n.
      subst (λ i. GetsSegment i h x g) (sym r)
        (to_GetsSegment v p serial h x g no_slash (subst (λ i. GetsSerialNumber i h x g) r n))
