-- ===== src/Device/Getters.antt =====
-- What the getters of a device give the caller.
use libusbp.Base.{◌≡◌, refl, Option, none, some, [], ◌∷◌, text, arith}
use libusbp.Heap.{Heap, no_blocks}
use libusbp.Heap.Returns
use libusbp.Heap.Returns.{Returns, returns}
use libusbp.Error.{Text, ErrorPtr, error_no_serial_number}
use libusbp.Error.Chain.{Carries, error_create-Carries, error_add_code-Carries}
use libusbp.Device.{Device, serial_number_of, device_get_serial_number}
use libusbp.Device.Copy.{CopiesText, string_copy-CopiesText}

abbrev pub GotFrom : Option Text → Heap → ErrorPtr × Option Text → Heap → Type 0
GotFrom none h (e, s) g =
    Carries no_blocks (text "Device does not have a serial number.") (error_no_serial_number ∷ []) h
      e g
    × (s ≡ none)
GotFrom (some t) h r g = CopiesText t h r g

-- The serial number as a copy; or an error, and NULL.
abbrev pub GotSerialNumber : Option Device → Heap → ErrorPtr × Option Text → Heap → Type 0
GotSerialNumber none h (e, s) g = Carries no_blocks (text "Device is null.") [] h e g × (s ≡ none)
GotSerialNumber (some d) h r g = GotFrom d.serial_number h r g

serial_number_of-GotFrom :
    (s : Option Text) (h : Heap) → Returns (GotFrom s h) (serial_number_of s h)
unfolding serial_number_of
serial_number_of-GotFrom none h = Returns.bind (error_create-Carries _ h) λ e g c.
    Returns.bind (error_add_code-Carries e error_no_serial_number _ [] g (λ a. omega arith) c)
      λ e' k c'. returns (c', refl)
serial_number_of-GotFrom (some s) h = string_copy-CopiesText s h

-- `libusbp_device_get_serial_number` copies the serial number. For a device without one it returns
-- an error that says so and has the code LIBUSBP_ERROR_NO_SERIAL_NUMBER, and for a NULL device an
-- error without codes; if memory runs out, the error has the code for that.
pub get_serial_number-GotSerialNumber :
    (d : Option Device) (h : Heap) → Returns (GotSerialNumber d h) (device_get_serial_number d h)
unfolding device_get_serial_number
get_serial_number-GotSerialNumber none h =
    Returns.bind (error_create-Carries _ h) λ e g c. returns (c, refl)
get_serial_number-GotSerialNumber (some d) h = serial_number_of-GotFrom d.serial_number h
