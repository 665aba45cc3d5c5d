-- ===== src/Device/Steps.antt =====
-- Copies of strings and devices as steps of a longer function.
use libusbp.Base.{◌+◌, Option, none, some, ◌≡◌, refl}
use libusbp.Heap.{Heap, Blocks, no_blocks, M, ◌>>◌, block, block?}
use libusbp.Heap.Moves.{Moves, Short}
use libusbp.Heap.Returns
use libusbp.Heap.Returns.{Returns}
use libusbp.Error.{Error, Text, ErrorPtr, error_no_memory, text_block}
use libusbp.Steps.{proceed, Gets, Ends, then-Ends, free-Ends}
use libusbp.Device.{
  Device, Copied, owned, owned?, device_free, string_free, string_copy, device_copy,
  device_get_os_id,
}
use libusbp.Device.Copy.{
  CopiesText, string_copy-CopiesText, SameText, CopiesDevice, device_copy-CopiesDevice,
  device_free-Moves, copied, no_memory,
}

-- A text with the same characters in a block of its own; or an error, where a request for memory
-- fails.
abbrev pub GetsText : Text → Heap → ErrorPtr × Option Text → Heap → Type 0
GetsText t h = Gets (λ _. Short h) (λ c. c.chars ≡ t.chars) (λ c. block c.at) h

to_GetsText :
    (t : Text) (h : Heap) (x : ErrorPtr × Option Text) (g : Heap)
    → CopiesText t h x g
    → GetsText t h x g
to_GetsText t h _ g (copied c q m) = (q, record { live = m.live; same = m.same })
to_GetsText t h _ g (no_memory lack m) = (
  refl,
  (lack, (record { counted = refl; has_message = refl }, record { live = m.live; same = m.same })),
)

pub string_copy-GetsText : (t : Text) (h : Heap) → Returns (GetsText t h) (string_copy t h)
string_copy-GetsText t h = Returns.mono (string_copy-CopiesText t h) λ x g c. to_GetsText t h x g c

-- `libusbp_device_get_os_id` of a device copies its syspath.
pub device_get_os_id-GetsText :
    (d : Device) (h : Heap) → Returns (GetsText d.syspath h) (device_get_os_id (some d) h)
unfolding device_get_os_id
device_get_os_id-GetsText d h = string_copy-GetsText d.syspath h

-- Two devices with the same texts and numbers.
pub record SameDevice (d c : Device) : Type 0 where
  pub syspath : c.syspath.chars ≡ d.syspath.chars
  pub serial_number : SameText c.serial_number d.serial_number
  pub product_id : c.product_id ≡ d.product_id
  pub vendor_id : c.vendor_id ≡ d.vendor_id
  pub revision : c.revision ≡ d.revision

abbrev pub GetsDevice : Device → Heap → Copied → Heap → Type 0
GetsDevice d h = Gets (λ _. Short h) (SameDevice d) owned h

to_GetsDevice :
    (d : Device) (h : Heap) (x : Copied) (g : Heap) → CopiesDevice d h x g → GetsDevice d h x g
to_GetsDevice d h _ g (copied c p s i v r m) = (
  record { syspath = p; serial_number = s; product_id = i; vendor_id = v; revision = r },
  record { live = m.live; same = m.same },
)
to_GetsDevice d h _ g (no_memory lack m) = (
  refl,
  (lack, (record { counted = refl; has_message = refl }, record { live = m.live; same = m.same })),
)

pub device_copy-GetsDevice :
    (d : Device) (h : Heap) → Returns (GetsDevice d h) (device_copy (some d) h)
device_copy-GetsDevice d h =
    Returns.mono (device_copy-CopiesDevice d h) λ x g c. to_GetsDevice d h x g c

pub device_free-Ends :
    {B : Type 0} (d : Option Device) (held : Blocks) (k : M B) (b : B)
    → Ends held k b
    → Ends (λ a. owned? d a + held a) (device_free d >> k) b
device_free-Ends d held k b ends =
    then-Ends (device_free d) (owned? d) held k b (λ h o. device_free-Moves d h o) ends

pub string_free-Ends :
    {B : Type 0} (t : Option Text) (held : Blocks) (k : M B) (b : B)
    → Ends held k b
    → Ends (λ a. block? (text_block t) a + held a) (string_free t >> k) b
unfolding string_free
string_free-Ends t held k b ends = free-Ends (text_block t) held k b ends

-- After a copy, where its error is the static one that owns nothing.
module _ {B : Type 0} {R : B → Heap → Type 0} where
  pub CopiesText-Returns :
      {t : Text} {h : Heap} (stop : Error → Option Text → M B) (more : Text → M B)
      (x : ErrorPtr × Option Text) (g : Heap)
      → CopiesText t h x g
      → (Short h → Moves h no_blocks no_blocks g → Returns R (stop error_no_memory none g))
      → ((c : Text) → c.chars ≡ t.chars → Moves h no_blocks (block c.at) g → Returns R (more c g))
      → Returns R (proceed stop more x g)
  unfolding proceed
  CopiesText-Returns stop more _ g (copied c q m) on_error next = next c q m
  CopiesText-Returns stop more _ g (no_memory lack m) on_error next = on_error lack m

  pub CopiesDevice-Returns :
      {d : Device} {h : Heap} (stop : Error → Option Device → M B) (more : Device → M B)
      (x : Copied) (g : Heap)
      → CopiesDevice d h x g
      → (Short h → Moves h no_blocks no_blocks g → Returns R (stop error_no_memory none g))
      → ((c : Device) → SameDevice d c → Moves h no_blocks (owned c) g → Returns R (more c g))
      → Returns R (proceed stop more x g)
  unfolding proceed
  CopiesDevice-Returns stop more _ g (copied c p s i v r m) on_error next =
      next c
        (record { syspath = p; serial_number = s; product_id = i; vendor_id = v; revision = r }) m
  CopiesDevice-Returns stop more _ g (no_memory lack m) on_error next = on_error lack m
