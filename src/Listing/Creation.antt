-- ===== src/Listing/Creation.antt =====
-- Making a device from what libudev knows of it.
use libusbp.Base.{ℕ, ◌+◌, ◌≡◌, refl, ap, ◌∙◌, sym, some≢none, Option, none, some, List, text, arith}
use libusbp.Heap.{Heap, no_blocks, block, block?, M, pure}
use libusbp.Heap.Moves.{Moves, Short, Short-before, Gave, malloc-Gave}
use libusbp.Heap.Returns
use libusbp.Heap.Returns.{Returns, returns}
use libusbp.Error.{Error, ErrorPtr, Text, error_no_memory, text_block}
use libusbp.Error
use libusbp.Error.Ownership.{IsValid}
use libusbp.Device
use libusbp.Device.{Device}
use libusbp.Device.Copy.{CopiesText, copied, no_memory, free_three}
use libusbp.Steps.{Failed}
use libusbp.Udev.{DeviceInfo, UdevDevice}
use libusbp.Udev.Sysattrs.{
  number_in, number_of, GotNumber, get_sysattr_uint16-GotNumber, CopiesIfExists,
  get_sysattr-CopiesIfExists, get_syspath_copy-CopiesText, copy_of,
}
use libusbp.Listing.{
  Created, clean_up, with_serial_number, with_number, read_serial_number, read_revision,
  read_product_id, with_syspath, create_at, device_create,
}

abbrev pub chars_of? : Option Text → Option (List ℕ)
chars_of? none = none
chars_of? (some t) = some t.chars

-- The device as libudev describes it.
pub record Describes (dev : UdevDevice) (d : Device) : Type 0 where
  pub syspath : d.syspath.chars ≡ dev.info.syspath
  pub vendor_id : number_of dev (text "idVendor") ≡ some d.vendor_id
  pub product_id : number_of dev (text "idProduct") ≡ some d.product_id
  pub revision : number_of dev (text "bcdDevice") ≡ some d.revision
  pub serial_number : chars_of? d.serial_number ≡ dev.info.sysattr (text "serial")

-- The three numbers of the device can be read.
pub record IsReadable (info : DeviceInfo) : Type 0 where
  pub vendor_id : (n : ℕ) × (number_in info (text "idVendor") ≡ some n)
  pub product_id : (n : ℕ) × (number_in info (text "idProduct") ≡ some n)
  pub revision : (n : ℕ) × (number_in info (text "bcdDevice") ≡ some n)

-- A device that owns what was allocated; or an error that does, and no device, where a number cannot
-- be read or a request for memory fails.
abbrev pub IsCreated : UdevDevice → Heap → Created → Heap → Type 0
IsCreated dev h (none, none) g = ⊥
IsCreated dev h (none, some d) g = Describes dev d × Moves h no_blocks (Device.owned d) g
IsCreated dev h (some e, none) g = (IsReadable dev.info → Short h) × Failed e h g
IsCreated dev h (some e, some d) g = ⊥

clean_up-IsCreated :
    (dev : UdevDevice) (e : Error) (p q r : Option ℕ) (h g : Heap)
    → (IsReadable dev.info → Short h)
    → IsValid e
    → Moves h no_blocks (λ a. Error.owned e a + (block? p a + block? q a + block? r a)) g
    → Returns (IsCreated dev h) (clean_up (some e) p q r g)
unfolding clean_up
clean_up-IsCreated dev e p q r h g lack v m =
    free_three (pure (some e, none)) p q r g (λ a. omega (arith, m.live a))
      λ k f. returns (
        lack,
        (v, record { live = λ a. omega (arith, m.live a, f.live a); same = f.same ∙ m.same }),
      )

with_number-IsCreated :
    (dev : UdevDevice) (name : List ℕ) (at : ℕ) (syspath : Text) (more : ℕ → M Created) (h g : Heap)
    (x : ErrorPtr × Option ℕ) (k : Heap)
    → Moves h no_blocks (λ a. block at a + block syspath.at a) g
    → GotNumber dev name g x k
    → (IsReadable dev.info → (n : ℕ) × (number_of dev name ≡ some n))
    → ((v : ℕ) (j : Heap)
        → number_of dev name ≡ some v
        → Moves h no_blocks (λ a. block at a + block syspath.at a) j
        → Returns (IsCreated dev h) (more v j))
    → Returns (IsCreated dev h) (with_number at syspath more x k)
unfolding with_number
with_number-IsCreated dev name at syspath more h g (none, none) k m n readable next = absurd n
with_number-IsCreated dev name at syspath more h g (none, some v) k m n readable next =
    next v k n.0
      (record { live = λ a. omega (arith, m.live a, n.1.live a); same = n.1.same ∙ m.same })
with_number-IsCreated dev name at syspath more h g (some e, v) k m n readable next =
    clean_up-IsCreated dev e none (some syspath.at) (some at) h k
      (λ u. absurd (some≢none (sym (readable u).1 ∙ n.1.0))) n.1.1.0
      (record { live = λ a. omega (arith, m.live a, n.1.1.1.live a); same = n.1.1.1.same ∙ m.same })

no_memory-IsValid : IsValid error_no_memory
no_memory-IsValid = record { counted = refl; has_message = refl }

module _ (dev : UdevDevice) (at : ℕ) (syspath : Text) (h : Heap)
    (path : syspath.chars ≡ dev.info.syspath) where
  module _ (vendor product revision : ℕ) (v : number_of dev (text "idVendor") ≡ some vendor)
      (p : number_of dev (text "idProduct") ≡ some product)
      (r : number_of dev (text "bcdDevice") ≡ some revision) where
    with_serial-IsCreated :
        (s : Option (List ℕ)) (x : ErrorPtr × Option Text) (g k : Heap)
        → Moves h no_blocks (λ a. block at a + block syspath.at a) g
        → dev.info.sysattr (text "serial") ≡ s
        → CopiesIfExists s g x k
        → Returns (IsCreated dev h) (with_serial_number at syspath vendor product revision x k)
    unfolding with_serial_number
    with_serial-IsCreated none (e, s) g k m q c =
        simp (ap (λ x. x.0) c.0, ap (λ x. x.1) c.0)
          (returns (
            record {
              syspath = path;
              vendor_id = v;
              product_id = p;
              revision = r;
              serial_number = sym q;
            },
            record {
              live = λ a. omega (arith, m.live a, ap (λ k. k.live a) c.1);
              same = ap (λ k. k.surroundings) c.1 ∙ m.same;
            },
          ))
    with_serial-IsCreated (some str) _ g k m q (copied t u w) = returns (
      record {
        syspath = path;
        vendor_id = v;
        product_id = p;
        revision = r;
        serial_number = ap some u ∙ sym q;
      },
      record { live = λ a. omega (arith, m.live a, w.live a); same = w.same ∙ m.same },
    )
    with_serial-IsCreated (some str) _ g k m q (no_memory lack w) =
        clean_up-IsCreated dev error_no_memory none (some syspath.at) (some at) h k
          (λ _. Short-before m lack) no_memory-IsValid
          (record { live = λ a. omega (arith, m.live a, w.live a); same = w.same ∙ m.same })

    serial-IsCreated :
        (g : Heap)
        → Moves h no_blocks (λ a. block at a + block syspath.at a) g
        → Returns (IsCreated dev h) (read_serial_number dev at syspath vendor product revision g)
    unfolding read_serial_number
    serial-IsCreated g m =
        Returns.bind (get_sysattr-CopiesIfExists dev (text "serial") g)
          λ x k c. with_serial-IsCreated _ x g k m refl c

  revision-IsCreated :
      (vendor product : ℕ) (g : Heap)
      → number_of dev (text "idVendor") ≡ some vendor
      → number_of dev (text "idProduct") ≡ some product
      → Moves h no_blocks (λ a. block at a + block syspath.at a) g
      → Returns (IsCreated dev h) (read_revision dev at syspath vendor product g)
  unfolding read_revision
  revision-IsCreated vendor product g v p m =
      Returns.bind (get_sysattr_uint16-GotNumber dev (text "bcdDevice") g) λ x k n.
        with_number-IsCreated dev _ at syspath _ h g x k m n (λ u. u.revision)
          λ revision j r f. serial-IsCreated vendor product revision v p r j f

  product-IsCreated :
      (vendor : ℕ) (g : Heap)
      → number_of dev (text "idVendor") ≡ some vendor
      → Moves h no_blocks (λ a. block at a + block syspath.at a) g
      → Returns (IsCreated dev h) (read_product_id dev at syspath vendor g)
  unfolding read_product_id
  product-IsCreated vendor g v m =
      Returns.bind (get_sysattr_uint16-GotNumber dev (text "idProduct") g) λ x k n.
        with_number-IsCreated dev _ at syspath _ h g x k m n (λ u. u.product_id)
          λ product j p f. revision-IsCreated vendor product j v p f

  vendor-IsCreated :
      (g : Heap)
      → Moves h no_blocks (λ a. block at a + block syspath.at a) g
      → Returns (IsCreated dev h) (with_syspath dev at (none, some syspath) g)
  unfolding with_syspath
  vendor-IsCreated g m =
      Returns.bind (get_sysattr_uint16-GotNumber dev (text "idVendor") g) λ x k n.
        with_number-IsCreated dev _ at syspath _ h g x k m n (λ u. u.vendor_id)
          λ vendor j v f. product-IsCreated vendor j v f

with_syspath-IsCreated :
    (dev : UdevDevice) (at : ℕ) (x : ErrorPtr × Option Text) (h g k : Heap)
    → Moves h no_blocks (block at) g
    → CopiesText (copy_of dev.info.syspath) g x k
    → Returns (IsCreated dev h) (with_syspath dev at x k)
unfolding with_syspath
with_syspath-IsCreated dev at _ h g k m (copied t u w) =
    vendor-IsCreated dev at t h u k
      (record { live = λ a. omega (arith, m.live a, w.live a); same = w.same ∙ m.same })
with_syspath-IsCreated dev at _ h g k m (no_memory lack w) =
    clean_up-IsCreated dev error_no_memory none none (some at) h k (λ _. Short-before m lack)
      no_memory-IsValid
      (record { live = λ a. omega (arith, m.live a, w.live a); same = w.same ∙ m.same })

create_at-IsCreated :
    (dev : UdevDevice) (p : Option ℕ) (h g : Heap)
    → Gave h p
    → Moves h no_blocks (block? p) g
    → Returns (IsCreated dev h) (create_at dev p g)
unfolding create_at
create_at-IsCreated dev none h g lack m =
    clean_up-IsCreated dev error_no_memory none none none h g (λ _. lack) no_memory-IsValid
      (record { live = λ a. omega (arith, m.live a); same = m.same })
create_at-IsCreated dev (some at) h g gave m =
    Returns.bind (get_syspath_copy-CopiesText dev g)
      λ x k c. with_syspath-IsCreated dev at x h g k (record { live = m.live; same = m.same }) c

-- `device_create` gives a device with the syspath, the IDs, the revision and the serial number that
-- libudev knows, which owns all that was allocated; or an error, only where one of the three numbers
-- cannot be read or a request for memory fails, and then nothing but the error stays allocated,
-- whichever step failed.
pub device_create-IsCreated :
    (dev : UdevDevice) (h : Heap) → Returns (IsCreated dev h) (device_create dev h)
unfolding device_create
device_create-IsCreated dev h =
    Returns.bind (malloc-Gave h) λ p g (gave, m). create_at-IsCreated dev p h g gave m
