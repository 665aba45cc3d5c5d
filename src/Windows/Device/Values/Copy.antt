-- ===== src/Windows/Device/Values/Copy.antt =====
-- The copy of a device.
use libusbp.Base.{ℕ, ◌≡◌, refl, ◌∙◌, Option, none, some, arith}
use libusbp.Heap.{Heap, no_blocks, block, block?}
use libusbp.Heap.Moves.{Moves, Short, Short-before, Gave, malloc-Gave}
use libusbp.Heap.Returns
use libusbp.Heap.Returns.{Returns, returns}
use libusbp.Error.{Text, error_no_memory}
use libusbp.Steps.{Gets, Ends, pure-Ends, then-Ends, same-Ends}
use libusbp.Windows.Device.{Device, owned, owned?, Created, device_free}
use libusbp.Windows.Device.Ends.{device_free-Ends}
use libusbp.Windows.Device.Values.{finish_copy, copy_id, copy_at, copy_in, device_copy}

-- The same device in blocks of its own.
pub record IsCopy (source : Device) (id : Text) (d : Device) : Type 0 where
  pub instance_id :
      (new_id : Text) × (d.device_instance_id ≡ some new_id) × (new_id.chars ≡ id.chars)
  pub vendor_id : d.vendor_id ≡ source.vendor_id
  pub product_id : d.product_id ≡ source.product_id
  pub revision : d.revision ≡ source.revision

abbrev pub CopiesDevice : Device → Text → Heap → Created → Heap → Type 0
CopiesDevice source id h = Gets (λ e. (e ≡ error_no_memory) × Short h) (IsCopy source id) owned h

finish_copy-Ends :
    (d : Option Device) (result : Created) → Ends (owned? d) (finish_copy d result) result
unfolding finish_copy
finish_copy-Ends d result =
    same-Ends _ _ _ _ (λ a. omega arith)
      (then-Ends (device_free d) (owned? d) _ _ _
        (λ h o. Returns.mono (device_free-Ends d h o) λ r g (q, m). m) (pure-Ends result))

stop-CopiesDevice :
    (source : Device) (id : Text) (d : Option Device) (h g : Heap)
    → Short h
    → Moves h no_blocks (owned? d) g
    → Returns (CopiesDevice source id h) (finish_copy d (some error_no_memory, none) g)
stop-CopiesDevice source id d h g lack m =
    Returns.mono (finish_copy-Ends d (some error_no_memory, none) g (λ a. omega (arith, m.live a)))
      λ r j (q, f). simp q (
        refl,
        (
          (refl, lack),
          (
            record { counted = refl; has_message = refl },
            record { live = λ a. omega (arith, m.live a, f.live a); same = f.same ∙ m.same },
          ),
        ),
      )

module _ (source : Device) (id : Text) (h : Heap) where
  copy_id-CopiesDevice :
      (at : ℕ) (g : Heap) (p : Option ℕ) (k : Heap)
      → Moves h no_blocks (block at) g
      → Gave g p
      → Moves g no_blocks (block? p) k
      → Returns (CopiesDevice source id h) (copy_id source at id p k)
  unfolding copy_id
  copy_id-CopiesDevice at g none k m lack n =
      stop-CopiesDevice source id _ h k (Short-before m lack)
        (record { live = λ a. omega (arith, m.live a, n.live a); same = n.same ∙ m.same })
  copy_id-CopiesDevice at g (some new_id) k m gave n =
      Returns.mono (finish_copy-Ends none _ k (λ a. omega arith)) λ r j (q, f). simp q (
        record {
          instance_id = (record { at = new_id; chars = id.chars }, refl, refl);
          vendor_id = refl;
          product_id = refl;
          revision = refl;
        },
        record {
          live = λ a. omega (arith, m.live a, n.live a, f.live a);
          same = f.same ∙ n.same ∙ m.same;
        },
      )

  copy_in-CopiesDevice :
      (p : Option ℕ) (g : Heap)
      → source.device_instance_id ≡ some id
      → Gave h p
      → Moves h no_blocks (block? p) g
      → Returns (CopiesDevice source id h) (copy_in source p g)
  unfolding copy_in copy_at
  copy_in-CopiesDevice none g q lack m =
      stop-CopiesDevice source id none h g lack (record { live = m.live; same = m.same })
  copy_in-CopiesDevice (some at) g q gave m = simp q (
      Returns.bind (malloc-Gave g) λ p k (gave', n).
        copy_id-CopiesDevice at g p k (record { live = m.live; same = m.same }) gave' n)

-- `libusbp_device_copy` of a device with an instance ID gives a device with the same instance ID and
-- the same numbers, which owns exactly the blocks that were allocated; or, only where a request for
-- memory fails, the error for a lack of memory and no device, with nothing left allocated.
pub device_copy-CopiesDevice :
    (source : Device) (id : Text) (h : Heap)
    → source.device_instance_id ≡ some id
    → Returns (CopiesDevice source id h) (device_copy (some source) h)
unfolding device_copy
device_copy-CopiesDevice source id h q =
    Returns.bind (malloc-Gave h) λ p g (gave, m). copy_in-CopiesDevice source id h p g q gave m
