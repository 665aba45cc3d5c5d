-- ===== src/Windows/Device/Made.antt =====
-- `create_device`: what it makes, and what it frees.
use libusbp.Base.{
  ◌⊎◌, inl, inr, some≢none, some-injective, sym, ℕ, ◌+◌, ◌≡◌, refl, ◌∙◌, true, Option, none, some,
  List, [], arith, text, length,
}
use libusbp.Heap.{Heap, no_blocks, block, block?, ◌>>=◌}
use libusbp.Heap.Moves.{Moves, Short, Short-before, Gave, malloc-Gave}
use libusbp.Heap.Returns
use libusbp.Heap.Returns.{Returns, returns}
use libusbp.Error.{Error, ErrorPtr, Text, error_no_memory}
use libusbp.Error.Chain.{Carries, error_create-Carries}
use libusbp.Steps.{Failed, Gets, proceed-Returns}
use libusbp.Windows.HardwareIds.{capitalize, Ids, find_ids}
use libusbp.Windows.HardwareIds.Ends.{EndsWithZeros, find_ids-capitalize}
use libusbp.Windows.Device.{
  Entry, Device, owned, owned?, MultiSz, no_ids, with_ids, take_found,
  device_take_info_from_hardware_ids, Created, finish, pass_device, take_ids, create_at,
  create_device,
}
use libusbp.Windows.Device.Ends.{finish-Ends}
use libusbp.Windows.Device.InstanceId.{create_id_string-GetsId}
use libusbp.Windows.Device.Creation.{IdsAreUsable, device_get_hardware_ids-GetsIds}

-- A device with the instance ID that Windows gives, and the numbers of the first of its hardware IDs
-- that has them.
pub record Describes (entry : Entry) (d : Device) : Type 0 where
  pub instance_id :
      (id : Text) × (d.device_instance_id ≡ some id) × (entry.instance_id ≡ some id.chars)
  pub numbers :
      find_ids true (capitalize entry.contents)
      ≡ some (
          some
            (record { vendor_id = d.vendor_id; product_id = d.product_id; revision = d.revision }))

abbrev missing : List ℕ
missing = text "Device has no hardware ID with the correct format."

-- A device can be made of it.
pub record IsUsable (entry : Entry) : Type 0 where
  pub has_id : (id : List ℕ) × (entry.instance_id ≡ some id)
  pub ids : IdsAreUsable entry
  pub has_numbers : (found : Ids) × (find_ids true (capitalize entry.contents) ≡ some (some found))

-- Such a device; or an error, where none can be made or a request for memory fails.
abbrev pub Creates : Entry → Heap → Created → Heap → Type 0
Creates entry h = Gets (λ _. IsUsable entry → Short h) (Describes entry) owned h

-- After an error what was made is freed.
stop-Creates :
    (entry : Entry) (new_ids : Option ℕ) (d : Option Device) (e : Error) (h g k : Heap)
    → Moves h no_blocks (λ a. block? new_ids a + owned? d a) g
    → Failed e g k
    → (IsUsable entry → Short h)
    → Returns (Creates entry h) (finish new_ids d (some e, none) k)
stop-Creates entry new_ids d e h g k m (v, n) lack =
    Returns.mono (finish-Ends new_ids d (some e, none) k (λ a. omega (arith, m.live a, n.live a)))
      λ r j (q, f). simp q (
        refl,
        (
          lack,
          (
            v,
            record {
              live = λ a. omega (arith, m.live a, n.live a, f.live a);
              same = f.same ∙ n.same ∙ m.same;
            },
          ),
        ),
      )

no_memory-Failed : (h g : Heap) → Moves h no_blocks no_blocks g → Failed error_no_memory h g
no_memory-Failed h g m =
    (record { counted = refl; has_message = refl }, record { live = m.live; same = m.same })

no_hardware_id-Carries :
    (d : Device) (g : Heap)
    → Returns
        (λ x k. (x.1 ≡ with_ids no_ids d) × Carries no_blocks missing [] g x.0 k)
        (take_found d (some none) g)
unfolding take_found
no_hardware_id-Carries d g =
    Returns.bind (error_create-Carries missing g)
      λ e k c. returns {result = (e, with_ids no_ids d)} (refl, c)

module _ (entry : Entry) (d : Device) (id : Text) (h : Heap)
    (described : d.device_instance_id ≡ some id) (told : entry.instance_id ≡ some id.chars) where
  module _ (ids : MultiSz) (g : Heap)
      (m : Moves h no_blocks (λ a. block ids.at a + owned d a) g) where
    found-Creates :
        (found : Ids)
        → find_ids true (capitalize entry.contents) ≡ some (some found)
        → Returns (Creates entry h) (pass_device ids.at (none, with_ids found d) g)
    unfolding pass_device
    found-Creates found p =
        Returns.mono
          (finish-Ends (some ids.at) none (none, some (with_ids found d)) g
            (λ a. omega (arith, m.live a)))
          λ r j (q, f). simp q (
            record { instance_id = (id, described, told); numbers = p },
            record { live = λ a. omega (arith, m.live a, f.live a); same = f.same ∙ m.same },
          )

    missing-Creates :
        find_ids true (capitalize entry.contents) ≡ some none
        → (e : ErrorPtr) (d' : Device) (k : Heap) → d' ≡ with_ids no_ids d
        → Carries no_blocks missing [] g e k
        → Returns (Creates entry h) (pass_device ids.at (e, d') k)
    unfolding pass_device
    missing-Creates p none d' k q c = absurd c
    missing-Creates p (some e) d' k q c = simp q (
        stop-Creates entry (some ids.at) (some (with_ids no_ids d)) e h g k
          (record { live = λ a. omega (arith, m.live a); same = m.same }) (c.valid, c.moves)
          λ u. absurd (some≢none (some-injective _ _ (sym u.has_numbers.1 ∙ p))))

    take_found-Creates :
        (r : Option Ids)
        → find_ids true (capitalize entry.contents) ≡ some r
        → Returns (Creates entry h) ((take_found d (some r) >>= pass_device ids.at) g)
    unfolding take_found
    take_found-Creates none p =
        Returns.bind (no_hardware_id-Carries d g) λ (e, d') k (q, c). missing-Creates p e d' k q c
    take_found-Creates (some found) p = found-Creates found p

    take_info-Creates :
        ids.bytes ≡ capitalize entry.contents
        → EndsWithZeros entry.contents
        → Returns
            (Creates entry h)
            ((device_take_info_from_hardware_ids d ids.bytes >>= pass_device ids.at) g)
    unfolding device_take_info_from_hardware_ids
    take_info-Creates q z =
        let (r, p) = find_ids-capitalize entry.contents z in simp (q, p) (take_found-Creates r p)

  take_ids-Creates :
      (g : Heap)
      → length entry.contents ≡ entry.size
      → Moves h no_blocks (owned d) g
      → Returns (Creates entry h) (take_ids entry d g)
  unfolding take_ids
  take_ids-Creates g l m = Returns.bind (device_get_hardware_ids-GetsIds entry g l) λ x k n.
      proceed-Returns _ _ x k n
        (λ e q f.
          stop-Creates entry none (some d) e h g k
            (record { live = λ a. omega (arith, m.live a); same = m.same }) f
            λ u. Short-before m (q u.ids))
        λ ids (q, z) f.
          take_info-Creates ids k
            (record { live = λ a. omega (arith, m.live a, f.live a); same = f.same ∙ m.same }) q z

abbrev new_device : (at : ℕ) → Option Text → Device
new_device at id = record {
  at = at;
  device_instance_id = id;
  vendor_id = 0;
  product_id = 0;
  revision = 0;
}

lacks : (entry : Entry) (h : Heap) → Short h ⊎ (entry.instance_id ≡ none) → IsUsable entry → Short h
lacks entry h (inl lack) u = lack
lacks entry h (inr q) u = absurd (some≢none (sym u.has_id.1 ∙ q))

create_at-Creates :
    (entry : Entry) (p : Option ℕ) (h g : Heap)
    → Gave h p
    → length entry.contents ≡ entry.size
    → Moves h no_blocks (block? p) g
    → Returns (Creates entry h) (create_at entry p g)
unfolding create_at
create_at-Creates entry none h g lack l m =
    stop-Creates entry none none error_no_memory h g g
      (record { live = λ a. omega (arith, m.live a); same = m.same })
      (no_memory-Failed g g (record { live = λ a. refl; same = refl })) (λ _. lack)
create_at-Creates entry (some at) h g gave l m =
    Returns.bind (create_id_string-GetsId entry g) λ x k n.
      proceed-Returns _ _ x k n
        (λ e q f.
          stop-Creates entry none (some (new_device at none)) e h g k
            (record { live = λ a. omega (arith, m.live a); same = m.same }) f
            λ u. Short-before m (lacks entry g q u))
        λ id told f.
          take_ids-Creates entry (new_device at (some id)) id h refl told k l
            (record { live = λ a. omega (arith, m.live a, f.live a); same = f.same ∙ m.same })

-- Where SetupAPI gives as many bytes as it says, `create_device` makes a device with the instance ID
-- and the numbers of the first hardware ID that has them, and owns exactly its blocks; or it
-- returns an error that is well formed and no device, having freed all that it allocated for one. It
-- fails only where the instance ID or the hardware IDs cannot be read or are not of the right form,
-- or a request for memory fails, and it never reads past the end of the hardware IDs.
pub create_device-Creates :
    (entry : Entry) (h : Heap)
    → length entry.contents ≡ entry.size
    → Returns (Creates entry h) (create_device entry h)
unfolding create_device
create_device-Creates entry h l =
    Returns.bind (malloc-Gave h) λ p g (gave, m). create_at-Creates entry p h g gave l m
