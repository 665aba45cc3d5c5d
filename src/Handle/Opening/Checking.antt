-- ===== src/Handle/Opening/Checking.antt =====
-- The comparison of the device descriptor with what was known of the device.
use libusbp.Base.{
  ℤ, ℕ, ◌≡◌, refl, ◌⊎◌, inl, inr, Bool, true, false, ◌&&◌, Bool-cases, none, some, List, text, ◌==◌,
  subst,
}
use libusbp.Heap.{Heap, M, pure}
use libusbp.Heap.Returns
use libusbp.Heap.Returns.{Returns, returns}
use libusbp.Error.{ErrorPtr}
use libusbp.Error.Chain.{error_create-Carries}
use libusbp.Usbfd.Files.{is_read, get_device_descriptor-Checks}
use libusbp.Device.{Device, device_get_vendor_id, device_get_product_id, device_get_revision}
use libusbp.Steps.{proceed, Checks, failed-Checks, unless_error-Returns}
use libusbp.Handle.Opening.{
  Descriptor, Node, new_handle, check_field, compare_fields, check_device_descriptor,
}

-- The descriptor has both IDs and the revision of the device.
abbrev pub matches : Descriptor → Device → Bool
matches descriptor d =
    (descriptor.id_vendor == d.vendor_id)
    && ((descriptor.id_product == d.product_id) && (descriptor.bcd_device == d.revision))

check_field-Checks :
    (P Q : Type 0) (name : List ℕ) (actual expected : ℕ) (more : M ErrorPtr) (h : Heap)
    → ((actual == expected) ≡ false → Q)
    → ((actual == expected) ≡ true → Returns (Checks P (λ _. Q) h) (more h))
    → Returns (Checks P (λ _. Q) h) (check_field name actual (pure (none, some expected)) more h)
unfolding check_field proceed
check_field-Checks P Q name actual expected more h q next = elim (Bool-cases (actual == expected)) [
  | inl z ↦ simp z (next z)
  | inr z ↦ simp z (
      Returns.mono (error_create-Carries _ h)
        λ e g c. failed-Checks P (λ _. Q) _ _ h e g (λ _ _. q z) c)
]

compare-Checks :
    (P Q : Type 0) (descriptor : Descriptor) (at : ℕ) (d : Device) (fd : ℤ) (h : Heap)
    → (matches descriptor d ≡ true → P)
    → (matches descriptor d ≡ false → Q)
    → Returns (Checks P (λ _. Q) h) (compare_fields descriptor (new_handle at d fd) h)
unfolding compare_fields device_get_vendor_id device_get_product_id device_get_revision
compare-Checks P Q descriptor at d fd h p q =
    let revision : M ErrorPtr =
      check_field (text "Device revision") descriptor.bcd_device (pure (none, some d.revision))
        (pure none) in
    let product : M ErrorPtr =
      check_field (text "Product ID") descriptor.id_product (pure (none, some d.product_id))
        revision in
    check_field-Checks P Q (text "Vendor ID") descriptor.id_vendor d.vendor_id product h
      (λ v. q (simp v refl))
      λ v.
        check_field-Checks P Q (text "Product ID") descriptor.id_product d.product_id revision h
          (λ i. q (simp (v, i) refl))
          λ i.
            check_field-Checks P Q (text "Device revision") descriptor.bcd_device d.revision
              (pure none) h (λ r. q (simp (v, i, r) refl))
              λ r. returns {result = none} (p (simp (v, i, r) refl), refl)

abbrev pub IsRead : Node → Type 0
IsRead node = is_read node.lseek_reply node.read_reply ≡ true

-- Why a descriptor is not accepted: it is not read in full, or it does not match.
abbrev pub Mismatches : Node → Device → Type 0
Mismatches node d =
    (is_read node.lseek_reply node.read_reply ≡ false) ⊎ (matches node.descriptor d ≡ false)

-- `check_device_descriptor` returns NULL where the descriptor is read in full and has the vendor ID,
-- the product ID and the revision of the device of the handle; and else an error.
pub check_device_descriptor-Checks :
    (node : Node) (at : ℕ) (d : Device) (fd : ℤ) (h : Heap)
    → Returns
        (Checks (IsRead node × (matches node.descriptor d ≡ true)) (λ _. Mismatches node d) h)
        (check_device_descriptor node (new_handle at d fd) h)
unfolding check_device_descriptor
check_device_descriptor-Checks node at d fd h =
    Returns.bind (get_device_descriptor-Checks node.lseek_reply node.read_reply h) λ x g c.
      unless_error-Returns _ _ x g c (λ e z f. returns (inl z, f))
        λ read same.
          subst
            (λ k.
              Returns
                (Checks (IsRead node × (matches node.descriptor d ≡ true)) (λ _. Mismatches node d)
                  k)
                (compare_fields node.descriptor (new_handle at d fd) g))
            same
            (compare-Checks (IsRead node × (matches node.descriptor d ≡ true)) (Mismatches node d)
              node.descriptor at d fd g (λ m. (read, m)) (λ m. inr m))
