-- ===== src/Windows/Device/Creation.antt =====
-- Reading the hardware IDs of a device.
use libusbp.Base.{
  ℕ, ◌-◌, suc, ◌≤◌, ◌≡◌, refl, sym, ap, ◌∙◌, inl, inr, true, not, ◌&&◌, Bool-cases, false,
  true≢false, some-injective, Option, none, some, List, arith, length, get_elem?, get_elem?_lt, ltb,
  ◌==◌,
}
use libusbp.Heap.{Heap, no_blocks, block, block?}
use libusbp.Heap.Moves.{Moves, Short, Gave, malloc-Gave, free-Moves}
use libusbp.Heap.Returns
use libusbp.Heap.Returns.{Returns, returns}
use libusbp.Error.{ErrorPtr, error_no_memory}
use libusbp.Error.Chain.{Carries, error_create-Carries}
use libusbp.Steps.{Gets, failed-Gets}
use libusbp.Windows.ErrorCode
use libusbp.Windows.Errors.Meaning.{error_create_winapi-Carries}
use libusbp.Windows.HardwareIds.{capitalize}
use libusbp.Windows.HardwareIds.Ends.{EndsWithZeros, ends_of_get_elem?}
use libusbp.Windows.Device.{
  Entry, MultiSz, reg_multi_sz, drop_ids, is_zero, not_terminated, check_last, check_second_last,
  check_end, fill_ids, device_get_hardware_ids,
}

-- The hardware IDs can be read, are of the right type and end with two zeros.
pub record IdsAreUsable (entry : Entry) : Type 0 where
  pub size_known :
      (not entry.size_success && not (entry.size_error == ErrorCode.insufficient_buffer)) ≡ false
  pub is_read : entry.ids_success ≡ true
  pub is_multi_sz : (entry.data_type == reg_multi_sz) ≡ true
  pub two : 2 ≤ entry.size
  pub second_last : get_elem? entry.contents (entry.size - 2) ≡ some 0
  pub last : get_elem? entry.contents (entry.size - 1) ≡ some 0

-- The hardware IDs, with capital letters and two zeros at the end; or an error, where they are not
-- usable or a request for memory fails.
abbrev pub GetsIds : Entry → Heap → ErrorPtr × Option MultiSz → Heap → Type 0
GetsIds entry h =
    Gets (λ _. IdsAreUsable entry → Short h)
      (λ ids. (ids.bytes ≡ capitalize entry.contents) × EndsWithZeros entry.contents)
      (λ ids. block ids.at) h

unlike :
    (xs : List ℕ) (i c : ℕ)
    → get_elem? xs i ≡ some c
    → get_elem? xs i ≡ some 0
    → (c == 0) ≡ false
    → ⊥
unlike xs i c p q z = ground (arith, some-injective _ _ (sym p ∙ q), z)

module _ (entry : Entry) (at : ℕ) (h g : Heap) (m : Moves h no_blocks (block at) g) where
  drop_ids-GetsIds :
      (chars codes : List ℕ) (e : ErrorPtr) (k : Heap)
      → (IdsAreUsable entry → Short h)
      → Carries no_blocks chars codes g e k
      → Returns (GetsIds entry h) (drop_ids at e k)
  unfolding drop_ids
  drop_ids-GetsIds chars codes none k lack c = absurd c
  drop_ids-GetsIds chars codes (some e) k lack c =
      Returns.bind (free-Moves (some at) k (λ a. omega (arith, m.live a, c.moves.live a))) λ _ j f.
        returns (
          refl,
          (
            lack,
            (
              c.valid,
              record {
                live = λ a. omega (arith, m.live a, c.moves.live a, f.live a);
                same = f.same ∙ c.moves.same ∙ m.same;
              },
            ),
          ),
        )

  not_terminated-GetsIds :
      (IdsAreUsable entry → Short h) → Returns (GetsIds entry h) (not_terminated at g)
  unfolding not_terminated
  not_terminated-GetsIds lack =
      Returns.bind (error_create-Carries _ g) λ e k c. drop_ids-GetsIds _ _ e k lack c

  module _ (l : length entry.contents ≡ entry.size) (two : 2 ≤ entry.size) where
    last-GetsIds :
        (c d : ℕ)
        → get_elem? entry.contents (entry.size - 2) ≡ some c
        → get_elem? entry.contents (suc (entry.size - 2)) ≡ some d
        → (c == 0) ≡ true
        → Returns (GetsIds entry h) (check_last entry at (d == 0) g)
    unfolding check_last
    last-GetsIds c d p q z =
        let i : entry.size - 1 ≡ suc (entry.size - 2) = omega (arith, two) in
        elim (Bool-cases (d == 0)) [
          | inl y ↦
              let c≡0 : c ≡ 0 = ground (arith, z) in
              let d≡0 : d ≡ 0 = ground (arith, y) in
              simp y (
                returns
                  {result = (none, some (record { at = at; bytes = capitalize entry.contents }))}
                  (
                    (
                      refl,
                      ends_of_get_elem? entry.contents (entry.size - 2) (omega (arith, l, two))
                          (p ∙ ap some c≡0) (q ∙ ap some d≡0),
                    ),
                    record { live = m.live; same = m.same },
                  ))
          | inr y ↦ simp y (
              not_terminated-GetsIds λ u. absurd (
                unlike entry.contents (entry.size - 1) d (ap (get_elem? entry.contents) i ∙ q)
                  u.last y))
        ]

    second_last-GetsIds :
        (c d : ℕ)
        → get_elem? entry.contents (entry.size - 2) ≡ some c
        → get_elem? entry.contents (entry.size - 1) ≡ some d
        → Returns (GetsIds entry h) (check_second_last entry at (c == 0) g)
    unfolding check_second_last is_zero
    second_last-GetsIds c d p q =
        let i : entry.size - 1 ≡ suc (entry.size - 2) = omega (arith, two) in
        elim (Bool-cases (c == 0)) [
          | inl z ↦ simp (z, q) (last-GetsIds c d p (ap (get_elem? entry.contents) (sym i) ∙ q) z)
          | inr z ↦ simp z (
              not_terminated-GetsIds
                λ u. absurd (unlike entry.contents (entry.size - 2) c p u.second_last z))
        ]

  check_end-GetsIds :
      length entry.contents ≡ entry.size → Returns (GetsIds entry h) (check_end entry at g)
  unfolding check_end is_zero
  check_end-GetsIds l = elim (Bool-cases (ltb entry.size 2)) [
    | inl z ↦ simp z (not_terminated-GetsIds λ u. absurd (ground (arith, u.two)))
    | inr z ↦
        let two : 2 ≤ entry.size = ground (arith, z) in
        let (c, p) = get_elem?_lt entry.contents (entry.size - 2) (omega (arith, l, two)) in
        let (d, q) = get_elem?_lt entry.contents (entry.size - 1) (omega (arith, l, two)) in
        simp (z, p) (second_last-GetsIds l two c d p q)
  ]

fill_ids-GetsIds :
    (entry : Entry) (p : Option ℕ) (h g : Heap)
    → Gave h p
    → Moves h no_blocks (block? p) g
    → length entry.contents ≡ entry.size
    → Returns (GetsIds entry h) (fill_ids entry p g)
unfolding fill_ids
fill_ids-GetsIds entry none h g lack m l = returns {result = (some error_no_memory, none)} (
  refl,
  (
    (λ _. lack),
    (record { counted = refl; has_message = refl }, record { live = m.live; same = m.same }),
  ),
)
fill_ids-GetsIds entry (some at) h g gave m l =
    let m' : Moves h no_blocks (block at) g = record { live = m.live; same = m.same } in
    elim (Bool-cases entry.ids_success) [
      | inl z ↦ elim (Bool-cases (entry.data_type == reg_multi_sz)) [
        | inl y ↦ simp (z, y) (check_end-GetsIds entry at h g m' l)
        | inr y ↦
            simp (z, y)
              (Returns.bind (error_create-Carries _ g) λ e k c.
                drop_ids-GetsIds entry at h g m' _ _ e k
                  (λ u. absurd (true≢false (sym u.is_multi_sz ∙ y))) c)
      ]
      | inr z ↦ simp z (
          Returns.bind (error_create_winapi-Carries entry.format_message entry.ids_error _ g)
            λ e k c.
              drop_ids-GetsIds entry at h g m' _ _ e k
                (λ u. absurd (true≢false (sym u.is_read ∙ z))) c)
    ]

pub device_get_hardware_ids-GetsIds :
    (entry : Entry) (h : Heap)
    → length entry.contents ≡ entry.size
    → Returns (GetsIds entry h) (device_get_hardware_ids entry h)
unfolding device_get_hardware_ids
device_get_hardware_ids-GetsIds entry h l =
    elim (Bool-cases
      (not entry.size_success && not (entry.size_error == ErrorCode.insufficient_buffer))) [
        | inl z ↦ simp z (
            Returns.bind (error_create_winapi-Carries entry.format_message entry.size_error _ h)
              λ e g c. returns (
                failed-Gets _ _ (λ (ids : MultiSz). block ids.at) _ _ h h e g
                  (λ _ u. absurd (true≢false (sym z ∙ u.size_known)))
                  (record { live = λ a. refl; same = refl }) c))
        | inr z ↦
            simp z
              (Returns.bind (malloc-Gave h) λ p g (gave, m). fill_ids-GetsIds entry p h g gave m l)
      ]
