-- ===== src/Lists/Ownership.antt =====
-- Making, extending and freeing lists of devices.
use libusbp.Base.{
  ℕ, ◌+◌, ◌≡◌, refl, ap, ◌∙◌, Option, none, some, List, [], ◌∷◌, ◌++◌, arith, length, take,
  take-length, leb, true, false,
}
use libusbp.Heap.{Blocks, block?, Heap, M, no_blocks, block}
use libusbp.Heap.Moves.{
  malloc-Gave, Gave, Short, Moves, Owned, free-Moves, realloc-Gave, realloc-fails, kept,
}
use libusbp.Heap.Returns
use libusbp.Heap.Returns.{Returns, returns}
use libusbp.Error.{ErrorPtr, error_no_memory}
use libusbp.Lists.{
  ListOf, wrap_list, device_list_create, owned, owned_all, owned?, device_list_append, write_list,
  list_free, free_devices, free_devices_and_list,
}

module _ {D : Type 0} where
  pub list_free-Moves :
      (l : ListOf D) (h : Heap)
      → Owned (block l.at) h
      → Returns (λ _ g. Moves h (block l.at) no_blocks g) (list_free (some l) h)
  unfolding list_free
  list_free-Moves l h o = free-Moves (some l.at) h o

  -- An empty list; or the error for a lack of memory, where a request for it fails.
  abbrev pub IsNewList : Heap → ErrorPtr × Option (ListOf D) → Heap → Type 0
  IsNewList h (none, none) g = ⊥
  IsNewList h (none, some l) g = (l.devices ≡ []) × Moves h no_blocks (block l.at) g
  IsNewList h (some e, l) g =
      ((e ≡ error_no_memory) × (l ≡ none) × Short h) × Moves h no_blocks no_blocks g

  wrap_list-IsNewList :
      (p : Option ℕ) (h g : Heap)
      → Gave h p
      → Moves h no_blocks (block? p) g
      → Returns (IsNewList h) (wrap_list p g)
  unfolding wrap_list
  wrap_list-IsNewList none h g lack m =
      returns ((refl, refl, lack), record { live = m.live; same = m.same })
  wrap_list-IsNewList (some at) h g gave m = returns (refl, record { live = m.live; same = m.same })

  pub create-IsNewList : (h : Heap) → Returns (IsNewList h) (device_list_create h)
  unfolding device_list_create
  create-IsNewList h =
      Returns.bind (malloc-Gave h) λ p g (gave, m). wrap_list-IsNewList p h g gave m

-- Given what the function that frees a device does.
module _ {D : Type 0} (own : D → Blocks) (device_free : Option D → M (Unit {0}))
    (frees : (d : D) (h : Heap)
      → Owned (own d) h
      → Returns (λ _ g. Moves h (own d) no_blocks g) (device_free (some d) h)) where
  free_devices-Moves :
      (ds : List D) (h : Heap)
      → Owned (owned_all own ds) h
      → Returns (λ _ g. Moves h (owned_all own ds) no_blocks g) (free_devices device_free ds h)
  unfolding free_devices
  free_devices-Moves [] h o = returns (record { live = λ a. refl; same = refl })
  free_devices-Moves (d ∷ ds) h o = Returns.bind (frees d h (λ a. omega (arith, o a))) λ _ k m.
      Returns.mono (free_devices-Moves ds k (λ a. omega (arith, o a, m.live a)))
        λ _ g n. record { live = λ a. omega (arith, m.live a, n.live a); same = n.same ∙ m.same }

  -- `free_devices_and_list` gives back the list and every device in it.
  pub free_devices_and_list-Moves :
      (l : Option (ListOf D)) (h : Heap)
      → Owned (owned? own l) h
      → Returns (λ _ g. Moves h (owned? own l) no_blocks g) (free_devices_and_list device_free l h)
  unfolding free_devices_and_list
  free_devices_and_list-Moves none h o = returns (record { live = λ a. refl; same = refl })
  free_devices_and_list-Moves (some l) h o =
      Returns.bind (free_devices-Moves l.devices h (λ a. omega (arith, o a))) λ _ k m.
        Returns.mono (list_free-Moves l k (λ a. omega (arith, o a, m.live a)))
          λ _ g n. record { live = λ a. omega (arith, m.live a, n.live a); same = n.same ∙ m.same }

module _ {D : Type 0} (own : D → Blocks) where
  pub owned_all-append :
      (ds es : List D) (a : ℕ)
      → owned_all own (ds ++ es) a ≡ owned_all own ds a + owned_all own es a
  owned_all-append [] es a = omega arith
  owned_all-append (d ∷ ds) es a = omega (arith, owned_all-append ds es a)

  -- The device stands at the end and belongs to the list; or memory ran out, and the list and the
  -- device are as they were.
  pub data Appends (l : ListOf D) (count : ℕ) (d : D) (h : Heap)
      : ErrorPtr × ListOf D × ℕ → Heap → Type 0 where
    appended :
        (at : ℕ) {g : Heap}
        → Moves h
            (λ a. owned own l a + own d a)
            (owned own (record { at = at; devices = l.devices ++ (d ∷ []) }))
            g
        → Appends l count d h
            (none, record { at = at; devices = l.devices ++ (d ∷ []) }, count + 1)
            g
    no_memory :
        {g : Heap}
        → Short h
        → Moves h no_blocks no_blocks g
        → Appends l count d h (some error_no_memory, l, count) g

  write_list-Appends :
      (l : ListOf D) (count : ℕ) (d : D) (p : Option ℕ) (h g : Heap)
      → count ≡ length l.devices
      → Gave h p
      → Moves h (block l.at) (kept (some l.at) p) g
      → Returns (Appends l count d h) (write_list l count d p g)
  unfolding write_list
  write_list-Appends l count d none h g c lack m =
      returns (no_memory lack (record { live = λ a. omega (arith, m.live a); same = m.same }))
  write_list-Appends l count d (some at) h g c gave m =
      let fits : leb count (length l.devices) ≡ true = ground arith in
      let all : take count l.devices ≡ l.devices =
        ap (λ n. take n l.devices) c ∙ take-length l.devices in
      simp (fits, all)
        (returns (
          appended at (record {
            live = λ a. omega (arith, m.live a, owned_all-append l.devices (d ∷ []) a);
            same = m.same;
          })))

  -- `device_list_append` with the count of the list puts the device at its end and counts it; where
  -- memory runs out it returns that error and leaves the list as it was.
  pub append-Appends :
      (l : ListOf D) (count : ℕ) (d : D) (h : Heap)
      → count ≡ length l.devices
      → Owned (block l.at) h
      → Returns (Appends l count d h) (device_list_append l count d h)
  unfolding device_list_append
  append-Appends l count d h c o =
      Returns.bind (realloc-Gave (some l.at) h o)
        λ p g (gave, m). write_list-Appends l count d p h g c gave m

  pub append-fails :
      (l : ListOf D) (count : ℕ) (d : D) (h : Heap)
      → h.grants h.next ≡ false
      → Returns
          (λ x g. (x ≡ (some error_no_memory, l, count)) × Moves h no_blocks no_blocks g)
          (device_list_append l count d h)
  unfolding device_list_append write_list
  append-fails l count d h z =
      Returns.bind (realloc-fails (some l.at) h z) λ p g (q, m). simp q (returns (refl, m))
