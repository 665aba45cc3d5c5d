-- ===== src/Lists.antt =====
-- src/list.c: lists of devices. What a device is, is a parameter: each system has a structure of its
-- own for it.
pub mod Ownership
pub mod Selects
use libusbp.Base.{
  ℕ, ◌+◌, Bool, true, false, Option, none, some, List, [], ◌∷◌, ◌++◌, length, take, leb,
  if◌then◌else◌,
}
use libusbp.Heap.{Blocks, block, M, pure, fault, ◌>>=◌, ◌>>◌, malloc, realloc, free}
use libusbp.Error.{ErrorPtr, error_no_memory}

-- The block of an array of device pointers, and those before the NULL that ends them.
pub record ListOf (D : Type 0) : Type 0 where
  pub at : ℕ
  pub devices : List D

module _ {D : Type 0} where
  abbrev pub owned_all : (D → Blocks) → List D → Blocks
  owned_all own [] a = 0
  owned_all own (d ∷ ds) a = own d a + owned_all own ds a

  abbrev pub owned : (D → Blocks) → ListOf D → Blocks
  owned own l a = block l.at a + owned_all own l.devices a

  abbrev pub owned? : (D → Blocks) → Option (ListOf D) → Blocks
  owned? own none a = 0
  owned? own (some l) a = owned own l a

  wrap_list : Option ℕ → M (ErrorPtr × Option (ListOf D))
  wrap_list none = pure (some error_no_memory, none)
  wrap_list (some at) = pure (none, some (record { at = at; devices = [] }))

  pub device_list_create : M (ErrorPtr × Option (ListOf D))
  unfolding wrap_list
  device_list_create = malloc >>= wrap_list

  -- The writes to the expanded array. The new pointer must not leave a gap behind the others.
  write_list : ListOf D → (count : ℕ) → D → Option ℕ → M (ErrorPtr × ListOf D × ℕ)
  write_list l count device none = pure (some error_no_memory, l, count)
  write_list l count device (some at) =
      if leb count (length l.devices)
      then pure
          (none, record { at = at; devices = take count l.devices ++ (device ∷ []) }, count + 1)
      else fault

  pub device_list_append : ListOf D → (count : ℕ) → D → M (ErrorPtr × ListOf D × ℕ)
  unfolding write_list
  device_list_append l count device = realloc (some l.at) >>= write_list l count device

  pub list_free : Option (ListOf D) → M (Unit {0})
  list_free none = pure tt
  list_free (some l) = free (some l.at)

  free_devices : (device_free : Option D → M (Unit {0})) → List D → M (Unit {0})
  free_devices device_free [] = pure tt
  free_devices device_free (d ∷ ds) = do device_free (some d); free_devices device_free ds

  pub free_devices_and_list :
      (device_free : Option D → M (Unit {0})) → Option (ListOf D) → M (Unit {0})
  unfolding free_devices
  free_devices_and_list device_free none = pure tt
  free_devices_and_list device_free (some l) = do
    free_devices device_free l.devices
    list_free (some l)
