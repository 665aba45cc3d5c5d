-- ===== src/Windows/Device/InstanceId.antt =====
-- The instance ID of a device, as SetupAPI gives it.
use libusbp.Base.{ℕ, ◌≡◌, refl, ◌∙◌, ◌⊎◌, inl, inr, Option, none, some, List, arith}
use libusbp.Heap.{Heap, no_blocks, block, block?}
use libusbp.Heap.Moves.{Moves, Short, Gave, malloc-Gave, free-Moves}
use libusbp.Heap.Returns
use libusbp.Heap.Returns.{Returns, returns}
use libusbp.Error.{ErrorPtr, Text, error_no_memory}
use libusbp.Steps.{Gets, failed-Gets}
use libusbp.Windows.Errors.Meaning.{error_create_winapi-Carries}
use libusbp.Windows.Device.{Entry, id_at, id_in, create_id_string}

-- The instance ID; or an error, where there is none or a request for memory fails.
abbrev pub GetsId : Entry → Heap → ErrorPtr × Option Text → Heap → Type 0
GetsId entry h =
    Gets (λ _. Short h ⊎ (entry.instance_id ≡ none)) (λ c. entry.instance_id ≡ some c.chars)
      (λ c. block c.at) h

id_at-GetsId :
    (entry : Entry) (id : Option (List ℕ)) (at : ℕ) (h g : Heap)
    → entry.instance_id ≡ id
    → Moves h no_blocks (block at) g
    → Returns (GetsId entry h) (id_at entry id at g)
unfolding id_at
id_at-GetsId entry (some id) at h g q m =
    returns {result = (none, some (record { at = at; chars = id }))}
      (q, record { live = m.live; same = m.same })
id_at-GetsId entry none at h g q m =
    Returns.bind (free-Moves (some at) g (λ a. omega (arith, m.live a))) λ _ k f.
      Returns.bind (error_create_winapi-Carries entry.format_message entry.instance_id_error _ k)
        λ e j c. returns (
          failed-Gets _ _ (λ c. block c.at) _ _ h k e j (λ _. inr q)
            (record { live = λ a. omega (arith, m.live a, f.live a); same = f.same ∙ m.same }) c)

id_in-GetsId :
    (entry : Entry) (p : Option ℕ) (h g : Heap)
    → Gave h p
    → Moves h no_blocks (block? p) g
    → Returns (GetsId entry h) (id_in entry p g)
unfolding id_in
id_in-GetsId entry none h g lack m = returns {result = (some error_no_memory, none)} (
  refl,
  (
    inl lack,
    (record { counted = refl; has_message = refl }, record { live = m.live; same = m.same }),
  ),
)
id_in-GetsId entry (some at) h g gave m =
    id_at-GetsId entry entry.instance_id at h g refl (record { live = m.live; same = m.same })

pub create_id_string-GetsId :
    (entry : Entry) (h : Heap) → Returns (GetsId entry h) (create_id_string entry h)
unfolding create_id_string
create_id_string-GetsId entry h =
    Returns.bind (malloc-Gave h) λ p g (gave, m). id_in-GetsId entry p h g gave m
