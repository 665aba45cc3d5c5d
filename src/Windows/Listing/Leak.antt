-- ===== src/Windows/Listing/Leak.antt =====
-- The device that is lost where the list cannot be extended.
use libusbp.Base.{ℕ, ◌+◌, ◌≡◌, refl, ◌∙◌, false, none, some, arith}
use libusbp.Heap.{M, Heap, no_blocks, block, ◌>>=◌}
use libusbp.Heap.Moves.{Moves, Owned}
use libusbp.Heap.Returns
use libusbp.Heap.Returns.{Returns, returns}
use libusbp.Error.{error_no_memory}
use libusbp.Lists.{ListOf}
use libusbp.Lists.Ownership.{append-fails}
use libusbp.Windows.Device
use libusbp.Windows.Device.{Entry, Device, device_free}
use libusbp.Windows.Listing.{while_no_error, Added, append_created, pass_list}
use libusbp.Windows.Listing.Loop.{owned}
use libusbp.Windows.Listing.Listed.{finish_listing-Moves}

-- Where a device was made but the list cannot be extended for it, the loop ends: the error for a lack of memory is
-- returned with no list, the list, its devices and the handle are freed, and nothing else: the
-- blocks of that device stay allocated.
pub append_created-leaks :
    (more : ListOf Device → ℕ → M Added) (handle : ℕ) (l : ListOf Device) (count : ℕ) (d : Device)
    (h : Heap)
    → h.grants h.next ≡ false
    → Owned (λ a. block handle a + (owned l a + Device.owned d a)) h
    → Returns
        (λ r g.
          (r ≡ (some error_no_memory, none, 0))
          × Moves h (λ a. block handle a + owned l a) no_blocks g)
        ((append_created l count (some d) >>= while_no_error more >>= pass_list handle) h)
unfolding append_created while_no_error pass_list
append_created-leaks more handle l count d h z o =
    Returns.bind
      {Between = λ x g. (x ≡ (some error_no_memory, l, count)) × Moves h no_blocks no_blocks g}
      (Returns.bind (append-fails Device.owned l count d h z)
        λ x g (q, m). simp q (returns (refl, m)))
      λ x g (q, m). simp q (
        Returns.mono
          (finish_listing-Moves (some error_no_memory, none, 0) (some handle) (some l) g
            (λ a. omega (arith, o a, m.live a)))
          λ r k (p, n).
            (p, record { live = λ a. omega (arith, m.live a, n.live a); same = n.same ∙ m.same }))
