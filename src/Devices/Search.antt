-- ===== src/Devices/Search.antt =====
-- The search for a device by its vendor and product IDs.
use libusbp.Base.{
  ℕ, ◌≡◌, refl, ap, ◌∙◌, inl, inr, Bool, ◌&&◌, Bool-cases, Option, none, some, List, [], ◌∷◌, arith,
  ◌==◌, if◌then◌else◌,
}
use libusbp.Heap.{Heap, no_blocks}
use libusbp.Heap.Moves.{Moves, Owned}
use libusbp.Heap.Returns
use libusbp.Heap.Returns.{Returns, returns}
use libusbp.Device
use libusbp.Device.{Device, device_free, device_get_vendor_id, device_get_product_id}
use libusbp.Device.Copy.{device_free-Moves}
use libusbp.Devices.{
  DeviceList, owned, owned_all, Found, check_device_vid_pid, check_vendor, check_product, settle,
  find_loop, find_in_list,
}
use libusbp.Lists.Ownership.{list_free-Moves}

abbrev pub matches : (vendor_id product_id : ℕ) → Device → Bool
matches vendor_id product_id d = (d.vendor_id == vendor_id) && (d.product_id == product_id)

-- The first device in a list with these IDs.
abbrev pub first_match : (vendor_id product_id : ℕ) → List Device → Option Device
first_match vendor_id product_id [] = none
first_match vendor_id product_id (d ∷ ds) =
    if matches vendor_id product_id d then some d else first_match vendor_id product_id ds

check-matches :
    (d : Device) (vendor_id product_id : ℕ) (h : Heap)
    → check_device_vid_pid d vendor_id product_id h
      ≡ some ((none, matches vendor_id product_id d), h)
unfolding check_device_vid_pid check_vendor check_product device_get_vendor_id device_get_product_id
check-matches d vendor_id product_id h = elim (Bool-cases (d.vendor_id == vendor_id)) [
  | inl e ↦ simp e refl
  | inr e ↦ simp e refl
]

-- Of some devices one is left, or none.
abbrev pub Left : List Device → Option Device → Heap → Found → Heap → Type 0
Left ds d h (e, d') g = (e ≡ none) × ((d' ≡ d) × Moves h (owned_all ds) (Device.owned? d) g)

free_rest :
    (vendor_id product_id : ℕ) (ds : List Device) (d : Device) (h : Heap)
    → Owned (owned_all ds) h
    → Returns
        (λ r g. (r ≡ (none, some d)) × Moves h (owned_all ds) no_blocks g)
        (find_loop vendor_id product_id ds (some d) h)
unfolding find_loop
free_rest vendor_id product_id [] d h o = returns (refl, record { live = λ a. refl; same = refl })
free_rest vendor_id product_id (c ∷ cs) d h o =
    Returns.bind (device_free-Moves (some c) h (λ a. omega (arith, o a))) λ _ k m.
      Returns.mono (free_rest vendor_id product_id cs d k (λ a. omega (arith, o a, m.live a)))
        λ r g n. (
          n.0,
          record { live = λ a. omega (arith, m.live a, n.1.live a); same = n.1.same ∙ m.same },
        )

find_loop-Left :
    (vendor_id product_id : ℕ) (ds : List Device) (h : Heap)
    → Owned (owned_all ds) h
    → Returns
        (Left ds (first_match vendor_id product_id ds) h)
        (find_loop vendor_id product_id ds none h)
unfolding find_loop settle
find_loop-Left vendor_id product_id [] h o =
    returns (refl, (refl, record { live = λ a. refl; same = refl }))
find_loop-Left vendor_id product_id (c ∷ cs) h o =
    rw (check-matches c vendor_id product_id h)
      (elim (Bool-cases (matches vendor_id product_id c)) [
        | inl e ↦ simp e (
            Returns.bind (device_free-Moves none h (λ a. omega arith)) λ _ k m.
              Returns.mono
                (free_rest vendor_id product_id cs c k (λ a. omega (arith, o a, m.live a)))
                λ r g n. (
                  ap (λ x. x.0) n.0,
                  (
                    ap (λ x. x.1) n.0,
                    record {
                      live = λ a. omega (arith, m.live a, n.1.live a);
                      same = n.1.same ∙ m.same;
                    },
                  ),
                ))
        | inr e ↦ simp e (
            Returns.bind (device_free-Moves (some c) h (λ a. omega (arith, o a))) λ _ k m.
              Returns.mono
                (find_loop-Left vendor_id product_id cs k (λ a. omega (arith, o a, m.live a)))
                λ r g n. (
                  n.0,
                  (
                    n.1.0,
                    record {
                      live = λ a. omega (arith, m.live a, n.1.1.live a);
                      same = n.1.1.same ∙ m.same;
                    },
                  ),
                ))
      ])

-- The search of `libusbp_find_device_with_vid_pid` in a list whose blocks it owns gives the caller
-- the first device with both IDs, or NULL if there is none, without an error. All other devices
-- and the list are freed, and the one that is found is not.
pub find_in_list-Found :
    (vendor_id product_id : ℕ) (l : DeviceList) (h : Heap)
    → Owned (owned l) h
    → Returns
        (λ r g.
          (r ≡ (none, first_match vendor_id product_id l.devices))
          × Moves h (owned l) (Device.owned? (first_match vendor_id product_id l.devices)) g)
        (find_in_list vendor_id product_id l h)
unfolding find_in_list
find_in_list-Found vendor_id product_id l h o =
    Returns.bind (find_loop-Left vendor_id product_id l.devices h (λ a. omega (arith, o a)))
      λ (e, d) k m.
        Returns.bind (list_free-Moves l k (λ a. omega (arith, o a, m.1.1.live a))) λ _ g f.
          returns (
            simp (m.0, m.1.0) refl,
            record {
              live = λ a. omega (arith, m.1.1.live a, f.live a);
              same = f.same ∙ m.1.1.same;
            },
          )
