-- ===== src/Finding/Loop.antt =====
-- The loop over the devices of an enumeration, against a search in the list of what libudev knows.
use libusbp.Base.{
  ℕ, ◌≡◌, refl, ap, ◌∙◌, Bool, true, false, ◌⊎◌, inl, inr, Option, none, some, List, [], ◌∷◌, arith,
  if◌then◌else◌,
}
use libusbp.Heap.{Heap, M, no_blocks, block}
use libusbp.Heap.Moves.{Moves, Short, Short-before, free-Moves}
use libusbp.Heap.Returns
use libusbp.Heap.Returns.{Returns, returns}
use libusbp.Error.{ErrorPtr}
use libusbp.Steps.{Failed, proceed-Returns}
use libusbp.Udev.{Libudev, DeviceInfo, UdevDevice}
use libusbp.Udev.Objects.{get_device-GotDevice}
use libusbp.Finding.{after_check, broken_search, find_loop}
use libusbp.Finding.Verdicts.{Judges}

-- What a search among names ends with: none where it breaks off, otherwise the device, if any.
abbrev pub Outcome : Type 0
Outcome = Option (Option DeviceInfo)

abbrev decide_on : Outcome → DeviceInfo → Option Bool → Outcome
decide_on rest info none = none
decide_on rest info (some correct) = if correct then some (some info) else rest

abbrev look_at : Outcome → (DeviceInfo → Option Bool) → Option DeviceInfo → Outcome
look_at rest verdict none = none
look_at rest verdict (some info) = decide_on rest info (verdict info)

-- The first device with the verdict `true`. It breaks off at a name that libudev does not know and
-- at a device without a verdict.
abbrev pub search : Libudev → (DeviceInfo → Option Bool) → List (List ℕ) → Outcome
search lib verdict [] = some none
search lib verdict (name ∷ names) =
    look_at (search lib verdict names) verdict (lib.device_of_syspath name)

-- The loop ends as the search does, or with an error, where the search breaks off or a request for
-- memory fails.
abbrev pub Searched : Outcome → Heap → ErrorPtr × Option UdevDevice → Heap → Type 0
Searched s h (none, none) g = (s ≡ some none) × Moves h no_blocks no_blocks g
Searched s h (none, some dev) g = (s ≡ some (some dev.info)) × Moves h no_blocks (block dev.at) g
Searched s h (some e, x) g = (x ≡ none) × ((Short h ⊎ (s ≡ none)) × Failed e h g)

Searched-after :
    {s t : Outcome} {h g : Heap} (x : ErrorPtr × Option UdevDevice) (k : Heap)
    → s ≡ t
    → Moves h no_blocks no_blocks g
    → Searched t g x k
    → Searched s h x k
Searched-after (none, none) k q m (r, n) =
    (q ∙ r, record { live = λ a. omega (arith, m.live a, n.live a); same = n.same ∙ m.same })
Searched-after (none, some dev) k q m (r, n) =
    (q ∙ r, record { live = λ a. omega (arith, m.live a, n.live a); same = n.same ∙ m.same })
Searched-after (some e, x) k q m (r, (w, (v, n))) = (
  r,
  (
    elim w [ inl short ↦ inl (Short-before m short) | inr b ↦ inr (q ∙ b) ],
    (v, record { live = λ a. omega (arith, m.live a, n.live a); same = n.same ∙ m.same }),
  ),
)

after_check-Searched :
    (s : Outcome) (verdict : Option Bool) (rest : M (ErrorPtr × Option UdevDevice))
    (dev : UdevDevice) (h g : Heap) (x : ErrorPtr × Bool) (k : Heap)
    → Moves h no_blocks (block dev.at) g
    → Judges verdict g x k
    → ((j : Heap) → Returns (Searched s j) (rest j))
    → Returns (Searched (decide_on s dev.info verdict) h) (after_check rest dev x k)
unfolding after_check
after_check-Searched s verdict rest dev h g (some e, correct) k m (q, (v, n)) next =
    Returns.bind (free-Moves (some dev.at) k (λ a. omega (arith, m.live a, n.live a))) λ _ j f.
      returns (
        refl,
        (
          inr (ap (decide_on s dev.info) q),
          (
            v,
            record {
              live = λ a. omega (arith, m.live a, n.live a, f.live a);
              same = f.same ∙ n.same ∙ m.same;
            },
          ),
        ),
      )
after_check-Searched s verdict rest dev h g (none, true) k m (q, n) next = returns (
  ap (decide_on s dev.info) q,
  record { live = λ a. omega (arith, m.live a, n.live a); same = n.same ∙ m.same },
)
after_check-Searched s verdict rest dev h g (none, false) k m (q, n) next =
    Returns.bind (free-Moves (some dev.at) k (λ a. omega (arith, m.live a, n.live a))) λ _ j f.
      Returns.mono (next j) λ x i r.
        Searched-after x i (ap (decide_on s dev.info) q)
          (record {
            live = λ a. omega (arith, m.live a, n.live a, f.live a);
            same = f.same ∙ n.same ∙ m.same;
          })
          r

-- The loop of `udevw_get_interface` and `udevw_get_tty`, for any check that answers as its verdict,
-- finds what the search finds, and holds a reference to that device alone.
pub find_loop-Searched :
    (lib : Libudev) (verdict : DeviceInfo → Option Bool) (check : UdevDevice → M (ErrorPtr × Bool))
    (names : List (List ℕ)) (h : Heap)
    → ((dev : UdevDevice) (g : Heap) → Returns (Judges (verdict dev.info) g) (check dev g))
    → Returns (Searched (search lib verdict names) h) (find_loop lib check names h)
unfolding find_loop broken_search
find_loop-Searched lib verdict check [] h judges =
    returns (refl, record { live = λ a. refl; same = refl })
find_loop-Searched lib verdict check (name ∷ names) h judges =
    let look : Option DeviceInfo → Outcome =
      λ info. look_at (search lib verdict names) verdict info in
    Returns.bind (get_device-GotDevice lib name h) λ x g m.
      proceed-Returns broken_search _ x g m
        (λ e q f. returns (refl, (elim q [ inl short ↦ inl short | inr b ↦ inr (ap look b) ], f)))
        λ dev q n. Returns.bind (judges dev g) λ y k j.
          Returns.mono
            (after_check-Searched (search lib verdict names) (verdict dev.info)
              (find_loop lib check names) dev h g y k n j
              λ i. find_loop-Searched lib verdict check names i judges)
            λ z i r. Searched-after z i (ap look q) (record { live = λ a. refl; same = refl }) r
