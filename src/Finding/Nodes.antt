-- ===== src/Finding/Nodes.antt =====
-- The device node of a USB device.
use libusbp.Base.{ℕ, ◌+◌, ◌≡◌, refl, ap, sym, ◌∙◌, ◌⊎◌, inl, inr, Option, none, some, List, arith}
use libusbp.Heap.{Heap, Blocks, pure, no_blocks, block, block?}
use libusbp.Heap.Moves.{Moves, Short, Short-before}
use libusbp.Heap.Returns
use libusbp.Heap.Returns.{Returns, returns}
use libusbp.Error.{ErrorPtr, Text}
use libusbp.Steps.{Gets, proceed-Returns, Gets-Owned, Gets-around, free_two}
use libusbp.Device.Steps.{GetsText, string_copy-GetsText}
use libusbp.Udev.{Libudev, DeviceInfo, UdevDevice}
use libusbp.Udev.Objects.{create_context-Opened, get_device-GotDevice, get_devnode-GotOwn}
use libusbp.Finding.{no_copy, get_devnode_copy, give_back, get_devnode_copy_from_syspath}

abbrev pub devnode_of : Option DeviceInfo → Option (List ℕ)
devnode_of none = none
devnode_of (some info) = info.devnode

-- A copy of the text, where there is one; or an error, where there is none or a request for memory
-- fails.
abbrev pub GetsNode : Option (List ℕ) → Heap → ErrorPtr × Option Text → Heap → Type 0
GetsNode node h = Gets (λ _. Short h ⊎ (node ≡ none)) (λ c. node ≡ some c.chars) (λ c. block c.at) h

-- What is held around the step that copies the text.
GetsNode-around :
    (str str' : Option (List ℕ)) {h g : Heap} (x : ErrorPtr × Option Text) (k : Heap)
    (held : Blocks) {j : Heap}
    → str ≡ str'
    → Moves h no_blocks held g
    → GetsNode str' g x k
    → Moves k held no_blocks j
    → GetsNode str h x j
GetsNode-around str str' x k held q m n f =
    Gets-around (λ c. block c.at) held m x
      (λ e r. elim r [ inl lack ↦ inl (Short-before m lack) | inr b ↦ inr (q ∙ b) ]) (λ c r. q ∙ r)
      n f

GetsText-GetsNode :
    (str : List ℕ) (h : Heap) (x : ErrorPtr × Option Text) (k : Heap)
    → GetsText (record { at = 0; chars = str }) h x k
    → GetsNode (some str) h x k
GetsText-GetsNode str h (none, none) k t = absurd t
GetsText-GetsNode str h (none, some c) k (t, m) = (ap some (sym t), m)
GetsText-GetsNode str h (some e, x) k (t, (lack, f)) = (t, (inl lack, f))

pub get_devnode_copy-GetsNode :
    (dev : UdevDevice) (h : Heap) → Returns (GetsNode dev.info.devnode h) (get_devnode_copy dev h)
unfolding get_devnode_copy no_copy
get_devnode_copy-GetsNode dev h = Returns.bind (get_devnode-GotOwn dev h) λ x g m.
    proceed-Returns no_copy _ x g m (λ e q f. returns (refl, (inr q, f)))
      λ str q n. Returns.mono (string_copy-GetsText (record { at = 0; chars = str }) g) λ y k t.
        GetsNode-around dev.info.devnode (some str) y k no_blocks q n
          (GetsText-GetsNode str g y k t) (record { live = λ a. refl; same = refl })

-- The result is kept while the device and the context are given back.
give_back-GetsNode :
    (str str' : Option (List ℕ)) (p q : Option ℕ) {h g : Heap} (x : ErrorPtr × Option Text)
    (k : Heap)
    → str ≡ str'
    → Moves h no_blocks (λ a. block? p a + block? q a) g
    → GetsNode str' g x k
    → Returns (GetsNode str h) (give_back p q x k)
unfolding give_back
give_back-GetsNode str str' p q x k e m n =
    let held : Blocks = λ a. block? p a + block? q a in
    free_two (pure x) p q k (Gets-Owned (λ c. block c.at) held m _ _ x k n)
      λ j f. returns (GetsNode-around str str' x k held e m n f)

-- `udevw_get_devnode_copy_from_syspath` copies the device node of the device with the syspath. It
-- returns an error, and nothing else stays allocated, only where libudev knows no such device or no
-- node of it, or a request for memory fails.
pub get_devnode_copy_from_syspath-GetsNode :
    (lib : Libudev) (syspath : List ℕ) (h : Heap)
    → Returns
        (GetsNode (devnode_of (lib.device_of_syspath syspath)) h)
        (get_devnode_copy_from_syspath lib syspath h)
unfolding get_devnode_copy_from_syspath
get_devnode_copy_from_syspath-GetsNode lib syspath h =
    let devnode : Option (List ℕ) = devnode_of (lib.device_of_syspath syspath) in
    Returns.bind (create_context-Opened h) λ x g m.
      proceed-Returns _ _ x g m
        (λ e q f.
          give_back-GetsNode devnode devnode none none (some e, none) g refl
            (record { live = λ a. omega arith; same = refl })
            (refl, (elim q [ inl lack ↦ inl lack | inr b ↦ absurd b ], f)))
        λ context _ n. Returns.bind (get_device-GotDevice lib syspath g) λ y k d.
          proceed-Returns _ _ y k d
            (λ e q f.
              give_back-GetsNode devnode devnode none (some context) (some e, none) k refl
                (record { live = λ a. omega (arith, n.live a); same = n.same })
                (refl, (elim q [ inl lack ↦ inl lack | inr b ↦ inr (ap devnode_of b) ], f)))
            λ dev q n'. Returns.bind (get_devnode_copy-GetsNode dev k) λ z j r.
              give_back-GetsNode devnode dev.info.devnode (some dev.at) (some context) z j
                (ap devnode_of q)
                (record { live = λ a. omega (arith, n.live a, n'.live a); same = n'.same ∙ n.same })
                r
