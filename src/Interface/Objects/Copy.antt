-- ===== src/Interface/Objects/Copy.antt =====
-- What freeing, copying and reading an interface does.
use libusbp.Base.{ℕ, ◌+◌, ◌≡◌, refl, sym, subst, ◌∙◌, Option, none, some, arith}
use libusbp.Heap.{Heap, Blocks, no_blocks, block, block?}
use libusbp.Heap.Moves.{Moves, Short, Short-before, Gave, malloc-Gave}
use libusbp.Heap.Returns
use libusbp.Heap.Returns.{Returns, returns}
use libusbp.Error.{Text, text_block}
use libusbp.Device
use libusbp.Device.{Device}
use libusbp.Device.Copy.{string_copy-CopiesText, device_copy-CopiesDevice}
use libusbp.Device.Steps.{
  CopiesText-Returns, CopiesDevice-Returns, SameDevice, GetsText, GetsDevice,
  device_copy-GetsDevice, string_copy-GetsText, device_free-Ends, string_free-Ends,
}
use libusbp.Device.Plenty.{Succeeds, Onwards, string_copy-Succeeds, device_copy-Succeeds}
use libusbp.Steps.{Ends, pure-Ends, free-Ends, same-Ends}
use libusbp.Interface.{Interface, Created, owned}
use libusbp.Interface.Objects.{
  interface_free, finish_copy, copy_filename, copy_syspath, copy_at, interface_copy,
  interface_get_os_filename, interface_get_device_copy,
}

abbrev pub owned? : Option Interface → Blocks
owned? none a = 0
owned? (some gi) a = owned gi a

-- `libusbp_generic_interface_free` gives back all that the interface owns.
pub interface_free-Ends : (gi : Option Interface) → Ends (owned? gi) (interface_free gi) tt
unfolding interface_free
interface_free-Ends none = pure-Ends tt
interface_free-Ends (some gi) =
    same-Ends _ _ _ _ (λ a. omega arith)
      (device_free-Ends (some gi.device) _ _ _ (
        string_free-Ends (some gi.syspath) _ _ _ (
          string_free-Ends (some gi.filename) _ _ _ (free-Ends (some gi.at) _ _ _ (pure-Ends tt)))))

-- The same interface of the same device.
pub record SameInterface (source gi : Interface) : Type 0 where
  pub device : SameDevice source.device gi.device
  pub number : gi.interface_number ≡ source.interface_number
  pub syspath : gi.syspath.chars ≡ source.syspath.chars
  pub filename : gi.filename.chars ≡ source.filename.chars

abbrev pub CopyOrNull : Interface → Heap → Option Interface → Heap → Type 0
CopyOrNull source h none g = Short h × Moves h no_blocks no_blocks g
CopyOrNull source h (some gi) g = SameInterface source gi × Moves h no_blocks (owned gi) g

-- No error, and a copy; or no error and no copy, where a request for memory fails.
abbrev pub CopiesInterface : Interface → Heap → Created → Heap → Type 0
CopiesInterface source h (e, gi) g = (e ≡ none) × CopyOrNull source h gi g

finish_copy-Ends :
    (filename syspath : Option Text) (device : Option Device) (at : Option ℕ)
    (dest : Option Interface)
    → Ends
        (λ a.
          block? (text_block filename) a
          + (block? (text_block syspath) a + (Device.owned? device a + block? at a)))
        (finish_copy filename syspath device at dest)
        (none, dest)
unfolding finish_copy
finish_copy-Ends filename syspath device at dest =
    same-Ends _ _ _ _ (λ a. omega arith)
      (string_free-Ends filename _ _ _ (
        string_free-Ends syspath _ _ _
          (device_free-Ends device _ _ _ (free-Ends at _ _ _ (pure-Ends (none, dest))))))

module _ (source : Interface) (h : Heap) where
  lose-Copies :
      (filename syspath : Option Text) (device : Option Device) (at : Option ℕ) (k : Heap)
      → Short h
      → Moves h no_blocks
          (λ a.
            block? (text_block filename) a
            + (block? (text_block syspath) a + (Device.owned? device a + block? at a)))
          k
      → Returns (CopiesInterface source h) (finish_copy filename syspath device at none k)
  lose-Copies filename syspath device at k lack m =
      Returns.mono
        (finish_copy-Ends filename syspath device at none k (λ a. omega (arith, m.live a)))
        λ x j (q, f).
          subst (λ y. CopiesInterface source h y j) (sym q)
            (
              refl,
              (
                lack,
                record { live = λ a. omega (arith, m.live a, f.live a); same = f.same ∙ m.same },
              ),
            )

  filename-Copies :
      (at : ℕ) (d : Device) (s : Text) (g : Heap)
      → SameDevice source.device d
      → s.chars ≡ source.syspath.chars
      → Moves h no_blocks (λ a. block at a + (Device.owned d a + block s.at a)) g
      → Returns (CopiesInterface source h) (copy_filename source at d s g)
  unfolding copy_filename
  filename-Copies at d s g same q m =
      Returns.bind (string_copy-CopiesText source.filename g) λ x k r.
        CopiesText-Returns _ _ x k r
          (λ lack n.
            lose-Copies none (some s) (some d) (some at) k (Short-before m lack)
              (record { live = λ a. omega (arith, m.live a, n.live a); same = n.same ∙ m.same }))
          λ t u n.
            Returns.mono (finish_copy-Ends none none none none _ k (λ a. omega arith)) λ y j (p, f).
              subst (λ y. CopiesInterface source h y j) (sym p)
                (
                  refl,
                  (
                    record { device = same; number = refl; syspath = q; filename = u },
                    record {
                      live = λ a. omega (arith, m.live a, n.live a, f.live a);
                      same = f.same ∙ n.same ∙ m.same;
                    },
                  ),
                )

  syspath-Copies :
      (at : ℕ) (d : Device) (g : Heap)
      → SameDevice source.device d
      → Moves h no_blocks (λ a. block at a + Device.owned d a) g
      → Returns (CopiesInterface source h) (copy_syspath source at d g)
  unfolding copy_syspath
  syspath-Copies at d g same m = Returns.bind (string_copy-CopiesText source.syspath g) λ x k r.
      CopiesText-Returns _ _ x k r
        (λ lack n.
          lose-Copies none none (some d) (some at) k (Short-before m lack)
            (record { live = λ a. omega (arith, m.live a, n.live a); same = n.same ∙ m.same }))
        λ s q n.
          filename-Copies at d s k same q
            (record { live = λ a. omega (arith, m.live a, n.live a); same = n.same ∙ m.same })

  copy_at-Copies :
      (p : Option ℕ) (g : Heap)
      → Gave h p
      → Moves h no_blocks (block? p) g
      → Returns (CopiesInterface source h) (copy_at source p g)
  unfolding copy_at
  copy_at-Copies none g lack m =
      lose-Copies none none none none g lack
        (record { live = λ a. omega (arith, m.live a); same = m.same })
  copy_at-Copies (some at) g gave m =
      Returns.bind (device_copy-CopiesDevice source.device g) λ x k r.
        CopiesDevice-Returns _ _ x k r
          (λ lack n.
            lose-Copies none none none (some at) k (Short-before m lack)
              (record { live = λ a. omega (arith, m.live a, n.live a); same = n.same ∙ m.same }))
          λ d same n.
            syspath-Copies at d k same
              (record { live = λ a. omega (arith, m.live a, n.live a); same = n.same ∙ m.same })

-- `libusbp_generic_interface_copy` of an interface gives one of the same device with the same number
-- and texts that shares no block with it. Where a request for memory fails it gives NULL and frees
-- what was allocated, but returns no error.
pub interface_copy-CopiesInterface :
    (source : Interface) (h : Heap)
    → Returns (CopiesInterface source h) (interface_copy (some source) h)
unfolding interface_copy
interface_copy-CopiesInterface source h =
    Returns.bind (malloc-Gave h) λ p g (gave, m). copy_at-Copies source h p g gave m

pub interface_get_os_filename-GetsText :
    (gi : Interface) (h : Heap)
    → Returns (GetsText gi.filename h) (interface_get_os_filename (some gi) h)
unfolding interface_get_os_filename
interface_get_os_filename-GetsText gi h = string_copy-GetsText gi.filename h

pub interface_get_device_copy-GetsDevice :
    (gi : Interface) (h : Heap) → Returns (GetsDevice gi.device h) (interface_get_device_copy gi h)
unfolding interface_get_device_copy
interface_get_device_copy-GetsDevice gi h = device_copy-GetsDevice gi.device h

pub interface_get_os_filename-Succeeds :
    (gi : Interface) (h : Heap)
    → Onwards h
    → Returns (Succeeds (λ c. c.chars ≡ gi.filename.chars)) (interface_get_os_filename (some gi) h)
unfolding interface_get_os_filename
interface_get_os_filename-Succeeds gi h o = string_copy-Succeeds gi.filename h o

pub interface_get_device_copy-Succeeds :
    (gi : Interface) (h : Heap)
    → Onwards h
    → Returns (Succeeds (λ _. Unit {0})) (interface_get_device_copy gi h)
unfolding interface_get_device_copy
interface_get_device_copy-Succeeds gi h o = device_copy-Succeeds gi.device h o
