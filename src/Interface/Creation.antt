-- ===== src/Interface/Creation.antt =====
-- The creation of an interface, with each step that may fail.
use libusbp.Base.{
  ℕ, ◌+◌, ◌≡◌, refl, sym, ap, subst, ◌∙◌, inl, inr, true, false, Option, none, some, List, arith,
}
use libusbp.Heap.{Heap, no_blocks, block, block?}
use libusbp.Heap.Moves.{Moves, Short, Short-before, malloc-Gave, Gave}
use libusbp.Heap.Returns
use libusbp.Heap.Returns.{Returns, returns}
use libusbp.Error.{Error, Text, error_no_memory}
use libusbp.Usbfd.{Reply, equals}
use libusbp.Usbfd.Files.{LacksFile, check_existence-Checks}
use libusbp.Device
use libusbp.Device.{Device}
use libusbp.Device.Steps.{SameDevice, device_copy-GetsDevice, device_get_os_id-GetsText}
use libusbp.Steps.{Gets, SaysMore, proceed-Returns, unless_error-Returns}
use libusbp.Udev.{Libudev, DeviceInfo, UdevDevice}
use libusbp.Udev.Objects.{RefusesUsb, create_context-Opened}
use libusbp.Udev.Copies.{get_syspath_copy-GetsText}
use libusbp.Finding.Found.{interface_of, Misses, Misses-before, get_interface-Finds}
use libusbp.Finding.Nodes.{devnode_of, get_devnode_copy_from_syspath-GetsNode}
use libusbp.Interface.{
  Interface, Created, owned, assemble, find_node, check_interface, find_interface, copy_device,
  interface_create,
}
use libusbp.Interface.Ends.{
  finish-Ends, failure, fail-Gets, is_accepted_driver, check_driver_installation-Checks,
}

abbrev pub node_of : Libudev → (path : List ℕ) → Option (List ℕ)
node_of lib path = devnode_of (lib.device_of_syspath path)

-- The interface of a device with this syspath, as libudev and the file system have it.
pub record Makes (lib : Libudev) (access : List ℕ → Reply) (interface_number : ℕ) (d : Device)
    (path : List ℕ) (gi : Interface) : Type 0 where
  pub device : SameDevice d gi.device
  pub number : gi.interface_number ≡ interface_number
  pub info : DeviceInfo
  pub found : interface_of lib path interface_number ≡ some (some info)
  pub driver : is_accepted_driver info.driver ≡ true
  pub syspath : gi.syspath.chars ≡ info.syspath
  pub filename : node_of lib path ≡ some gi.filename.chars
  pub exists : equals (access gi.filename.chars).result 0 ≡ true

-- Why no interface was made: a request for memory fails, no interface is found, it has another
-- driver, the device has no node, or there is no file for that.
pub data Fails (lib : Libudev) (access : List ℕ → Reply) (interface_number : ℕ) (path : List ℕ)
    (h : Heap) (e : Error) : Type 0 where
  lacks_memory : Short h → Fails lib access interface_number path h e
  finds_none :
      (message : List ℕ) (inner : Error)
      → Misses (RefusesUsb lib) (interface_of lib path interface_number) message h inner
      → SaysMore failure inner e
      → Fails lib access interface_number path h e
  wrong_driver :
      (info : DeviceInfo)
      → interface_of lib path interface_number ≡ some (some info)
      → is_accepted_driver info.driver ≡ false
      → Fails lib access interface_number path h e
  no_devnode : node_of lib path ≡ none → Fails lib access interface_number path h e
  no_file :
      (filename : List ℕ) (inner : Error)
      → node_of lib path ≡ some filename
      → LacksFile (access filename) inner
      → SaysMore failure inner e
      → Fails lib access interface_number path h e

module _ (lib : Libudev) (access : List ℕ → Reply) (n : ℕ) (d : Device) (h : Heap) where
  -- The interface, which owns what was allocated; or an error with its reason, and NULL.
  abbrev pub CreatesFrom : List ℕ → Created → Heap → Type 0
  CreatesFrom path = Gets (Fails lib access n path h) (Makes lib access n d path) owned h

  module _ (at : ℕ) (c : Device) (s : Text) (same : SameDevice d c) where
    module _ (udev : ℕ) (dev : UdevDevice)
        (found : interface_of lib s.chars n ≡ some (some dev.info)) where
      assemble-Creates :
          (i f : Text) (k : Heap)
          → Makes lib access n d s.chars
              (record { at = at; device = c; interface_number = n; syspath = i; filename = f })
          → Moves h no_blocks
              (λ a.
                block at a
                + (Device.owned c a
                    + (block s.at a
                        + (block udev a + (block dev.at a + (block i.at a + block f.at a))))))
              k
          → Returns (CreatesFrom s.chars) (assemble lib access n at c s udev dev i f k)
      unfolding assemble
      assemble-Creates i f k made m =
          Returns.mono (finish-Ends _ _ k (λ a. omega (arith, m.live a))) λ x j (q, r).
            subst (λ y. CreatesFrom s.chars y j) (sym q)
              (
                made,
                record { live = λ a. omega (arith, m.live a, r.live a); same = r.same ∙ m.same },
              )

      find_node-Creates :
          (i : Text) (g : Heap)
          → is_accepted_driver dev.info.driver ≡ true
          → i.chars ≡ dev.info.syspath
          → Moves h no_blocks
              (λ a.
                block at a
                + (Device.owned c a
                    + (block s.at a + (block udev a + (block dev.at a + block i.at a)))))
              g
          → Returns (CreatesFrom s.chars) (find_node lib access n at c s udev dev i g)
      unfolding find_node
      find_node-Creates i g driver ipath m =
          Returns.bind (get_devnode_copy_from_syspath-GetsNode lib s.chars g) λ x k r.
            proceed-Returns _ _ x k r
              (λ e q f.
                fail-Gets (Fails lib access n s.chars h) _ _ e h g k
                  (record { live = λ a. omega (arith, m.live a); same = m.same }) f
                  (λ r w. elim q [
                    | inl lack ↦ lacks_memory (Short-before m lack)
                    | inr b ↦ no_devnode b
                  ]))
              λ filename q n'.
                Returns.bind (check_existence-Checks (access filename.chars) filename.chars k)
                  λ y j c'.
                    unless_error-Returns _ _ y j c'
                      (λ e z f.
                        fail-Gets (Fails lib access n s.chars h) _ _ e h k j
                          (record {
                            live = λ a. omega (arith, m.live a, n'.live a);
                            same = n'.same ∙ m.same;
                          })
                          f (λ r w. no_file filename.chars e q z w))
                      λ z j≡k.
                        assemble-Creates i filename j
                          (record {
                            device = same;
                            number = refl;
                            info = dev.info;
                            found = found;
                            driver = driver;
                            syspath = ipath;
                            filename = q;
                            exists = z;
                          })
                          (record {
                            live = λ a. omega (arith, m.live a, n'.live a, ap (λ k. k.live a) j≡k);
                            same = ap (λ k. k.surroundings) j≡k ∙ n'.same ∙ m.same;
                          })

      check_interface-Creates :
          (g : Heap)
          → Moves h no_blocks
              (λ a.
                block at a + (Device.owned c a + (block s.at a + (block udev a + block dev.at a))))
              g
          → Returns (CreatesFrom s.chars) (check_interface lib access n at c s udev dev g)
      unfolding check_interface
      check_interface-Creates g m = Returns.bind (check_driver_installation-Checks dev g) λ y j c'.
          unless_error-Returns _ _ y j c'
            (λ e z f.
              fail-Gets (Fails lib access n s.chars h) _ _ e h g j
                (record { live = λ a. omega (arith, m.live a); same = m.same }) f
                (λ r w. wrong_driver dev.info found z))
            λ z j≡g. Returns.bind (get_syspath_copy-GetsText dev j) λ x k r.
              let m' : Moves h no_blocks
                  (λ a.
                    block at a
                    + (Device.owned c a + (block s.at a + (block udev a + block dev.at a))))
                  j =
                record {
                  live = λ a. omega (arith, m.live a, ap (λ k. k.live a) j≡g);
                  same = ap (λ k. k.surroundings) j≡g ∙ m.same;
                } in
              proceed-Returns _ _ x k r
                (λ e q f.
                  fail-Gets (Fails lib access n s.chars h) _ _ e h j k
                    (record { live = λ a. omega (arith, m'.live a); same = m'.same }) f
                    (λ r w. lacks_memory (Short-before m' q)))
                λ i q n'. find_node-Creates i k z q (record {
                  live = λ a. omega (arith, m'.live a, n'.live a);
                  same = n'.same ∙ m'.same;
                })

    find_interface-Creates :
        (g : Heap)
        → Moves h no_blocks (λ a. block at a + (Device.owned c a + block s.at a)) g
        → Returns (CreatesFrom s.chars) (find_interface lib access n at c s g)
    unfolding find_interface
    find_interface-Creates g m = Returns.bind (create_context-Opened g) λ x k r.
        proceed-Returns _ _ x k r
          (λ e q f.
            fail-Gets (Fails lib access n s.chars h) _ _ e h g k
              (record { live = λ a. omega (arith, m.live a); same = m.same }) f
              (λ r w. elim q [ inl lack ↦ lacks_memory (Short-before m lack) | inr b ↦ absurd b ]))
          λ udev _ n'. Returns.bind (get_interface-Finds lib s.chars n k) λ y j r'.
            let m' : Moves h no_blocks
                (λ a. block at a + (Device.owned c a + (block s.at a + block udev a))) k =
              record { live = λ a. omega (arith, m.live a, n'.live a); same = n'.same ∙ m.same } in
            proceed-Returns _ _ y j r'
              (λ e q f.
                fail-Gets (Fails lib access n s.chars h) _ _ e h k j
                  (record { live = λ a. omega (arith, m'.live a); same = m'.same }) f
                  (λ r w. finds_none _ e (Misses-before m' q) w))
              λ dev q n''. check_interface-Creates udev dev q j (record {
                live = λ a. omega (arith, m'.live a, n''.live a);
                same = n''.same ∙ m'.same;
              })

  copy_device-Creates :
      (p : Option ℕ) (g : Heap)
      → Gave h p
      → Moves h no_blocks (block? p) g
      → Returns (CreatesFrom d.syspath.chars) (copy_device lib access n d p g)
  unfolding copy_device
  copy_device-Creates none g lack m =
      fail-Gets (Fails lib access n d.syspath.chars h) _ _ error_no_memory h g g
        (record { live = λ a. omega (arith, m.live a); same = m.same })
        (record { counted = refl; has_message = refl }, record { live = λ a. refl; same = refl })
        (λ r w. lacks_memory lack)
  copy_device-Creates (some at) g gave m = Returns.bind (device_copy-GetsDevice d g) λ x k r.
      proceed-Returns _ _ x k r
        (λ e q f.
          fail-Gets (Fails lib access n d.syspath.chars h) _ _ e h g k
            (record { live = λ a. omega (arith, m.live a); same = m.same }) f
            (λ r w. lacks_memory (Short-before m q)))
        λ c same n'. Returns.bind (device_get_os_id-GetsText c k) λ y j r'.
          let m' : Moves h no_blocks (λ a. block at a + Device.owned c a) k = record {
            live = λ a. omega (arith, m.live a, n'.live a);
            same = n'.same ∙ m.same;
          } in
          proceed-Returns _ _ y j r'
            (λ e q f.
              fail-Gets (Fails lib access n d.syspath.chars h) _ _ e h k j
                (record { live = λ a. omega (arith, m'.live a); same = m'.same }) f
                (λ r w. lacks_memory (Short-before m' q)))
            λ s q n''.
              subst (λ path. Returns (CreatesFrom path) (find_interface lib access n at c s j))
                (q ∙ same.syspath)
                (find_interface-Creates at c s same j (record {
                  live = λ a. omega (arith, m'.live a, n''.live a);
                  same = n''.same ∙ m'.same;
                }))

-- `libusbp_generic_interface_create` gives an interface object with a copy of the device, the
-- syspath of the first interface with this number among the children of the device, and the device
-- node of the device, which exists; the interface has no driver, or usbfs or
-- cp210x, the two that the code accepts.
-- It returns an error and NULL only where a request for memory fails, the search for the interface
-- finds none, its driver is not accepted, or the node or its file is missing; where there is no
-- such interface or file, the error has the code LIBUSBP_ERROR_NOT_READY, unless memory runs out for
-- it. In every case nothing stays allocated but what is returned.
pub interface_create-CreatesFrom :
    (lib : Libudev) (access : List ℕ → Reply) (interface_number : ℕ) (d : Device) (h : Heap)
    → Returns
        (CreatesFrom lib access interface_number d h d.syspath.chars)
        (interface_create lib access interface_number (some d) h)
unfolding interface_create
interface_create-CreatesFrom lib access interface_number d h =
    Returns.bind (malloc-Gave h)
      λ p g (gave, m). copy_device-Creates lib access interface_number d h p g gave m
