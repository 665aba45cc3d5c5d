-- ===== src/SerialPort/Creation.antt =====
-- The creation of a serial port, with each step that may fail.
use libusbp.Base.{
  ℕ, ◌≡◌, refl, sym, ap, subst, ◌∙◌, inl, inr, Option, none, some, List, [], arith, text,
}
use libusbp.Heap.{Heap, no_blocks, block?}
use libusbp.Heap.Moves.{Moves, Short, Short-before, malloc-Gave, Gave}
use libusbp.Heap.Returns
use libusbp.Heap.Returns.{Returns, returns}
use libusbp.Error.{Error, ErrorPtr, Text, error_no_memory}
use libusbp.Error.Chain.{Carries, error_create-Carries}
use libusbp.Device.{Device}
use libusbp.Device.Steps.{device_get_os_id-GetsText, string_copy-GetsText}
use libusbp.Steps.{Gets, proceed-Returns}
use libusbp.Udev.{Libudev, DeviceInfo, UdevDevice}
use libusbp.Udev.Objects.{RefusesUsb, RefusesChildren, create_context-Opened}
use libusbp.Udev.Copies.{get_syspath_copy-GetsText}
use libusbp.Finding.Verdicts.{is_tty?}
use libusbp.Finding.Loop.{Outcome, search}
use libusbp.Finding.Found.{Misses, Misses-before, interface_of, get_interface-Finds, get_tty-Finds}
use libusbp.SerialPort.{
  SerialPort, owned, Created, finish, set_port_name, set_syspath, find_tty, find_interface,
  create_at, serial_port_create,
}
use libusbp.SerialPort.Ends.{held, finish-Ends, stop-Gets}

-- The first tty among the children of an interface.
abbrev pub tty_of : Libudev → (path : List ℕ) → Outcome
tty_of lib path = search lib is_tty? (lib.child_names path)

-- The port before its pointers are set, and with its syspath.
abbrev fresh : ℕ → SerialPort
fresh at = record { at = at; syspath = none; port_name = none }

abbrev with_syspath : ℕ → Text → SerialPort
with_syspath at i = record { at = at; syspath = some i; port_name = none }

-- The port of an interface of the device with this syspath, as libudev has it.
pub record Makes (lib : Libudev) (interface_number : ℕ) (path : List ℕ) (port : SerialPort)
    : Type 0 where
  pub interface : DeviceInfo
  pub found : interface_of lib path interface_number ≡ some (some interface)
  pub tty : DeviceInfo
  pub found_tty : tty_of lib interface.syspath ≡ some (some tty)
  pub syspath : Text
  pub has_syspath : port.syspath ≡ some syspath
  pub same_syspath : syspath.chars ≡ tty.syspath
  pub port_name : Text
  pub has_port_name : port.port_name ≡ some port_name
  pub same_port_name : tty.property (text "DEVNAME") ≡ some port_name.chars

-- Why no port was made: a request for memory fails, no interface or no tty is found, or the tty has
-- no name.
pub data Fails (lib : Libudev) (interface_number : ℕ) (path : List ℕ) (h : Heap) (e : Error)
    : Type 0 where
  lacks_memory : Short h → Fails lib interface_number path h e
  finds_no_interface :
      (message : List ℕ)
      → Misses (RefusesUsb lib) (interface_of lib path interface_number) message h e
      → Fails lib interface_number path h e
  finds_no_tty :
      (interface : DeviceInfo)
      → interface_of lib path interface_number ≡ some (some interface)
      → Misses
          (RefusesChildren lib interface.syspath)
          (tty_of lib interface.syspath)
          (text "Could not find tty device.")
          h
          e
      → Fails lib interface_number path h e
  has_no_name :
      (interface tty : DeviceInfo)
      → interface_of lib path interface_number ≡ some (some interface)
      → tty_of lib interface.syspath ≡ some (some tty)
      → tty.property (text "DEVNAME") ≡ none
      → Fails lib interface_number path h e

module _ (lib : Libudev) (n : ℕ) (h : Heap) where
  -- The port, which owns what was allocated; or an error with its reason, and NULL.
  abbrev pub CreatesFrom : List ℕ → Created → Heap → Type 0
  CreatesFrom path = Gets (Fails lib n path h) (Makes lib n path) owned h

  module _ (at : ℕ) (s : Text) (udev : ℕ) (dev : UdevDevice)
      (found : interface_of lib s.chars n ≡ some (some dev.info)) where
    module _ (tty : UdevDevice)
        (found_tty : tty_of lib dev.info.syspath ≡ some (some tty.info)) where
      no_name-Creates :
          (i : Text) (g : Heap) (e : ErrorPtr) (k : Heap)
          → tty.info.property (text "DEVNAME") ≡ none
          → Moves h no_blocks
              (held (some tty.at) (some dev.at) (some udev) (some s) (some (with_syspath at i)))
              g
          → Carries no_blocks (text "The DEVNAME property does not exist.") [] g e k
          → Returns (CreatesFrom s.chars) (
              finish
                (some tty.at)
                (some dev.at)
                (some udev)
                (some s)
                (some (with_syspath at i))
                (e, none)
                k)
      no_name-Creates i g none k q m c = absurd c
      no_name-Creates i g (some e) k q m c =
          stop-Gets (Fails lib n s.chars h) _ _ _ _ _ (some (with_syspath at i)) e h g k m
            (c.valid, c.moves) (has_no_name dev.info tty.info found found_tty q)

      port_name-Creates :
          (i : Text) (p : Option (List ℕ)) (g : Heap)
          → tty.info.property (text "DEVNAME") ≡ p
          → i.chars ≡ tty.info.syspath
          → Moves h no_blocks
              (held (some tty.at) (some dev.at) (some udev) (some s) (some (with_syspath at i)))
              g
          → Returns
              (CreatesFrom s.chars)
              (set_port_name lib n (with_syspath at i) s udev dev.at tty p g)
      unfolding set_port_name
      port_name-Creates i none g q r m =
          Returns.bind (error_create-Carries _ g) λ e k c. no_name-Creates i g e k q m c
      port_name-Creates i (some name) g q r m =
          Returns.bind (string_copy-GetsText (record { at = 0; chars = name }) g) λ x k y.
            proceed-Returns _ _ x k y
              (λ e lack f.
                stop-Gets (Fails lib n s.chars h) _ _ _ _ _ (some (with_syspath at i)) e h g k m f
                  (lacks_memory (Short-before m lack)))
              λ c u n'.
                Returns.mono
                  (finish-Ends _ _ _ _ none _ k (λ a. omega (arith, m.live a, n'.live a)))
                  λ z j (p, f).
                    subst (λ y. CreatesFrom s.chars y j) (sym p)
                      (
                        record {
                          interface = dev.info;
                          found = found;
                          tty = tty.info;
                          found_tty = found_tty;
                          syspath = i;
                          has_syspath = refl;
                          same_syspath = r;
                          port_name = c;
                          has_port_name = refl;
                          same_port_name = q ∙ ap some (sym u);
                        },
                        record {
                          live = λ a. omega (arith, m.live a, n'.live a, f.live a);
                          same = f.same ∙ n'.same ∙ m.same;
                        },
                      )

      syspath-Creates :
          (g : Heap)
          → Moves h no_blocks
              (held (some tty.at) (some dev.at) (some udev) (some s) (some (fresh at)))
              g
          → Returns (CreatesFrom s.chars) (set_syspath lib n (fresh at) s udev dev.at tty g)
      unfolding set_syspath
      syspath-Creates g m = Returns.bind (get_syspath_copy-GetsText tty g) λ x k r.
          proceed-Returns _ _ x k r
            (λ e lack f.
              stop-Gets (Fails lib n s.chars h) _ _ _ _ _ (some (fresh at)) e h g k m f
                (lacks_memory (Short-before m lack)))
            λ i q n'.
              port_name-Creates i (tty.info.property (text "DEVNAME")) k refl q
                (record { live = λ a. omega (arith, m.live a, n'.live a); same = n'.same ∙ m.same })

    tty-Creates :
        (g : Heap)
        → Moves h no_blocks (held none (some dev.at) (some udev) (some s) (some (fresh at))) g
        → Returns (CreatesFrom s.chars) (find_tty lib n (fresh at) s udev dev g)
    unfolding find_tty
    tty-Creates g m = Returns.bind (get_tty-Finds lib dev g) λ x k r.
        proceed-Returns _ _ x k r
          (λ e q f.
            stop-Gets (Fails lib n s.chars h) _ _ _ _ _ (some (fresh at)) e h g k m f
              (finds_no_tty dev.info found (Misses-before m q)))
          λ tty q n'.
            syspath-Creates tty q k
              (record { live = λ a. omega (arith, m.live a, n'.live a); same = n'.same ∙ m.same })

  interface-Creates :
      (at : ℕ) (s : Text) (g : Heap)
      → Moves h no_blocks (held none none none (some s) (some (fresh at))) g
      → Returns (CreatesFrom s.chars) (find_interface lib n (fresh at) s g)
  unfolding find_interface
  interface-Creates at s g m = Returns.bind (create_context-Opened g) λ x k r.
      proceed-Returns _ _ x k r
        (λ e q f.
          stop-Gets (Fails lib n s.chars h) _ _ _ _ _ (some (fresh at)) e h g k m f
            (elim q [ inl lack ↦ lacks_memory (Short-before m lack) | inr b ↦ absurd b ]))
        λ udev _ n'.
          let m' : Moves h no_blocks (held none none (some udev) (some s) (some (fresh at))) k =
            record { live = λ a. omega (arith, m.live a, n'.live a); same = n'.same ∙ m.same } in
          Returns.bind (get_interface-Finds lib s.chars n k) λ y j r'.
            proceed-Returns _ _ y j r'
              (λ e q f.
                stop-Gets (Fails lib n s.chars h) _ _ _ _ _ (some (fresh at)) e h k j m' f
                  (finds_no_interface _ (Misses-before m' q)))
              λ dev q n''. tty-Creates at s udev dev q j (record {
                live = λ a. omega (arith, m'.live a, n''.live a);
                same = n''.same ∙ m'.same;
              })

  create_at-Creates :
      (d : Device) (p : Option ℕ) (g : Heap)
      → Gave h p
      → Moves h no_blocks (block? p) g
      → Returns (CreatesFrom d.syspath.chars) (create_at lib n d p g)
  unfolding create_at
  create_at-Creates d none g lack m =
      stop-Gets (Fails lib n d.syspath.chars h) _ none none none none none error_no_memory h g g
        (record { live = λ a. omega (arith, m.live a); same = m.same })
        (record { counted = refl; has_message = refl }, record { live = λ a. refl; same = refl })
        (lacks_memory lack)
  create_at-Creates d (some at) g gave m =
      let m' : Moves h no_blocks (held none none none none (some (fresh at))) g = record {
        live = λ a. omega (arith, m.live a);
        same = m.same;
      } in
      Returns.bind (device_get_os_id-GetsText d g) λ x k r.
        proceed-Returns _ _ x k r
          (λ e lack f.
            stop-Gets (Fails lib n d.syspath.chars h) _ _ _ _ _ (some (fresh at)) e h g k m' f
              (lacks_memory (Short-before m lack)))
          λ s q n'.
            subst (λ path. Returns (CreatesFrom path) (find_interface lib n (fresh at) s k)) q
              (interface-Creates at s k (record {
                live = λ a. omega (arith, m.live a, n'.live a);
                same = n'.same ∙ m.same;
              }))

-- `libusbp_serial_port_create` gives a port with the syspath and the DEVNAME of the first tty among
-- the children of the first interface with this number of the device. It returns an error and NULL
-- only where a request for memory fails, there is no such interface or tty to find, or the tty has
-- no DEVNAME. In every case nothing stays allocated but what is returned.
pub serial_port_create-CreatesFrom :
    (lib : Libudev) (interface_number : ℕ) (d : Device) (h : Heap)
    → Returns
        (CreatesFrom lib interface_number h d.syspath.chars)
        (serial_port_create lib interface_number (some d) h)
unfolding serial_port_create
serial_port_create-CreatesFrom lib interface_number d h =
    Returns.bind (malloc-Gave h)
      λ p g (gave, m). create_at-Creates lib interface_number h d p g gave m
