-- ===== src/SerialPort/Ends.antt =====
-- The end of the creation of a serial port, which frees what is not passed on.
use libusbp.Base.{ℕ, ◌+◌, refl, sym, subst, ◌∙◌, Option, none, some, arith}
use libusbp.Heap.{Heap, Blocks, M, no_blocks, block?, ◌>>◌}
use libusbp.Heap.Moves.{Moves}
use libusbp.Heap.Returns
use libusbp.Heap.Returns.{Returns}
use libusbp.Error.{Error, Text, text_block}
use libusbp.Device.Steps.{string_free-Ends}
use libusbp.Steps.{Failed, Gets, Ends, pure-Ends, then-Ends, free-Ends, same-Ends}
use libusbp.SerialPort.{SerialPort, owned, owned?, serial_port_free, Created, finish}

-- `libusbp_serial_port_free` gives back all that the port owns, also where it is not complete.
pub serial_port_free-Ends :
    (port : Option SerialPort) → Ends (owned? port) (serial_port_free port) tt
unfolding serial_port_free
serial_port_free-Ends none = pure-Ends tt
serial_port_free-Ends (some port) =
    same-Ends _ _ _ _ (λ a. omega arith)
      (string_free-Ends port.syspath _ _ _
        (string_free-Ends port.port_name _ _ _ (free-Ends (some port.at) _ _ _ (pure-Ends tt))))

pub then_free-Ends :
    {B : Type 0} (port : Option SerialPort) (held : Blocks) (k : M B) (b : B)
    → Ends held k b
    → Ends (λ a. owned? port a + held a) (serial_port_free port >> k) b
then_free-Ends port held k b ends =
    then-Ends (serial_port_free port) (owned? port) held k b
      (λ h o. Returns.mono (serial_port_free-Ends port h o) λ r g (q, m). m) ends

abbrev pub held : (tty_dev interface_dev udev : Option ℕ) → Option Text → Option SerialPort → Blocks
held tty_dev interface_dev udev device_syspath port a =
    block? tty_dev a
    + (block? interface_dev a
        + (block? udev a + (block? (text_block device_syspath) a + owned? port a)))

pub finish-Ends :
    (tty_dev interface_dev udev : Option ℕ) (device_syspath : Option Text)
    (port : Option SerialPort) (result : Created)
    → Ends
        (held tty_dev interface_dev udev device_syspath port)
        (finish tty_dev interface_dev udev device_syspath port result)
        result
unfolding finish
finish-Ends tty_dev interface_dev udev device_syspath port result =
    same-Ends _ _ _ _ (λ a. omega arith)
      (free-Ends tty_dev _ _ _ (
        free-Ends interface_dev _ _ _ (
          free-Ends udev _ _ _ (
            string_free-Ends device_syspath _ _ _ (then_free-Ends port _ _ _ (pure-Ends result))))))

-- After an error what was made is freed.
pub stop-Gets :
    (R : Error → Type 0) (P : SerialPort → Type 0) (tty_dev interface_dev udev : Option ℕ)
    (device_syspath : Option Text) (port : Option SerialPort) (e : Error) (h g k : Heap)
    → Moves h no_blocks (held tty_dev interface_dev udev device_syspath port) g
    → Failed e g k
    → R e
    → Returns
        (Gets R P owned h)
        (finish tty_dev interface_dev udev device_syspath port (some e, none) k)
stop-Gets R P tty_dev interface_dev udev device_syspath port e h g k m (v, n) why =
    Returns.mono
      (finish-Ends tty_dev interface_dev udev device_syspath port (some e, none) k
        (λ a. omega (arith, m.live a, n.live a)))
      λ x i (q, f).
        subst (λ y. Gets R P owned h y i) (sym q)
          (
            refl,
            (
              why,
              (
                v,
                record {
                  live = λ a. omega (arith, m.live a, n.live a, f.live a);
                  same = f.same ∙ n.same ∙ m.same;
                },
              ),
            ),
          )
