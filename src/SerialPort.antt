-- ===== src/SerialPort.antt =====
-- src/linux/serial_port_linux.c: serial ports, which name the tty of an interface.
pub mod Ends
pub mod Creation
pub mod Copy
mod Tests
use libusbp.Base.{ℕ, ◌+◌, Option, none, some, List, text}
use libusbp.Heap.{Blocks, block, block?, M, pure, fault, ◌>>=◌, ◌>>◌, malloc, free}
use libusbp.Error.{Error, Text, ErrorPtr, error_create, error_no_memory, text_block}
use libusbp.Device.{Device, device_get_os_id, string_copy, string_free}
use libusbp.Steps.{proceed}
use libusbp.Udev.{Libudev, UdevDevice, create_context, get_syspath_copy}
use libusbp.Finding.{get_interface, get_tty}

-- `struct libusbp_serial_port`, with its address `at`. Its pointers are NULL until they are set.
pub record SerialPort : Type 0 where
  pub at : ℕ
  pub syspath : Option Text
  pub port_name : Option Text

abbrev pub owned : SerialPort → Blocks
owned port a =
    block? (text_block port.syspath) a + (block? (text_block port.port_name) a + block port.at a)

abbrev pub owned? : Option SerialPort → Blocks
owned? none a = 0
owned? (some port) a = owned port a

-- `libusbp_serial_port_free`
pub serial_port_free : Option SerialPort → M (Unit {0})
serial_port_free none = pure tt
serial_port_free (some port) = do
  string_free port.syspath
  string_free port.port_name
  free (some port.at)
  pure tt

abbrev pub Created : Type 0
Created = ErrorPtr × Option SerialPort

-- The end of `libusbp_serial_port_create`, with its local variables.
pub finish :
    (tty_dev interface_dev udev : Option ℕ) (device_syspath : Option Text)
    (port : Option SerialPort)
    → Created
    → M Created
unfolding serial_port_free
finish tty_dev interface_dev udev device_syspath port result = do
  free tty_dev
  free interface_dev
  free udev
  string_free device_syspath
  serial_port_free port
  pure result

abbrev address? : Option UdevDevice → Option ℕ
address? none = none
address? (some dev) = some dev.at

-- The steps, each with what the steps before it made.
module _ (lib : Libudev) (interface_number : ℕ) where
  set_port_name :
      (port : SerialPort)
      → Text
      → (udev interface_dev : ℕ) → UdevDevice
      → Option (List ℕ)
      → M Created
  unfolding finish
  set_port_name port device_syspath udev interface_dev tty none = do
    error ← error_create (text "The DEVNAME property does not exist.")
    finish (some tty.at) (some interface_dev) (some udev) (some device_syspath) (some port)
        (error, none)
  set_port_name port device_syspath udev interface_dev tty (some name) =
      string_copy (record { at = 0; chars = name })
      >>= proceed
          (λ error copy.
            finish (some tty.at) (some interface_dev) (some udev) (some device_syspath)
              (some (record port { port_name = copy })) (some error, none))
          λ copy.
            finish (some tty.at) (some interface_dev) (some udev) (some device_syspath) none
              (none, some (record port { port_name = some copy }))

  set_syspath : (port : SerialPort) → Text → (udev interface_dev : ℕ) → UdevDevice → M Created
  unfolding set_port_name finish
  set_syspath port device_syspath udev interface_dev tty =
      get_syspath_copy tty
      >>= proceed
          (λ error syspath.
            finish (some tty.at) (some interface_dev) (some udev) (some device_syspath)
              (some (record port { syspath = syspath })) (some error, none))
          λ syspath.
            set_port_name (record port { syspath = some syspath }) device_syspath udev interface_dev
              tty (tty.info.property (text "DEVNAME"))

  find_tty : (port : SerialPort) → Text → (udev : ℕ) → UdevDevice → M Created
  unfolding set_syspath finish
  find_tty port device_syspath udev interface_dev =
      get_tty lib interface_dev
      >>= proceed
          (λ error tty.
            finish (address? tty) (some interface_dev.at) (some udev) (some device_syspath)
              (some port) (some error, none))
          (set_syspath port device_syspath udev interface_dev.at)

  find_interface : (port : SerialPort) → Text → M Created
  unfolding find_tty finish
  find_interface port device_syspath =
      create_context
      >>= proceed
          (λ error udev. finish none none udev (some device_syspath) (some port) (some error, none))
          λ udev.
            get_interface lib device_syspath.chars interface_number
            >>= proceed
                (λ error dev.
                  finish none (address? dev) (some udev) (some device_syspath) (some port)
                    (some error, none))
                (find_tty port device_syspath udev)

  create_at : Device → Option ℕ → M Created
  unfolding find_interface finish
  create_at device none = finish none none none none none (some error_no_memory, none)
  create_at device (some at) =
      let port : SerialPort = record { at = at; syspath = none; port_name = none } in
      device_get_os_id (some device)
      >>= proceed (λ error syspath. finish none none none syspath (some port) (some error, none))
          (find_interface port)

  -- `libusbp_serial_port_create` with an output pointer that is not NULL.
  pub serial_port_create : Option Device → M Created
  unfolding create_at
  serial_port_create none = do error ← error_create (text "Device is null."); pure (error, none)
  serial_port_create (some device) = malloc >>= create_at device

-- `string_copy`, which a NULL string makes undefined.
copy_text : Option Text → M (ErrorPtr × Option Text)
copy_text none = fault
copy_text (some t) = string_copy t

-- The end of `libusbp_serial_port_copy`.
finish_copy : Option SerialPort → Created → M Created
unfolding serial_port_free
finish_copy port result = do serial_port_free port; pure result

copy_port_name : (source port : SerialPort) → M Created
unfolding copy_text finish_copy
copy_port_name source port =
    copy_text source.port_name
    >>= proceed
        (λ error name. finish_copy (some (record port { port_name = name })) (some error, none))
        λ name. finish_copy none (none, some (record port { port_name = some name }))

copy_at : SerialPort → Option ℕ → M Created
unfolding copy_text copy_port_name finish_copy
copy_at source none = finish_copy none (some error_no_memory, none)
copy_at source (some at) =
    let port : SerialPort = record { at = at; syspath = none; port_name = none } in
    copy_text source.syspath
    >>= proceed
        (λ error syspath. finish_copy (some (record port { syspath = syspath })) (some error, none))
        λ syspath. copy_port_name source (record port { syspath = some syspath })

-- `libusbp_serial_port_copy` with an output pointer that is not NULL.
pub serial_port_copy : Option SerialPort → M Created
unfolding copy_at
serial_port_copy none = pure (none, none)
serial_port_copy (some source) = malloc >>= copy_at source

-- `libusbp_serial_port_get_name` with an output pointer that is not NULL.
pub serial_port_get_name : Option SerialPort → M (ErrorPtr × Option Text)
unfolding copy_text
serial_port_get_name none = do
  error ← error_create (text "Serial port is null.")
  pure (error, none)
serial_port_get_name (some port) = copy_text port.port_name
