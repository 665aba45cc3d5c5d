-- ===== src/SerialPort/Tests.antt =====
-- Tests of the serial ports of src/linux/serial_port_linux.c.
use libusbp.Base.{some, text}
use libusbp.Heap.{no_blocks}
use libusbp.Heap.Returns.{Returns}
use libusbp.Error.{Text}
use libusbp.SerialPort.{SerialPort, serial_port_create}
use libusbp.SerialPort.Creation.{CreatesFrom, serial_port_create-CreatesFrom}
use libusbp.SerialPort.Copy.{complete_port}
use libusbp.Samples.{heap_of}
use libusbp.Samples.Usb.{usb, device, device_path, tty_path}

serial_port_create-CreatesFrom_example :
    Returns
      (CreatesFrom usb 2 (heap_of no_blocks) device_path)
      (serial_port_create usb 2 (some device) (heap_of no_blocks))
serial_port_create-CreatesFrom_example =
    serial_port_create-CreatesFrom usb 2 device (heap_of no_blocks)

abbrev syspath : Text
syspath = record { at = 2; chars = tty_path }

abbrev port_name : Text
port_name = record { at = 3; chars = text "/dev/ttyACM0" }

abbrev port : SerialPort
port = complete_port 1 syspath port_name
