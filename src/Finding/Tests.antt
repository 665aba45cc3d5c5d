-- ===== src/Finding/Tests.antt =====
-- Tests of the search for interfaces and ttys of src/linux/udev_linux.c.
use libusbp.Base.{◌++◌, text}
use libusbp.Print.{decimal}
use libusbp.Heap.{no_blocks}
use libusbp.Heap.Returns.{Returns}
use libusbp.Udev.Objects.{RefusesUsb}
use libusbp.Finding.{get_interface}
use libusbp.Finding.Found.{Finds, interface_of, get_interface-Finds}
use libusbp.Samples.{heap_of}
use libusbp.Samples.Usb.{usb, device_path}

get_interface-Finds_example :
    Returns
      (Finds
        (RefusesUsb usb)
        (interface_of usb device_path 2)
        (text "Could not find interface " ++ (decimal 2 ++ text "."))
        (heap_of no_blocks))
      (get_interface usb device_path 2 (heap_of no_blocks))
get_interface-Finds_example = get_interface-Finds usb device_path 2 (heap_of no_blocks)
