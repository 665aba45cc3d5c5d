-- ===== src/Interface/Tests.antt =====
-- Tests of the generic interfaces of src/linux/generic_interface_linux.c.
use libusbp.Base.{refl, some}
use libusbp.Heap.{no_blocks}
use libusbp.Heap.Returns.{Returns}
use libusbp.Interface.{interface_create, owned}
use libusbp.Interface.Creation.{CreatesFrom, interface_create-CreatesFrom}
use libusbp.Interface.Success.{Succeeds, interface_create-Succeeds}
use libusbp.Interface.Objects.{interface_copy}
use libusbp.Interface.Objects.Copy.{CopiesInterface, interface_copy-CopiesInterface}
use libusbp.Samples.{heap_of}
use libusbp.Samples.Usb.{
  usb, access, device, device_path, interface_info, node_path, usb_interface, interface,
}

interface_create-CreatesFrom_example :
    Returns
      (CreatesFrom usb access 2 device (heap_of no_blocks) device_path)
      (interface_create usb access 2 (some device) (heap_of no_blocks))
interface_create-CreatesFrom_example =
    interface_create-CreatesFrom usb access 2 device (heap_of no_blocks)

interface_create-Succeeds_example :
    Returns
      (Succeeds usb access 2 device)
      (interface_create usb access 2 (some device) (heap_of no_blocks))
interface_create-Succeeds_example =
    interface_create-Succeeds usb access 2 device interface_info node_path (heap_of no_blocks)
      (λ n. refl)
      (record {
        enumerates = record { matched = refl; scanned = refl };
        found = usb_interface;
        driver = refl;
        has_node = refl;
        exists = refl;
      })

interface_copy-CopiesInterface_example :
    Returns
      (CopiesInterface interface (heap_of (owned interface)))
      (interface_copy (some interface) (heap_of (owned interface)))
interface_copy-CopiesInterface_example =
    interface_copy-CopiesInterface interface (heap_of (owned interface))
