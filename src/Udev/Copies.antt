-- ===== src/Udev/Copies.antt =====
-- Copies of the texts of a device of libudev, as steps of a longer function.
use libusbp.Heap.{Heap}
use libusbp.Heap.Returns.{Returns}
use libusbp.Device.Steps.{GetsText, string_copy-GetsText}
use libusbp.Udev.{UdevDevice, get_syspath_copy}
use libusbp.Udev.Sysattrs.{copy_of}

pub get_syspath_copy-GetsText :
    (dev : UdevDevice) (h : Heap)
    → Returns (GetsText (copy_of dev.info.syspath) h) (get_syspath_copy dev h)
unfolding get_syspath_copy
get_syspath_copy-GetsText dev h = string_copy-GetsText (copy_of dev.info.syspath) h
