-- ===== src/Handle/Tests.antt =====
-- Tests of the handles of src/linux/generic_handle_linux.c.
use libusbp.Base.{pos, ℕ, refl, ◌≡◌, true, ltb, lt→ltb, none, some, List, [], ◌∷◌, text, arith}
use libusbp.Heap.{Heap, no_blocks}
use libusbp.Heap.Returns.{Returns}
use libusbp.Usbfd.{Reply, BulkTransfer}
use libusbp.Handle.{Handle, set_timeout, read_pipe}
use libusbp.Handle.Timeouts.{SetTimeout, set_timeout-SetTimeout}
use libusbp.Handle.Transfers.{PipeTransferred, read_pipe-PipeTransferred}
use libusbp.Samples.{heap_of}
use libusbp.Interface
use libusbp.Steps.{Checks}
use libusbp.Samples.Usb.{interface, device}
use libusbp.Handle.Opening.{Node, handle_open, check_device_descriptor, new_handle}
use libusbp.Handle.Opening.Checking.{IsRead, matches, Mismatches, check_device_descriptor-Checks}
use libusbp.Handle.Opening.Opens.{OpensHandle, handle_open-OpensHandle}
use libusbp.Handle.Opening.Faults.{handle_open-faults}

abbrev zeros : List ℕ
zeros = 0 ∷ 0 ∷ 0 ∷ 0 ∷ 0 ∷ 0 ∷ 0 ∷ 0 ∷ 0 ∷ 0 ∷ 0 ∷ 0 ∷ 0 ∷ 0 ∷ 0 ∷ 0 ∷ []

abbrev handle : Handle
handle = record { at = 1; device = none; fd = pos 3; in_timeout = zeros; out_timeout = zeros }

set_timeout-SetTimeout_example :
    Returns
      (SetTimeout handle 0x82 250 (heap_of no_blocks))
      (set_timeout handle 0x82 250 (heap_of no_blocks))
set_timeout-SetTimeout_example =
    set_timeout-SetTimeout handle 0x82 250 (heap_of no_blocks) (record { ins = refl; outs = refl })
      (omega arith)

abbrev kernel : BulkTransfer → Reply
kernel t = record { result = pos t.len; errno = pos 0 }

read_pipe-PipeTransferred_example :
    Returns
      (PipeTransferred true kernel 0x82 0
        (some 7)
        64
        (text "Failed to read from pipe.")
        (some 0)
        (heap_of no_blocks))
      (read_pipe kernel (some handle) 0x82 (some 7) 64 (some 0) (heap_of no_blocks))
read_pipe-PipeTransferred_example =
    read_pipe-PipeTransferred kernel handle 0x82 0 (some 7) 64 (some 0) (heap_of no_blocks)
      (omega arith) refl

-- A device node that is opened as file 3, with the descriptor of the sample device.
abbrev node : Node
node = record {
  open_reply = λ filename. record { result = pos 3; errno = pos 0 };
  lseek_reply = record { result = pos 0; errno = pos 0 };
  read_reply = record { result = pos 18; errno = pos 0 };
  descriptor = record { id_vendor = 0x1ffb; id_product = 0x2300; bcd_device = 0x0100 };
}

handle_open-OpensHandle_example :
    Returns
      (OpensHandle node interface (heap_of (Interface.owned interface)))
      (handle_open node (some interface) (heap_of (Interface.owned interface)))
handle_open-OpensHandle_example =
    handle_open-OpensHandle node interface (heap_of (Interface.owned interface)) refl

check_device_descriptor-Checks_example :
    Returns
      (Checks
        (IsRead node × (matches node.descriptor device ≡ true))
        (λ _. Mismatches node device)
        (heap_of no_blocks))
      (check_device_descriptor node (new_handle 1 device (pos 3)) (heap_of no_blocks))
check_device_descriptor-Checks_example =
    check_device_descriptor-Checks node 1 device (pos 3) (heap_of no_blocks)

-- Only the request number 0 fails.
abbrev first_refused : Heap
first_refused = record {
  next = 0;
  live = no_blocks;
  surroundings = record { grants = λ n. ltb 0 n; strerror = λ errno. none };
}

handle_open-faults_example : handle_open node (some interface) first_refused ≡ none
handle_open-faults_example =
    handle_open-faults node interface first_refused refl refl (λ n b. lt→ltb 0 n b)
