-- ===== src/LinuxError/Tests.antt =====
-- Tests of the errors for error numbers of src/linux/error_linux.c.
use libusbp.Base.{refl, pos, negsuc, [], ◌∷◌, text, some}
use libusbp.Heap.{no_blocks}
use libusbp.Heap.Returns.{Returns}
use libusbp.Error.{error_stall, error_device_disconnected}
use libusbp.Error.Chain.{Carries}
use libusbp.LinuxError.{case_of, error_create_errno, error_from_urb_status}
use libusbp.LinuxError.Meaning.{
  errno_message, MeansStatus, error_create_errno-Carries, error_from_urb_status-MeansStatus,
}
use libusbp.Samples.{heap_of}

error_create_errno-Carries_example :
    Returns
      (Carries no_blocks
        (errno_message (pos 32) (some (text "Some message.")) (text "Control transfer failed."))
        (error_stall ∷ error_device_disconnected ∷ [])
        (heap_of no_blocks))
      (error_create_errno (pos 32) (text "Control transfer failed.") (heap_of no_blocks))
unfolding case_of
error_create_errno-Carries_example =
    error_create_errno-Carries (pos 32) (text "Control transfer failed.") (heap_of no_blocks)

error_from_urb_status-MeansStatus_example :
    Returns
      (MeansStatus (negsuc 1) (heap_of no_blocks))
      (error_from_urb_status (negsuc 1) (heap_of no_blocks))
error_from_urb_status-MeansStatus_example =
    error_from_urb_status-MeansStatus (negsuc 1) (heap_of no_blocks) refl
