-- ===== src/Interface/Objects.antt =====
-- src/linux/generic_interface_linux.c: freeing, copying and reading a generic interface.
pub mod Copy
use libusbp.Base.{Option, none, some, text, ℕ}
use libusbp.Heap.{M, pure, ◌>>=◌, ◌>>◌, malloc, free}
use libusbp.Error.{Error, Text, ErrorPtr, error_create}
use libusbp.Device.{Device, Copied, device_copy, device_free, string_copy, string_free}
use libusbp.Steps.{proceed}
use libusbp.Interface.{Interface, Created}

-- `libusbp_generic_interface_free`
pub interface_free : Option Interface → M (Unit {0})
interface_free none = pure tt
interface_free (some gi) = do
  device_free (some gi.device)
  string_free (some gi.syspath)
  string_free (some gi.filename)
  free (some gi.at)
  pure tt

-- The end of `libusbp_generic_interface_copy`, with what is not passed on. It returns NULL where the
-- local variable `error` is not.
finish_copy :
    (filename syspath : Option Text)
    → Option Device
    → (gi : Option ℕ) → Option Interface
    → M Created
finish_copy filename syspath device gi dest = do
  string_free filename
  string_free syspath
  device_free device
  free gi
  pure (none, dest)

copy_filename : Interface → (at : ℕ) → Device → (syspath : Text) → M Created
unfolding finish_copy
copy_filename source at device syspath =
    string_copy source.filename
    >>= proceed (λ error filename. finish_copy filename (some syspath) (some device) (some at) none)
        λ filename. finish_copy none none none none (
          some (record source { at = at; device = device; syspath = syspath; filename = filename }))

copy_syspath : Interface → (at : ℕ) → Device → M Created
unfolding copy_filename finish_copy
copy_syspath source at device =
    string_copy source.syspath
    >>= proceed (λ error syspath. finish_copy none syspath (some device) (some at) none)
        (copy_filename source at device)

copy_at : Interface → Option ℕ → M Created
unfolding copy_syspath finish_copy
copy_at source none = finish_copy none none none none none
copy_at source (some at) =
    device_copy (some source.device)
    >>= proceed (λ error device. finish_copy none none device (some at) none)
        (copy_syspath source at)

-- `libusbp_generic_interface_copy` with an output pointer that is not NULL.
pub interface_copy : Option Interface → M Created
unfolding copy_at
interface_copy none = pure (none, none)
interface_copy (some source) = malloc >>= copy_at source

null_interface : M (ErrorPtr × Option Text)
null_interface = do error ← error_create (text "Generic interface is null."); pure (error, none)

-- `libusbp_generic_interface_get_os_id` with an output pointer that is not NULL.
pub interface_get_os_id : Option Interface → M (ErrorPtr × Option Text)
unfolding null_interface
interface_get_os_id none = null_interface
interface_get_os_id (some gi) = string_copy gi.syspath

-- `libusbp_generic_interface_get_os_filename` with an output pointer that is not NULL.
pub interface_get_os_filename : Option Interface → M (ErrorPtr × Option Text)
unfolding null_interface
interface_get_os_filename none = null_interface
interface_get_os_filename (some gi) = string_copy gi.filename

-- `generic_interface_get_device_copy`
pub interface_get_device_copy : Interface → M Copied
interface_get_device_copy gi = device_copy (some gi.device)
