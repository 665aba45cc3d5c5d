-- ===== src/Windows/Device/Ends.antt =====
-- What is freed at the end of making a device.
use libusbp.Base.{ℕ, ◌+◌, Option, none, some, arith}
use libusbp.Heap.{block?}
use libusbp.Heap.Returns
use libusbp.Heap.Returns.{Returns, returns}
use libusbp.Error.{text_block}
use libusbp.Steps.{Ends, pure-Ends, then-Ends, free-Ends, same-Ends}
use libusbp.Windows.Device.{Device, owned?, device_free, Created, finish}

pub device_free-Ends : (d : Option Device) → Ends (owned? d) (device_free d) tt
unfolding device_free
device_free-Ends none = pure-Ends tt
device_free-Ends (some d) =
    same-Ends _ _ _ _ (λ a. omega arith)
      (free-Ends (text_block d.device_instance_id) _ _ _
        (free-Ends (some d.at) _ _ _ (pure-Ends tt)))

pub finish-Ends :
    (new_ids : Option ℕ) (d : Option Device) (result : Created)
    → Ends (λ a. block? new_ids a + owned? d a) (finish new_ids d result) result
unfolding finish
finish-Ends new_ids d result =
    same-Ends _ _ _ _ (λ a. omega arith)
      (free-Ends new_ids _ _ _ (
        then-Ends (device_free d) (owned? d) _ _ _
          (λ h o. Returns.mono (device_free-Ends d h o) λ r g (q, m). m) (pure-Ends result)))
