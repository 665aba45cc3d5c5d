-- ===== src/Error/Copy.antt =====
-- Copying an error object, and reading its message.
use libusbp.Base.{◌≡◌, refl, none, some}
use libusbp.Heap.{Heap}
use libusbp.Heap.Returns
use libusbp.Heap.Returns.{Returns, returns}
use libusbp.Error.{ErrorPtr, error_copy}
use libusbp.Error.Ownership.{IsValid?, IsCopy, copy-IsCopy}

abbrev pub Copies : ErrorPtr → Heap → ErrorPtr → Heap → Type 0
Copies none h none g = g ≡ h
Copies none h (some e) g = ⊥
Copies (some src) h none g = ⊥
Copies (some src) h (some e) g = IsCopy src h e g

-- `libusbp_error_copy` of NULL is NULL. Of a valid error it is never NULL, whichever requests for
-- memory fail: it is an error with the same message and the same codes whose memory is all newly
-- allocated, or the static error that reports a lack of memory, with nothing left allocated.
pub error_copy-Copies :
    (e : ErrorPtr) (h : Heap) → IsValid? e → Returns (Copies e h) (error_copy e h)
unfolding error_copy
error_copy-Copies none h v = returns refl
error_copy-Copies (some e) h v = Returns.bind (copy-IsCopy e h v) λ r g m. returns m
