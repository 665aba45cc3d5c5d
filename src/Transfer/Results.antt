-- ===== src/Transfer/Results.antt =====
-- Reading the results of a transfer into the caller's memory.
use libusbp.Base.{
  zero, suc, ℕ, ◌≤◌, ◌≡◌, refl, ap, false, Option, none, some, List, [], ◌∷◌, arith, length, take,
}
use libusbp.Heap.{Heap}
use libusbp.Heap.Returns
use libusbp.Heap.Returns.{Returns, returns}
use libusbp.Error.{ErrorPtr}
use libusbp.Error.Ownership.{IsValid?}
use libusbp.Error.Copy.{Copies, error_copy-Copies}
use libusbp.Usbfd.{store}
use libusbp.Transfer.{
  Transfer, Buffer, Outputs, to_size, clamped_length, copy_bytes, copy_error, get_results,
}
use libusbp.Transfer.Ownership.{IsSound}

pub clamped-le-size : (t : Transfer) → IsSound t → clamped_length t.urb ≤ t.urb.buffer.size
clamped-le-size t s = ground (arith, ap to_size s.sized)

length-take-le : {A : Type 0} (n : ℕ) (xs : List A) → length (take n xs) ≤ n
length-take-le zero xs = omega arith
length-take-le (suc n) [] = omega arith
length-take-le (suc n) (x ∷ xs) = omega (arith, length-take-le n xs)

-- A pointer that is NULL stays NULL, and else a copy of the error is stored.
abbrev pub StoredCopy : ErrorPtr → Heap → Option ErrorPtr → Option ErrorPtr → Heap → Type 0
StoredCopy e h none none g = g ≡ h
StoredCopy e h none (some c) g = ⊥
StoredCopy e h (some old) none g = ⊥
StoredCopy e h (some old) (some c) g = Copies e h c g

-- What the caller gets: the number of bytes the kernel reports, but never more than the transfer's
-- buffer holds; that many bytes; and a copy of the transfer's error.
pub record GotResults (t : Transfer) (out : Outputs) (h : Heap) (out' : Outputs) (g : Heap)
    : Type 0 where
  pub transferred : out'.transferred ≡ store (clamped_length t.urb) out.transferred
  pub within : clamped_length t.urb ≤ t.urb.buffer.size
  pub buffer : out'.buffer ≡ store (take (clamped_length t.urb) t.urb.buffer.bytes) out.buffer
  pub fits : length (take (clamped_length t.urb) t.urb.buffer.bytes) ≤ t.urb.buffer.size
  pub error : StoredCopy t.error h out.transfer_error out'.transfer_error g

copy_bytes-store :
    (b : Buffer) (n : ℕ) (out : Option (List ℕ)) (h : Heap)
    → n ≤ b.size
    → copy_bytes b n out h ≡ some (store (take n b.bytes) out, h)
unfolding copy_bytes
copy_bytes-store b n none h l = refl
copy_bytes-store b n (some old) h l = ground arith

copy_error-StoredCopy :
    (e : ErrorPtr) (out : Option ErrorPtr) (h : Heap)
    → IsValid? e
    → Returns (StoredCopy e h out) (copy_error e out h)
unfolding copy_error
copy_error-StoredCopy e none h v = returns refl
copy_error-StoredCopy e (some old) h v = Returns.bind (error_copy-Copies e h v) λ c g m. returns m

-- On a sound transfer that is not pending, `async_in_transfer_get_results` never reads past the
-- transfer's buffer, even where the kernel reports a negative or too large length, and the caller
-- gets what `GotResults` says.
pub get_results-GotResults :
    (t : Transfer) (out : Outputs) (h : Heap)
    → IsSound t
    → t.pending ≡ false
    → Returns (GotResults t out h) (get_results t out h)
unfolding get_results
get_results-GotResults t out h s idle =
    let l = clamped-le-size t s in
    simp idle (
      rw (copy_bytes-store t.urb.buffer (clamped_length t.urb) out.buffer h l) (
        Returns.bind (copy_error-StoredCopy t.error out.transfer_error h s.error_valid) λ e g c.
          returns (record {
            transferred = refl;
            within = l;
            buffer = refl;
            fits = omega (arith, l, length-take-le (clamped_length t.urb) t.urb.buffer.bytes);
            error = c;
          })))

-- Storing a copy of the error frees nothing.
pub live-le-StoredCopy :
    (e : ErrorPtr) (h g : Heap) (out out' : Option ErrorPtr) (a : ℕ)
    → StoredCopy e h out out' g
    → h.live a ≤ g.live a
live-le-StoredCopy e h g none none a c = omega (arith, ap (λ k. k.live a) c)
live-le-StoredCopy e h g none (some x) a c = absurd c
live-le-StoredCopy e h g (some old) none a c = absurd c
live-le-StoredCopy none h g (some old) (some none) a c = omega (arith, ap (λ k. k.live a) c)
live-le-StoredCopy none h g (some old) (some (some x)) a c = absurd c
live-le-StoredCopy (some e) h g (some old) (some none) a c = absurd c
live-le-StoredCopy (some e) h g (some old) (some (some x)) a c = omega (arith, c.moves.live a)
