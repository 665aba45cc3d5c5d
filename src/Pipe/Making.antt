-- ===== src/Pipe/Making.antt =====
-- Making the transfers of a pipe.
use libusbp.Base.{
  ℤ, ℕ, zero, suc, ◌+◌, ◌≡◌, ◌≢◌, refl, ap, ◌∙◌, subst, false, Option, none, some, List, [], ◌∷◌,
  arith, length, get_elem?, some-injective,
}
use libusbp.Heap.{Heap, no_blocks}
use libusbp.Heap.Moves.{Moves}
use libusbp.Heap.Returns
use libusbp.Heap.Returns.{Returns, returns}
use libusbp.Error.{owned?}
use libusbp.Error.Ownership.{IsValid as IsValidError}
use libusbp.Transfer.{Transfer, Created}
use libusbp.Transfer
use libusbp.Transfer.Ownership.{IsSound, IsCreated, created, failed, create-IsCreated}
use libusbp.Pipe.{Made, collect, create_transfers}
use libusbp.Pipe.Blocks.{owned_all}
use libusbp.Pipe.Release.{released_all}

-- Each transfer is sound, not pending, and of this size.
abbrev pub AllFresh : ℕ → List Transfer → Type 0
AllFresh size [] = Unit
AllFresh size (t ∷ ts) =
    IsSound t × (t.pending ≡ false) × (t.urb.buffer.size ≡ size) × AllFresh size ts

pub AllFresh-get :
    (size : ℕ) (ts : List Transfer) (i : ℕ) (t : Transfer)
    → AllFresh size ts
    → get_elem? ts i ≡ some t
    → IsSound t × (t.pending ≡ false)
AllFresh-get size [] i t f e = cc
AllFresh-get size (x ∷ ts) zero t f e =
    subst (λ u. IsSound u × (u.pending ≡ false)) (some-injective _ _ e) (f.0, f.1)
AllFresh-get size (x ∷ ts) (suc i) t f e = AllFresh-get size ts i t f.3 e

pub released-AllFresh :
    (size : ℕ) (ts : List Transfer) (a : ℕ) → AllFresh size ts → released_all ts a ≡ owned_all ts a
released-AllFresh size [] a f = refl
released-AllFresh size (t ∷ ts) a f = simp (f.1) (omega (arith, released-AllFresh size ts a f.3))

-- All of `n` transfers were made, or some, and the error of the one that failed.
abbrev pub MadeSome : ℕ → ℕ → Heap → Made → Heap → Type 0
MadeSome size n h (none, ts) g =
    Moves h no_blocks (owned_all ts) g × AllFresh size ts × (length ts ≡ n)
MadeSome size n h (some e, ts) g =
    Moves h no_blocks (λ a. owned? (some e) a + owned_all ts a) g
    × AllFresh size ts
    × IsValidError e

pub cons-MadeSome :
    (size n : ℕ) (t : Transfer) (h k g : Heap) (made : Made)
    → Moves h no_blocks (Transfer.owned t) k
    → IsSound t
    → t.pending ≡ false
    → t.urb.buffer.size ≡ size
    → MadeSome size n k made g
    → MadeSome size (suc n) h (made.0, t ∷ made.1) g
cons-MadeSome size n t h k g (none, ts) m s p z (ms, f, l) = (
  record { live = λ a. omega (arith, m.live a, ms.live a); same = ms.same ∙ m.same },
  (s, p, z, f),
  ap suc l,
)
cons-MadeSome size n t h k g (some e, ts) m s p z (ms, f, v) = (
  record { live = λ a. omega (arith, m.live a, ms.live a); same = ms.same ∙ m.same },
  (s, p, z, f),
  v,
)

pub collect-MadeSome :
    (fd : ℤ) (pipe_id size n : ℕ) {h k : Heap} (r : Created) (more : Heap → Option (Made × Heap))
    → IsCreated fd pipe_id size h r k
    → Returns (MadeSome size n k) (more k)
    → Returns (MadeSome size (suc n) h) (collect more r k)
unfolding collect
collect-MadeSome fd pipe_id size n {h} {k} r more (created at b m) rest =
    let t = Transfer.fresh_transfer fd pipe_id size at b in
    Returns.bind rest λ made g s. returns (
      cons-MadeSome size n t h k g made m
        (record { quiet = λ p. refl; error_valid = tt; sized = refl }) refl refl s)
collect-MadeSome fd pipe_id size n r more (failed none chars c) rest = absurd c
collect-MadeSome fd pipe_id size n r more (failed (some e) chars c) rest =
    returns (record { live = λ a. omega (arith, c.moves.live a); same = c.moves.same }, tt, c.valid)

pub create_transfers-MadeSome :
    (fd : ℤ) (pipe_id size n : ℕ) (h : Heap)
    → size ≢ 0
    → Returns (MadeSome size n h) (create_transfers fd pipe_id size n h)
unfolding create_transfers
create_transfers-MadeSome fd pipe_id size zero h z =
    returns (record { live = λ a. refl; same = refl }, tt, refl)
create_transfers-MadeSome fd pipe_id size (suc n) h z =
    Returns.bind (create-IsCreated fd pipe_id size h z) λ r k c.
      collect-MadeSome fd pipe_id size n r (create_transfers fd pipe_id size n) c.0
        (create_transfers-MadeSome fd pipe_id size n k z)
