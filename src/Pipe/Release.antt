-- ===== src/Pipe/Release.antt =====
-- Freeing the transfers of a pipe, and closing it.
use libusbp.Base.{
  ℕ, ◌+◌, ◌≤◌, ◌≡◌, refl, ap, ◌∙◌, inl, inr, Bool-cases, Option, none, some, List, [], ◌∷◌, arith,
  if◌then◌else◌,
}
use libusbp.Heap.{Heap, Blocks, no_blocks, block}
use libusbp.Heap.Moves.{Moves, Owned, free-Moves}
use libusbp.Heap.Returns
use libusbp.Heap.Returns.{Returns, returns}
use libusbp.Transfer.{Transfer}
use libusbp.Transfer
use libusbp.Transfer.Ownership.{transfer_free-Moves}
use libusbp.Pipe.{
  Pipe, TransferArray, free_transfers, array_free, close, transfers_of, transfers_in,
}
use libusbp.Pipe.Blocks.{owned_all, array_block, owned}

-- What is freed of a transfer: all its blocks, but none while it is pending.
abbrev pub released : Transfer → Blocks
released t a = if t.pending then 0 else Transfer.owned t a

abbrev pub released_all : List Transfer → Blocks
released_all [] a = 0
released_all (t ∷ ts) a = released t a + released_all ts a

released-le-owned : (t : Transfer) (a : ℕ) → released t a ≤ Transfer.owned t a
released-le-owned t a = elim (Bool-cases t.pending) [
  | inl e ↦ simp e (omega arith)
  | inr e ↦ simp e (omega arith)
]

pub released_all-le-owned_all : (ts : List Transfer) (a : ℕ) → released_all ts a ≤ owned_all ts a
released_all-le-owned_all [] a = omega arith
released_all-le-owned_all (t ∷ ts) a =
    omega (arith, released-le-owned t a, released_all-le-owned_all ts a)

transfer_free-released :
    (t : Transfer) (h : Heap)
    → Owned (Transfer.owned t) h
    → Returns (λ _ g. Moves h (released t) no_blocks g) (Transfer.transfer_free t h)
transfer_free-released t h o = Returns.mono (transfer_free-Moves t h o) λ _ g m.
    elim (Bool-cases t.pending) [
      | inl e ↦
          let q : g ≡ h = simp e at m in
          record {
            live = λ a. simp e (omega (arith, ap (λ k. k.live a) q));
            same = ap (λ k. k.surroundings) q;
          }
      | inr e ↦
          let q : Moves h (Transfer.owned t) no_blocks g = simp e at m in
          record { live = λ a. simp e (q.live a); same = q.same }
    ]

pub free_transfers-Moves :
    (ts : List Transfer) (h : Heap)
    → Owned (owned_all ts) h
    → Returns (λ _ g. Moves h (released_all ts) no_blocks g) (free_transfers ts h)
unfolding free_transfers
free_transfers-Moves [] h o = returns (record { live = λ a. refl; same = refl })
free_transfers-Moves (t ∷ ts) h o =
    Returns.bind (transfer_free-released t h (λ a. omega (arith, o a))) λ _ k m.
      Returns.mono
        (free_transfers-Moves ts k (λ a. omega (arith, o a, m.live a, released-le-owned t a)))
        λ _ g n. record { live = λ a. omega (arith, m.live a, n.live a); same = n.same ∙ m.same }

abbrev pub released_array : Option TransferArray → Blocks
released_array r a = array_block r a + released_all (transfers_in r) a

pub array_free-Moves :
    (r : Option TransferArray) (h : Heap)
    → Owned (λ a. array_block r a + owned_all (transfers_in r) a) h
    → Returns (λ _ g. Moves h (released_array r) no_blocks g) (array_free r h)
unfolding array_free
array_free-Moves none h o = returns (record { live = λ a. refl; same = refl })
array_free-Moves (some r) h o =
    Returns.bind (free_transfers-Moves r.transfers h (λ a. omega (arith, o a))) λ _ k m.
      Returns.bind
        (free-Moves (some r.at) k
          (λ a. omega (arith, o a, m.live a, released_all-le-owned_all r.transfers a)))
        λ _ g n.
          returns (record { live = λ a. omega (arith, m.live a, n.live a); same = n.same ∙ m.same })

-- `libusbp_async_in_pipe_close` frees the pipe, its array and each transfer that is not pending, and
-- leaves the memory of the pending ones, which the kernel may still write to, allocated.
pub close-Moves :
    (p : Pipe) (h : Heap)
    → Owned (owned p) h
    → Returns
        (λ _ g. Moves h (λ a. block p.at a + released_array p.transfer_array a) no_blocks g)
        (close (some p) h)
unfolding close
close-Moves p h o =
    Returns.bind (array_free-Moves p.transfer_array h (λ a. omega (arith, o a))) λ _ k m.
      Returns.bind
        (free-Moves (some p.at) k
          (λ a. omega (arith, o a, m.live a, released_all-le-owned_all (transfers_of p) a)))
        λ _ g n.
          returns (record { live = λ a. omega (arith, m.live a, n.live a); same = n.same ∙ m.same })
