-- ===== src/Pipe/Allocate.antt =====
-- Allocating the transfers of a pipe.
use libusbp.Base.{
  ℕ, ◌+◌, ◌<◌, ◌≡◌, ◌≢◌, refl, ap, ◌∙◌, sym, ◌⊎◌, inl, inr, true, Bool-cases, Option-cases, ◌||◌,
  Option, none, some, List, [], arith, ◌==◌, length, is_some,
}
use libusbp.Heap.{Heap, no_blocks, block, block?}
use libusbp.Heap.Moves.{Moves, malloc-Moves}
use libusbp.Heap.Returns
use libusbp.Heap.Returns.{Returns, returns}
use libusbp.Error.{Error, ErrorPtr, chars_of, codes_of, error_no_memory}
use libusbp.Error.Chain.{Carries, error_create-Carries, error_add-Carries, no_memory-Carries}
use libusbp.Transfer.{Transfer}
use libusbp.Pipe.{
  Pipe, Made, fail_allocation, install, allocate_in, allocate_transfers, transfers_of, transfers_in,
  refuse,
}
use libusbp.Pipe.Ring.{wrap}
use libusbp.Pipe.Blocks.{owned_all, owned, array_block}
use libusbp.Pipe.Invariant.{IsValid}
use libusbp.Pipe.Release.{array_free-Moves}
use libusbp.Pipe.Making.{
  AllFresh, AllFresh-get, released-AllFresh, MadeSome, create_transfers-MadeSome,
}

-- The pipe has this many new transfers of this size, none of them pending.
pub record HasTransfers (p : Pipe) (count size : ℕ) (h : Heap) (p' : Pipe) (g : Heap) : Type 0 where
  pub moves : Moves h (owned p) (owned p') g
  pub valid : IsValid p'
  pub fresh : AllFresh size (transfers_of p')
  pub transfer_count : p'.transfer_count ≡ count
  pub transfer_size : p'.transfer_size ≡ size
  pub pending : p'.pending_count ≡ 0
  pub pipe_id : p'.pipe_id ≡ p.pipe_id

-- An error that holds all the memory that stays allocated, and the pipe as it was.
pub record Unchanged (p : Pipe) (h : Heap) (e : ErrorPtr) (p' : Pipe) (g : Heap) : Type 0 where
  pub same_pipe : p' ≡ p
  pub chars : List ℕ
  pub codes : List ℕ
  pub carries : Carries no_blocks chars codes h e g

abbrev pub Allocated : Pipe → ℕ → ℕ → Heap → (ErrorPtr × Pipe) → Heap → Type 0
Allocated p count size h (e, p') g =
    ((e ≡ none) × HasTransfers p count size h p' g) ⊎ Unchanged p h e p' g

-- Before its transfers are allocated a pipe has no count, and all its cursors are 0.
module _ (p : Pipe) (v : IsValid p) (e : p.transfer_array ≡ none) where
  unallocated_count : p.transfer_count ≡ 0
  unallocated_count = sym v.counted ∙ ap (λ r. length (transfers_in r)) e

  unallocated_submit : p.next_submit ≡ 0
  unallocated_submit =
      v.submit
      ∙ ap (λ c. wrap c (p.next_finish + p.pending_count)) unallocated_count
      ∙ ground (arith, v.finish, v.bounded, unallocated_count)

abbrev installed : Pipe → (count size at : ℕ) → List Transfer → Pipe
installed p count size at ts = record p {
  transfer_array = some (record { at = at; transfers = ts });
  transfer_count = count;
  transfer_size = size;
}

made-HasTransfers :
    (p : Pipe) (count size at : ℕ) (ts : List Transfer) (h k g : Heap)
    → IsValid p
    → p.transfer_array ≡ none
    → 0 < count
    → Moves h no_blocks (block at) k
    → MadeSome size count k (none, ts) g
    → HasTransfers p count size h (installed p count size at ts) g
made-HasTransfers p count size at ts h k g v e c m (ms, f, l) =
    let z = unallocated_count p v e in
    record {
      moves = record {
        live = λ a. omega (
          arith,
          m.live a,
          ms.live a,
          ap (λ r. array_block r a + owned_all (transfers_in r) a) e,
        );
        same = ms.same ∙ m.same;
      };
      valid = record {
        counted = l;
        allocated = λ _. c;
        bounded = omega (arith, v.bounded, z);
        finish = omega (arith, v.finish, z);
        submit = unallocated_submit p v e ∙ ground (arith, v.finish, v.bounded, z);
        ring = record {
          each = λ i t q. (AllFresh-get size ts i t f q).0;
          idle = λ i t q _. (AllFresh-get size ts i t f q).1;
        };
      };
      fresh = f;
      transfer_count = refl;
      transfer_size = refl;
      pending = omega (arith, v.bounded, z);
      pipe_id = refl;
    }

-- The transfers that were made are given back.
give_back-Unchanged :
    (p : Pipe) (count size at : ℕ) (x : Error) (ts : List Transfer) (h k g : Heap)
    → Moves h no_blocks (block at) k
    → MadeSome size count k (some x, ts) g
    → Returns (λ r g. Unchanged p h r.0 r.1 g) (install p count size at (some x, ts) g)
unfolding install fail_allocation
give_back-Unchanged p count size at x ts h k g m (ms, f, w) =
    Returns.bind
      (array_free-Moves (some (record { at = at; transfers = ts })) g
        (λ a. omega (arith, m.live a, ms.live a)))
      λ _ g₁ m₁.
        Returns.bind
          (error_add-Carries (some x) _ (chars_of x.message) (codes_of x.code_array) {h = h} g₁
            (λ a. omega arith)
            (record {
              moves = record {
                live = λ a.
                    omega (arith, m.live a, ms.live a, m₁.live a, released-AllFresh size ts a f);
                same = m₁.same ∙ ms.same ∙ m.same;
              };
              valid = w;
              tells = inl (refl, refl);
            }))
          λ r g₂ c₂. returns (record { same_pipe = refl; chars = _; codes = _; carries = c₂ })

install-Allocated :
    (p : Pipe) (count size at : ℕ) (made : Made) (h k g : Heap)
    → IsValid p
    → p.transfer_array ≡ none
    → 0 < count
    → Moves h no_blocks (block at) k
    → MadeSome size count k made g
    → Returns (Allocated p count size h) (install p count size at made g)
unfolding install
install-Allocated p count size at (none, ts) h k g v e c m ms =
    returns (inl (refl, made-HasTransfers p count size at ts h k g v e c m ms))
install-Allocated p count size at (some x, ts) h k g v e c m ms =
    Returns.mono (give_back-Unchanged p count size at x ts h k g m ms) λ r j u. inr u

allocate_in-Allocated :
    (p : Pipe) (count size : ℕ) (b : Option ℕ) (h k : Heap)
    → IsValid p
    → p.transfer_array ≡ none
    → 0 < count
    → size ≢ 0
    → Moves h no_blocks (block? b) k
    → Returns (Allocated p count size h) (allocate_in p count size b k)
unfolding allocate_in fail_allocation
allocate_in-Allocated p count size none h k v e c z m =
    Returns.bind
      (error_add-Carries (some error_no_memory) _ [] [] {h = h} k (λ a. omega arith)
        (no_memory-Carries [] [] (record { live = m.live; same = m.same })))
      λ r g c₂. returns (inr (record { same_pipe = refl; chars = _; codes = _; carries = c₂ }))
allocate_in-Allocated p count size (some at) h k v e c z m =
    Returns.bind (create_transfers-MadeSome p.handle_fd p.pipe_id size count k z) λ made g s.
      install-Allocated p count size at made h k g v e c (record { live = m.live; same = m.same }) s

refuse-Unchanged :
    (message : List ℕ) (p : Pipe) (h : Heap)
    → Returns (λ r g. Unchanged p h r.0 r.1 g) (refuse message p h)
refuse-Unchanged message p h =
    Returns.bind (error_create-Carries message h)
      λ e g c. returns (record { same_pipe = refl; chars = message; codes = []; carries = c })

-- `allocate_transfers` on a valid pipe: without transfers, and for a count and a size that are not 0,
-- it either installs exactly that many new transfers of that size, or returns an error, the pipe is
-- as it was, and every block allocated on the way was given back. Where there are transfers already,
-- or the count or the size is 0, it is always the error.
pub allocate_transfers-Allocated :
    (p : Pipe) (count size : ℕ) (h : Heap)
    → IsValid p
    → Returns
        (λ r g.
          Allocated p count size h r g
          × ((is_some p.transfer_array || (count == 0 || size == 0)) ≡ true
              → Unchanged p h r.0 r.1 g))
        (allocate_transfers p count size h)
unfolding allocate_transfers
allocate_transfers-Allocated p count size h v = elim (Option-cases p.transfer_array) [
  | inl e ↦ elim (Bool-cases (count == 0)) [
    | inl c ↦ simp (e, c) (Returns.mono (refuse-Unchanged _ p h) λ r g u. (inr u, λ _. u))
    | inr c ↦ elim (Bool-cases (size == 0)) [
      | inl z ↦ simp (e, c, z) (Returns.mono (refuse-Unchanged _ p h) λ r g u. (inr u, λ _. u))
      | inr z ↦
          simp (e, c, z)
            (Returns.bind (malloc-Moves h) λ b k m.
              Returns.mono
                (allocate_in-Allocated p count size b h k v e (ground arith) (ground arith) m)
                λ r g a. (a, λ bad. cc))
    ]
  ]
  | inr (a, e) ↦ simp e (Returns.mono (refuse-Unchanged _ p h) λ r g u. (inr u, λ _. u))
]
