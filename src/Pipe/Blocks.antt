-- ===== src/Pipe/Blocks.antt =====
-- The blocks of the heap that a pipe owns.
use libusbp.Base.{
  ℕ, zero, suc, ◌+◌, ◌≤◌, ◌≡◌, refl, Option, none, some, List, [], ◌∷◌, arith, get_elem?, set,
  some-injective, length, ap,
}
use libusbp.Heap.{Blocks, block}
use libusbp.Transfer.{Transfer}
use libusbp.Transfer
use libusbp.Pipe.{Pipe, TransferArray, transfers_of, transfers_in, with_transfers}

abbrev pub owned_all : List Transfer → Blocks
owned_all [] a = 0
owned_all (t ∷ ts) a = Transfer.owned t a + owned_all ts a

abbrev pub array_block : Option TransferArray → Blocks
array_block none a = 0
array_block (some r) a = block r.at a

abbrev pub owned : Pipe → Blocks
owned p a = block p.at a + array_block p.transfer_array a + owned_all (transfers_of p) a

pub owned_all-set :
    (ts : List Transfer) (i : ℕ) (t t' : Transfer) (a : ℕ)
    → get_elem? ts i ≡ some t
    → owned_all (set ts i t') a + Transfer.owned t a ≡ owned_all ts a + Transfer.owned t' a
owned_all-set [] i t t' a e = cc
owned_all-set (x ∷ ts) zero t t' a e =
    omega (arith, ap (λ u. Transfer.owned u a) (some-injective _ _ e))
owned_all-set (x ∷ ts) (suc i) t t' a e = omega (arith, owned_all-set ts i t t' a e)

pub transfers-with :
    (ts : List Transfer) (r : Option TransferArray)
    → length (transfers_in r) ≡ length ts
    → transfers_in (with_transfers ts r) ≡ ts
transfers-with [] none l = refl
transfers-with (t ∷ ts) none l = absurd (omega arith)
transfers-with ts (some r) l = refl

pub array_block-with :
    (ts : List Transfer) (r : Option TransferArray) (a : ℕ)
    → array_block (with_transfers ts r) a ≡ array_block r a
array_block-with ts none a = refl
array_block-with ts (some r) a = refl

pub owned-le-owned_all :
    (ts : List Transfer) (i : ℕ) (t : Transfer) (a : ℕ)
    → get_elem? ts i ≡ some t
    → Transfer.owned t a ≤ owned_all ts a
owned-le-owned_all [] i t a e = cc
owned-le-owned_all (x ∷ ts) zero t a e =
    omega (arith, ap (λ u. Transfer.owned u a) (some-injective _ _ e))
owned-le-owned_all (x ∷ ts) (suc i) t a e = omega (arith, owned-le-owned_all ts i t a e)
