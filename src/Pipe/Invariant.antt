-- ===== src/Pipe/Invariant.antt =====
-- What holds of a pipe between any two calls.
use libusbp.Base.{
  ℕ, suc, ◌+◌, ◌-◌, ◌≤◌, ◌<◌, ◌≡◌, ap, ◌∙◌, sym, subst, true, false, some, List, arith, length,
  get_elem?, set, is_some, some-injective, length-set, get_elem?-set_cases, inl, inr,
  lt_of_get_elem?,
}
use native.Mathlib.Decide.{ℕ_discrete}
use libusbp.Transfer.{Transfer}
use libusbp.Transfer.Ownership.{IsSound}
use libusbp.Pipe.{Pipe, transfers_of, increment_and_wrap_size}
use libusbp.Pipe.Ring.{wrap, offset, offset-wrap, offset-increment}

-- The slots of transfers that are not pending in the ring are not pending in the kernel either.
pub record IsRing (ts : List Transfer) (from pending : ℕ) : Type 0 where
  pub each : (i : ℕ) (t : Transfer) → get_elem? ts i ≡ some t → IsSound t
  pub idle :
      (i : ℕ) (t : Transfer)
      → get_elem? ts i ≡ some t
      → pending ≤ offset from (length ts) i
      → t.pending ≡ false

pub record IsValid (p : Pipe) : Type 0 where
  pub counted : length (transfers_of p) ≡ p.transfer_count
  pub allocated : is_some p.transfer_array ≡ true → 0 < p.transfer_count
  pub bounded : p.pending_count ≤ p.transfer_count
  pub finish : p.next_finish ≤ p.transfer_count - 1
  pub submit : p.next_submit ≡ wrap p.transfer_count (p.next_finish + p.pending_count)
  pub ring : IsRing (transfers_of p) p.next_finish p.pending_count

-- The transfer in the slot behind the pending ones may become pending.
pub set-IsRing :
    (ts : List Transfer) (from k : ℕ) (t' : Transfer)
    → from < length ts
    → k < length ts
    → IsSound t'
    → IsRing ts from k
    → IsRing (set ts (wrap (length ts) (from + k)) t') from (suc k)
set-IsRing ts from k t' f l s r = record {
  each = λ i t e. elim (get_elem?-set_cases ts _ i t' e) [
    | inl (_, q) ↦ subst IsSound q s
    | inr (n, q) ↦ r.each i t q
  ];
  idle = λ i t e o.
      let same = ap (λ n. offset from n i) (length-set ts (wrap (length ts) (from + k)) t') in
      elim (get_elem?-set_cases ts _ i t' e) [
        | inl (p, q) ↦
            let here = ap (offset from (length ts)) (sym p) ∙ offset-wrap (length ts) from k f l in
            absurd (omega (arith, o, same, here))
        | inr (n, q) ↦ r.idle i t q (omega (arith, o, same))
      ];
}

-- The transfer at the front leaves the ring once it is no longer pending.
pub advance-IsRing :
    (ts : List Transfer) (from k : ℕ) (t : Transfer)
    → from < length ts
    → get_elem? ts from ≡ some t
    → t.pending ≡ false
    → IsRing ts from (suc k)
    → IsRing ts (increment_and_wrap_size from (length ts)) k
advance-IsRing ts from k t f e idle r = record {
  each = r.each;
  idle = λ i u q o. elim (ℕ_discrete i from) [
    | yes p ↦
        subst (λ v. v.pending ≡ false) (some-injective _ _ (sym e ∙ ap (get_elem? ts) (sym p) ∙ q))
          idle
    | no n ↦
        r.idle i u q
          (omega (arith, o, offset-increment (length ts) from i f (lt_of_get_elem? ts i q) n))
  ];
}
