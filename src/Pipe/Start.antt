-- ===== src/Pipe/Start.antt =====
-- Starting endless transfers: every transfer that is not pending is submitted.
use libusbp.Base.{
  ℕ, zero, suc, ◌+◌, ◌-◌, ◌<◌, ◌≡◌, refl, ap, ◌∙◌, sym, inl, inr, true, Bool-cases, none, List, [],
  ◌∷◌, ◌++◌, arith, ltb, is_some, append-nil, append_assoc,
}
use libusbp.Heap.{Heap}
use libusbp.Heap.Moves.{Moves, Owned, Moves-trans}
use libusbp.Heap.Returns
use libusbp.Heap.Returns.{Returns, returns}
use libusbp.Usbfd.{Reply}
use libusbp.Error.{ErrorPtr}
use libusbp.Pipe.{Pipe, submit_all, start_endless_transfers}
use libusbp.Pipe.Blocks.{owned}
use libusbp.Pipe.Invariant.{IsValid}
use libusbp.Pipe.Submit.{queue, SubmittedNext, submit_next-SubmittedNext}

-- All slots are pending, the old ones first, and nothing but the ring has changed.
pub record SubmittedAll (p : Pipe) (h : Heap) (p' : Pipe) (g : Heap) : Type 0 where
  pub moves : Moves h (owned p) (owned p') g
  pub valid : IsValid p'
  pub new : List ℕ
  pub queue : queue p' ≡ queue p ++ new
  pub full : p'.pending_count ≡ p.transfer_count
  pub next_finish : p'.next_finish ≡ p.next_finish
  pub transfer_count : p'.transfer_count ≡ p.transfer_count
  pub endless : p'.endless_transfers_enabled ≡ p.endless_transfers_enabled

Submitted-trans :
    {reply : Reply} {p q r : Pipe} {h k g : Heap}
    → SubmittedNext reply p h q k
    → SubmittedAll q k r g
    → SubmittedAll p h r g
Submitted-trans {p} s a = record {
  moves = Moves-trans s.moves a.moves;
  valid = a.valid;
  new = p.next_submit ∷ a.new;
  queue =
      a.queue ∙ ap (λ l. l ++ a.new) s.queue ∙ append_assoc (queue p) (p.next_submit ∷ []) a.new;
  full = a.full ∙ s.transfer_count;
  next_finish = a.next_finish ∙ s.next_finish;
  transfer_count = a.transfer_count ∙ s.transfer_count;
  endless = a.endless ∙ s.endless;
}

submit_all-SubmittedAll :
    (fuel : ℕ) (replies : ℕ → Reply) (p : Pipe) (h : Heap)
    → IsValid p
    → p.transfer_count - p.pending_count < fuel
    → Owned (owned p) h
    → Returns (SubmittedAll p h) (submit_all fuel replies p h)
unfolding submit_all
submit_all-SubmittedAll zero replies p h v f o = absurd (omega arith)
submit_all-SubmittedAll (suc fuel) replies p h v f o =
    elim (Bool-cases (ltb p.pending_count p.transfer_count)) [
      | inl room ↦ simp room (
          Returns.bind (submit_next-SubmittedNext p v (ground arith) (replies 0) h o) λ q k s.
            Returns.mono
              (submit_all-SubmittedAll fuel (λ n. replies (n + 1)) q k s.valid
                (ground (arith, s.pending_count, s.transfer_count))
                (λ a. omega (arith, o a, s.moves.live a)))
              λ r g a. Submitted-trans s a)
      | inr full ↦ simp full (
          returns (record {
            moves = record { live = λ a. refl; same = refl };
            valid = v;
            new = [];
            queue = sym (append-nil (queue p));
            full = ground (arith, v.bounded);
            next_finish = refl;
            transfer_count = refl;
            endless = refl;
          }))
    ]

abbrev enabled : Pipe → Pipe
enabled p = record p { endless_transfers_enabled = true }

abbrev pub Started : Pipe → Heap → (ErrorPtr × Pipe) → Heap → Type 0
Started p h (e, p') g =
    (e ≡ none) × SubmittedAll (record p { endless_transfers_enabled = true }) h p' g

-- On a valid pipe whose transfers are allocated, `start_endless_transfers` ends within as many
-- submissions as there are transfers, without a failed assertion, and returns no error, also where
-- the kernel takes none of the requests. Then every transfer is pending in the ring, those that were
-- so before first and in their order, and the pipe resubmits from then on.
pub start-Started :
    (replies : ℕ → Reply) (p : Pipe) (h : Heap)
    → IsValid p
    → is_some p.transfer_array ≡ true
    → Owned (owned p) h
    → Returns (Started p h) (start_endless_transfers replies p h)
unfolding start_endless_transfers
start-Started replies p h v allocated o = simp allocated (
    Returns.bind
      (submit_all-SubmittedAll (p.transfer_count + 1) replies
        (record p { endless_transfers_enabled = true }) h
        (record {
          counted = v.counted;
          allocated = v.allocated;
          bounded = v.bounded;
          finish = v.finish;
          submit = v.submit;
          ring = v.ring;
        })
        (omega arith) o)
      λ q g s. returns (refl, s))
