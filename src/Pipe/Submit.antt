-- ===== src/Pipe/Submit.antt =====
-- Submitting the next transfer of a pipe, and all that are not pending.
use libusbp.Base.{
  ℕ, ◌+◌, ◌<◌, ◌≡◌, refl, ap, ◌∙◌, sym, subst, subst₂, lt→ltb, some, List, [], ◌∷◌, ◌++◌, arith,
  length, get_elem?, get_elem?_lt, set, length-set,
}
use libusbp.Heap.{Heap}
use libusbp.Heap.Moves.{Moves, Owned}
use libusbp.Heap.Returns
use libusbp.Heap.Returns.{Returns, returns}
use libusbp.Usbfd.{Reply}
use libusbp.Transfer.{Transfer}
use libusbp.Transfer.Ownership.{IsSound, Submitted, submit-Submitted}
use libusbp.Pipe.{Pipe, transfers_of, with_transfers, increment_and_wrap_size, submit_next_transfer}
use libusbp.Pipe.Ring.{wrap, offset, wrap-lt, wrap-increment, offset-wrap, slots, slots-suc}
use libusbp.Pipe.Blocks.{
  owned, owned_all, owned_all-set, owned-le-owned_all, transfers-with, array_block-with,
}
use libusbp.Pipe.Invariant.{IsValid, IsRing, set-IsRing}

-- The slots that wait to be finished, in order.
abbrev pub queue : Pipe → List ℕ
queue p = slots p.transfer_count p.next_finish p.pending_count

-- One slot more waits, the one behind the others. The transfer in it was submitted, no other was
-- touched, and nothing else but the ring has changed.
pub record SubmittedNext (reply : Reply) (p : Pipe) (h : Heap) (p' : Pipe) (g : Heap) : Type 0 where
  pub before : Transfer
  pub after : Transfer
  pub stood : get_elem? (transfers_of p) p.next_submit ≡ some before
  pub is_submitted : Submitted before reply h after g
  pub stands : transfers_of p' ≡ set (transfers_of p) p.next_submit after
  pub moves : Moves h (owned p) (owned p') g
  pub valid : IsValid p'
  pub queue : queue p' ≡ queue p ++ (p.next_submit ∷ [])
  pub pending_count : p'.pending_count ≡ p.pending_count + 1
  pub next_finish : p'.next_finish ≡ p.next_finish
  pub transfer_count : p'.transfer_count ≡ p.transfer_count
  pub endless : p'.endless_transfers_enabled ≡ p.endless_transfers_enabled

submitted : Pipe → Transfer → Pipe
submitted p t' = record p {
  transfer_array = with_transfers (set (transfers_of p) p.next_submit t') p.transfer_array;
  pending_count = p.pending_count + 1;
  next_submit = increment_and_wrap_size p.next_submit p.transfer_count;
}

module _ (p : Pipe) (v : IsValid p) (room : p.pending_count < p.transfer_count) where
  next_submit-lt : p.next_submit < length (transfers_of p)
  next_submit-lt = omega (
    arith,
    wrap-lt p.transfer_count p.next_finish p.pending_count (omega (arith, v.finish)) room,
    v.submit,
    v.counted,
  )

  next_submit-offset :
      offset p.next_finish (length (transfers_of p)) p.next_submit ≡ p.pending_count
  next_submit-offset =
      ap (offset p.next_finish (length (transfers_of p)))
        (v.submit ∙ ap (λ c. wrap c (p.next_finish + p.pending_count)) (sym v.counted))
      ∙ offset-wrap (length (transfers_of p)) p.next_finish p.pending_count
          (omega (arith, v.finish, v.counted)) (omega (arith, v.counted))

  submitted-transfers :
      (t' : Transfer) → transfers_of (submitted p t') ≡ set (transfers_of p) p.next_submit t'
  unfolding submitted
  submitted-transfers t' = transfers-with _ p.transfer_array (sym (length-set _ _ t'))

  submitted-IsValid : (t' : Transfer) → IsSound t' → IsValid (submitted p t')
  unfolding submitted
  submitted-IsValid t' s = record {
    counted = ap length (submitted-transfers t') ∙ length-set _ _ t' ∙ v.counted;
    allocated = λ _. omega arith;
    bounded = omega arith;
    finish = v.finish;
    submit =
        ap (λ n. increment_and_wrap_size n p.transfer_count) v.submit
        ∙ wrap-increment p.transfer_count p.next_finish p.pending_count (omega (arith, v.finish))
            room;
    ring =
        subst (λ xs. IsRing xs p.next_finish (p.pending_count + 1)) (sym (submitted-transfers t'))
          (subst₂ (λ n k. IsRing (set (transfers_of p) n t') p.next_finish k)
            (ap (λ c. wrap c (p.next_finish + p.pending_count)) v.counted ∙ sym v.submit)
            (omega arith)
            (set-IsRing (transfers_of p) p.next_finish p.pending_count t'
              (omega (arith, v.finish, v.counted)) (omega (arith, v.counted)) s v.ring));
  }

  submitted-SubmittedNext :
      (t t' : Transfer) (reply : Reply) {h g : Heap}
      → get_elem? (transfers_of p) p.next_submit ≡ some t
      → Submitted t reply h t' g
      → SubmittedNext reply p h (submitted p t') g
  unfolding submitted
  submitted-SubmittedNext t t' reply e s = record {
    before = t;
    after = t';
    stood = e;
    is_submitted = s;
    stands = submitted-transfers t';
    moves = record {
      live = λ a. omega (
        arith,
        s.moves.live a,
        owned_all-set (transfers_of p) p.next_submit t t' a e,
        array_block-with (set (transfers_of p) p.next_submit t') p.transfer_array a,
        ap (λ ts. owned_all ts a) (submitted-transfers t'),
      );
      same = s.moves.same;
    };
    valid = submitted-IsValid t' s.sound;
    queue =
        ap (slots p.transfer_count p.next_finish) (omega arith)
        ∙ slots-suc p.transfer_count p.next_finish p.pending_count (omega (arith, v.finish)) room
        ∙ ap (λ n. queue p ++ (n ∷ [])) (sym v.submit);
    pending_count = refl;
    next_finish = refl;
    transfer_count = refl;
    endless = refl;
  }

  -- With room in the ring the assertions of `async_in_pipe_submit_next_transfer` and of
  -- `async_in_transfer_submit` hold. The transfer of the next slot is submitted: it is pending where
  -- the kernel takes the request, and else has an error. No other transfer changes, and that slot
  -- stands behind those that wait already, whether or not the kernel takes the request.
  pub submit_next-SubmittedNext :
      (reply : Reply) (h : Heap)
      → Owned (owned p) h
      → Returns (SubmittedNext reply p h) (submit_next_transfer reply p h)
  unfolding submit_next_transfer submitted
  submit_next-SubmittedNext reply h o =
      let (t, e) = get_elem?_lt (transfers_of p) p.next_submit next_submit-lt in
      simp (lt→ltb p.pending_count p.transfer_count room, e)
        (Returns.bind
          (submit-Submitted reply t h (v.ring.each _ t e)
            (v.ring.idle _ t e (omega (arith, next_submit-offset)))
            (λ a. omega (arith, o a, owned-le-owned_all (transfers_of p) p.next_submit t a e)))
          λ t' g s. returns (submitted-SubmittedNext t t' reply e s))
