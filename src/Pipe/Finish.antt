-- ===== src/Pipe/Finish.antt =====
-- Finishing the transfer at the front of a pipe's ring.
use libusbp.Base.{
  ℕ, ◌+◌, ◌-◌, ◌<◌, ◌≡◌, refl, ap, ◌∙◌, sym, subst, ◌⊎◌, inl, inr, Bool, true, false, Bool-cases,
  Option, none, some, List, [], ◌∷◌, ◌++◌, arith, ◌==◌, if◌then◌else◌, append-nil, get_elem?,
  get_elem?_lt,
}
use libusbp.Heap.{Heap}
use libusbp.Heap.Moves.{Moves, Owned}
use libusbp.Heap.Returns
use libusbp.Heap.Returns.{Returns, returns}
use libusbp.Usbfd.{Reply, store}
use libusbp.Transfer.{Transfer}
use libusbp.Transfer.Results.{GotResults, live-le-StoredCopy, get_results-GotResults}
use libusbp.Pipe.{
  Pipe, FinishOutputs, Finished, cleared, transfers_of, advance, resubmit, finish,
  handle_finished_transfer, increment_and_wrap_size,
}
use libusbp.Pipe.Ring.{slots, slots-cons, wrap, wrap-increment_from, increment-lt}
use libusbp.Pipe.Blocks.{owned}
use libusbp.Pipe.Invariant.{IsValid, IsRing, advance-IsRing}
use libusbp.Pipe.Submit.{queue, submit_next-SubmittedNext}

module _ (p : Pipe) (v : IsValid p) (some_pending : 0 < p.pending_count) where
  next_finish-lt : p.next_finish < p.transfer_count
  next_finish-lt = omega (arith, v.finish, v.bounded)

  pub queue-advance : queue p ≡ p.next_finish ∷ queue (advance p)
  unfolding advance
  queue-advance =
      ap (slots p.transfer_count p.next_finish) (omega arith)
      ∙ slots-cons p.transfer_count p.next_finish (p.pending_count - 1)

  pub advance-IsValid :
      (t : Transfer)
      → get_elem? (transfers_of p) p.next_finish ≡ some t
      → t.pending ≡ false
      → IsValid (advance p)
  unfolding advance
  advance-IsValid t e idle = record {
    counted = v.counted;
    allocated = v.allocated;
    bounded = omega (arith, v.bounded);
    finish = omega (arith, increment-lt p.transfer_count p.next_finish next_finish-lt);
    submit =
        v.submit
        ∙ ap (λ k. wrap p.transfer_count (p.next_finish + k)) (omega arith)
        ∙ sym (
            wrap-increment_from p.transfer_count p.next_finish (p.pending_count - 1) next_finish-lt
              (omega (arith, v.bounded)));
    ring =
        subst
          (λ c.
            IsRing (transfers_of p) (increment_and_wrap_size p.next_finish c) (p.pending_count - 1))
          v.counted
          (advance-IsRing (transfers_of p) p.next_finish (p.pending_count - 1) t
            (omega (arith, next_finish-lt, v.counted)) e idle
            (subst (λ k. IsRing (transfers_of p) p.next_finish k) (omega arith) v.ring));
  }

-- The slots that a pipe submits again when one has finished.
abbrev pub resubmitted : Pipe → List ℕ
resubmitted p = if p.endless_transfers_enabled then p.next_submit ∷ [] else []

-- The ring after the front slot has left it and, on an endless pipe, a slot was submitted behind.
pub record Resubmitted (p : Pipe) (h : Heap) (p' : Pipe) (g : Heap) : Type 0 where
  pub moves : Moves h (owned p) (owned p') g
  pub valid : IsValid p'
  pub queue : queue p' ≡ queue p ++ resubmitted p
  pub transfer_count : p'.transfer_count ≡ p.transfer_count
  pub endless : p'.endless_transfers_enabled ≡ p.endless_transfers_enabled
  pub next_finish : p'.next_finish ≡ p.next_finish
  pub pending :
      p'.pending_count
      ≡ (if p.endless_transfers_enabled then p.pending_count + 1 else p.pending_count)

resubmit-Resubmitted :
    (reply : Reply) (p : Pipe) (h : Heap)
    → IsValid p
    → p.pending_count < p.transfer_count
    → Owned (owned p) h
    → Returns (Resubmitted p h) (resubmit reply p h)
unfolding resubmit
resubmit-Resubmitted reply p h v room o = elim (Bool-cases p.endless_transfers_enabled) [
  | inl e ↦ simp e (
      Returns.mono (submit_next-SubmittedNext p v room reply h o) λ q g s. record {
        moves = s.moves;
        valid = s.valid;
        queue = s.queue ∙ (simp e);
        transfer_count = s.transfer_count;
        endless = s.endless;
        next_finish = s.next_finish;
        pending = s.pending_count ∙ (simp e);
      })
  | inr e ↦ simp e (
      returns (record {
        moves = record { live = λ a. refl; same = refl };
        valid = v;
        queue = simp e (sym (append-nil (queue p)));
        transfer_count = refl;
        endless = refl;
        next_finish = refl;
        pending = simp e;
      }))
]

-- The front transfer was handed to the caller and left the ring.
pub record Finishes (p : Pipe) (out : FinishOutputs) (h : Heap) (p' : Pipe) (out' : FinishOutputs)
    (g : Heap) : Type 0 where
  pub front : Transfer
  pub at_front : get_elem? (transfers_of p) p.next_finish ≡ some front
  pub done : front.pending ≡ false
  pub between : Heap
  pub results : GotResults front (cleared out).results h out'.results between
  pub moves : Moves between (owned p) (owned p') g
  pub finished : out'.finished ≡ store true out.finished
  pub valid : IsValid p'
  pub rest : List ℕ
  pub popped : queue p ≡ p.next_finish ∷ rest
  pub pushed : queue p' ≡ rest ++ resubmitted p
  pub transfer_count : p'.transfer_count ≡ p.transfer_count
  pub next_finish : p'.next_finish ≡ increment_and_wrap_size p.next_finish p.transfer_count
  pub endless : p'.endless_transfers_enabled ≡ p.endless_transfers_enabled

-- Nothing was finished, and nothing changed but what the output pointers point to.
pub record Waits (p : Pipe) (out : FinishOutputs) (h : Heap) (p' : Pipe) (out' : FinishOutputs)
    (g : Heap) : Type 0 where
  pub same_pipe : p' ≡ p
  pub same_heap : g ≡ h
  pub outputs : out' ≡ cleared out

abbrev pub FinishesWith : Pipe → FinishOutputs → Heap → Finished → Heap → Type 0
FinishesWith p out h (e, p', out') g = (e ≡ none) × Finishes p out h p' out' g

store-store : (o : Option Bool) → store true (store false o) ≡ store true o
store-store none = refl
store-store (some b) = refl

finish-FinishesWith :
    (reply : Reply) (p : Pipe) (out : FinishOutputs) (t : Transfer) (h : Heap)
    → IsValid p
    → 0 < p.pending_count
    → get_elem? (transfers_of p) p.next_finish ≡ some t
    → t.pending ≡ false
    → Owned (owned p) h
    → Returns (FinishesWith p out h) (finish reply p (cleared out) t h)
unfolding finish advance
finish-FinishesWith reply p out t h v pos e idle o =
    Returns.bind (get_results-GotResults t (cleared out).results h (v.ring.each _ t e) idle)
      λ results k r.
        Returns.bind
          (resubmit-Resubmitted reply (advance p) k (advance-IsValid p v pos t e idle)
            (omega (arith, v.bounded))
            (λ a. omega (
              arith,
              o a,
              live-le-StoredCopy t.error h k (cleared out).results.transfer_error
                  results.transfer_error a r.error,
            )))
          λ p' g s. returns (
            refl,
            record {
              front = t;
              at_front = e;
              done = idle;
              between = k;
              results = r;
              moves = s.moves;
              finished = store-store out.finished;
              valid = s.valid;
              rest = queue (advance p);
              popped = queue-advance p v pos;
              pushed = s.queue;
              transfer_count = s.transfer_count;
              next_finish = s.next_finish;
              endless = s.endless;
            },
          )

-- The front of the ring is empty or still pending.
abbrev pub NothingDone : Pipe → Type 0
NothingDone p =
    (p.pending_count ≡ 0)
    ⊎ ((t : Transfer) × (get_elem? (transfers_of p) p.next_finish ≡ some t) × (t.pending ≡ true))

abbrev pub HandledFinished : Pipe → FinishOutputs → Heap → Finished → Heap → Type 0
HandledFinished p out h (e, p', out') g =
    (e ≡ none) × ((NothingDone p × Waits p out h p' out' g) ⊎ Finishes p out h p' out' g)

pub handle_finished-HandledFinished :
    (reply : Reply) (p : Pipe) (out : FinishOutputs) (h : Heap)
    → IsValid p
    → Owned (owned p) h
    → Returns (HandledFinished p out h) (handle_finished_transfer reply p out h)
unfolding handle_finished_transfer
handle_finished-HandledFinished reply p out h v o = elim (Bool-cases (p.pending_count == 0)) [
  | inl z ↦ simp z (
      returns (
        refl,
        inl (inl (ground arith), record { same_pipe = refl; same_heap = refl; outputs = refl }),
      ))
  | inr nz ↦
      let pos : 0 < p.pending_count = ground arith in
      let (t, e) =
        get_elem?_lt (transfers_of p) p.next_finish
          (omega (arith, v.finish, v.bounded, v.counted)) in
      elim (Bool-cases t.pending) [
        | inl busy ↦
            simp (nz, e, busy)
              (returns (
                refl,
                inl (
                  inr (t, e, busy),
                  record { same_pipe = refl; same_heap = refl; outputs = refl },
                ),
              ))
        | inr idle ↦
            simp (nz, e, idle)
              (Returns.mono (finish-FinishesWith reply p out t h v pos e idle o)
                λ r g f. (f.0, inr f.1))
      ]
]
