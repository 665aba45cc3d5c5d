-- ===== src/Runs/Order.antt =====
-- The order in which the transfers of a pipe are finished.
use libusbp.Base.{
  ℕ, zero, suc, ◌≡◌, refl, ap, ◌∙◌, sym, ◌⊎◌, inl, inr, Bool, true, false, Option, none, some, List,
  [], ◌∷◌, ◌++◌, append-nil, append_assoc, arith, length, is_some,
}
use libusbp.Heap.{Heap}
use libusbp.Heap.Moves.{Owned}
use libusbp.Heap.Returns.{ensures}
use libusbp.Error.{ErrorPtr}
use libusbp.Usbfd.{Reply, UrbRequest, store}
use libusbp.Pipe.{
  Pipe, FinishOutputs, cleared, transfers_of, start_endless_transfers, handle_finished_transfer,
  cancel_transfers, increment_and_wrap_size,
}
use libusbp.Pipe.Blocks.{owned}
use libusbp.Pipe.Invariant.{IsValid}
use libusbp.Pipe.Submit.{queue}
use libusbp.Pipe.Start.{start-Started}
use libusbp.Pipe.Finish.{resubmitted, handle_finished-HandledFinished}
use libusbp.Pipe.Cancel.{cancel_transfers-Cancelled, live-le-Stopped}
use libusbp.Transfer.Results.{live-le-StoredCopy}
use libusbp.Events.{Reap, generic_handle_events}
use libusbp.Events.Delivery.{Deliverable}
use libusbp.Events.Pipes.{generic_handle_events-EventsHandled}
use libusbp.Runs.{Run, done, elsewhere, start, finish, cancel, events, finished_slots}

-- `n` slots of the ring of `count`, one after the other.
abbrev pub round_robin : (count from n : ℕ) → List ℕ
round_robin count from zero = []
round_robin count from (suc n) = from ∷ round_robin count (increment_and_wrap_size from count) n

-- What a run keeps and does: the pipe stays valid and owns its blocks; the slots are finished one
-- after the other around the ring; and what was waiting, with what was submitted behind it, is what
-- was finished, with what waits behind that.
pub record Ran (p : Pipe) (h : Heap) (slots : List ℕ) (p' : Pipe) (h' : Heap) : Type 0 where
  pub valid : IsValid p'
  pub owned : Owned (owned p') h'
  pub transfer_count : p'.transfer_count ≡ p.transfer_count
  pub in_turn : slots ≡ round_robin p.transfer_count p.next_finish (length slots)
  pub submissions : List ℕ
  pub first_in_first_out : queue p ++ submissions ≡ slots ++ queue p'

-- One call, before the rest of the run.
record Stepped (p : Pipe) (slots : List ℕ) (q : Pipe) (k : Heap) : Type 0 where
  valid : IsValid q
  owned : Owned (owned q) k
  transfer_count : q.transfer_count ≡ p.transfer_count
  turn :
      ((slots ≡ []) × (q.next_finish ≡ p.next_finish))
      ⊎ ((slots ≡ p.next_finish ∷ [])
          × (q.next_finish ≡ increment_and_wrap_size p.next_finish p.transfer_count))
  new : List ℕ
  queue : queue p ++ new ≡ slots ++ queue q

after :
    {p q p' : Pipe} {h k h' : Heap} (slots later : List ℕ)
    → Stepped p slots q k
    → Ran q k later p' h'
    → Ran p h (slots ++ later) p' h'
after {p} {q} {p'} slots later s r = record {
  valid = r.valid;
  owned = r.owned;
  transfer_count = r.transfer_count ∙ s.transfer_count;
  in_turn = elim s.turn [
    | inl (e, n) ↦ simp e (r.in_turn ∙ (simp (s.transfer_count, n)))
    | inr (e, n) ↦ simp e (ap (◌∷◌ p.next_finish) (r.in_turn ∙ (simp (s.transfer_count, n))))
  ];
  submissions = s.new ++ r.submissions;
  first_in_first_out =
      sym (append_assoc (queue p) s.new r.submissions)
      ∙ ap (λ l. l ++ r.submissions) s.queue
      ∙ append_assoc slots (queue q) r.submissions
      ∙ ap (λ l. slots ++ l) r.first_in_first_out
      ∙ sym (append_assoc slots later (queue p'));
}

store-some : (b : Bool) (o : Option Bool) → is_some o ≡ true → store b o ≡ some b
store-some b none q = cc q
store-some b (some c) q = refl

module _ (p : Pipe) (h : Heap) (v : IsValid p) (o : Owned (owned p) h) where
  start-Stepped :
      (replies : ℕ → Reply) (e : ErrorPtr) (q : Pipe) (k : Heap)
      → is_some p.transfer_array ≡ true
      → start_endless_transfers replies p h ≡ some ((e, q), k)
      → Stepped p [] q k
  start-Stepped replies e q k allocated run =
      let s = (ensures (e, q) k (start-Started replies p h v allocated o) run).1 in
      record {
        valid = s.valid;
        owned = λ a. omega (arith, o a, s.moves.live a);
        transfer_count = s.transfer_count;
        turn = inl (refl, s.next_finish);
        new = s.new;
        queue = sym s.queue;
      }

  cancel-Stepped :
      (kernel : ℕ → UrbRequest → Reply) (e : ErrorPtr) (q : Pipe) (k : Heap)
      → cancel_transfers kernel p h ≡ some ((e, q), k)
      → Stepped p [] q k
  cancel-Stepped kernel e q k run =
      let (same, (valid, s)) = ensures (e, q) k (cancel_transfers-Cancelled kernel p h v) run in
      record {
        valid = valid;
        owned = λ a. omega (arith, o a, live-le-Stopped _ h e k a s, ap (λ x. owned x a) same);
        transfer_count = ap (λ x. x.transfer_count) same;
        turn = inl (refl, ap (λ x. x.next_finish) same);
        new = [];
        queue = append-nil (queue p) ∙ sym (ap queue same);
      }

  events-Stepped :
      (rs : List Reap) (e : ErrorPtr) (q : Pipe) (k : Heap)
      → Deliverable (transfers_of p) rs
      → generic_handle_events true rs p h ≡ some ((e, q), k)
      → Stepped p [] q k
  events-Stepped rs e q k d run =
      let s = ensures (e, q) k (generic_handle_events-EventsHandled rs p h v d) run in
      record {
        valid = s.valid;
        owned = λ a. omega (arith, o a, s.moves.live a);
        transfer_count = s.transfer_count;
        turn = inl (refl, s.next_finish);
        new = [];
        queue = append-nil (queue p) ∙ sym s.queue;
      }

  finish-Stepped :
      (reply : Reply) (out out' : FinishOutputs) (e : ErrorPtr) (q : Pipe) (k : Heap)
      → is_some out.finished ≡ true
      → handle_finished_transfer reply p out h ≡ some ((e, q, out'), k)
      → Stepped p (finished_slots p out'.finished) q k
  finish-Stepped reply out out' e q k asked run =
      elim (ensures (e, q, out') k (handle_finished-HandledFinished reply p out h v o) run).1 [
        | inl (idle, w) ↦
            let none_done = ap (λ x. x.finished) w.outputs ∙ store-some false out.finished asked in
            simp (none_done, w.same_pipe)
              (record {
                valid = v;
                owned = λ a. omega (arith, o a, ap (λ g. g.live a) w.same_heap);
                transfer_count = refl;
                turn = inl (refl, refl);
                new = [];
                queue = append-nil (queue p);
              })
        | inr f ↦
            let one_done = f.finished ∙ store-some true out.finished asked in
            simp one_done (record {
              valid = f.valid;
              owned = λ a. omega (
                arith,
                o a,
                f.moves.live a,
                live-le-StoredCopy f.front.error h f.between (cleared out).results.transfer_error
                    out'.results.transfer_error a f.results.error,
              );
              transfer_count = f.transfer_count;
              turn = inr (refl, f.next_finish);
              new = resubmitted p;
              queue = ap (λ l. l ++ resubmitted p) f.popped ∙ ap (◌∷◌ p.next_finish) (sym f.pushed);
            })
      ]

-- Any run of calls from a valid pipe that owns its blocks keeps it so. The slots of the ring are
-- finished in turn, beginning with the front one and going around. And there is a list of
-- submissions such that the slots that waited at the beginning, followed by that list, are the slots
-- that were finished, followed by those that wait at the end.
pub run-Ran :
    {p p' : Pipe} {h h' : Heap} {slots : List ℕ}
    → IsValid p
    → Owned (owned p) h
    → Run p h slots p' h'
    → Ran p h slots p' h'
run-Ran v o (done p h) = record {
  valid = v;
  owned = o;
  transfer_count = refl;
  in_turn = refl;
  submissions = [];
  first_in_first_out = append-nil (queue p);
}
run-Ran v o (elsewhere k o' r) =
    let m = run-Ran v o' r in
    record {
      valid = m.valid;
      owned = m.owned;
      transfer_count = m.transfer_count;
      in_turn = m.in_turn;
      submissions = m.submissions;
      first_in_first_out = m.first_in_first_out;
    }
run-Ran {p} {h} v o (start replies e q k a run r) =
    let s = start-Stepped p h v o replies e q k a run in after [] _ s (run-Ran s.valid s.owned r)
run-Ran {p} {h} v o (finish reply out out' e q k a run r) =
    let s = finish-Stepped p h v o reply out out' e q k a run in
    after (finished_slots p out'.finished) _ s (run-Ran s.valid s.owned r)
run-Ran {p} {h} v o (cancel replies e q k run r) =
    let s = cancel-Stepped p h v o replies e q k run in after [] _ s (run-Ran s.valid s.owned r)
run-Ran {p} {h} v o (events rs e q k d run r) =
    let s = events-Stepped p h v o rs e q k d run in after [] _ s (run-Ran s.valid s.owned r)
