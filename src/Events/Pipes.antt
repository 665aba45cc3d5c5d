-- ===== src/Events/Pipes.antt =====
-- What handling the completed request blocks makes of the pipe that they belong to.
use libusbp.Base.{
  ◌+◌, ◌≡◌, refl, ap, ◌∙◌, sym, subst, inl, inr, true, Option, none, some, List, arith, length,
  is_some,
}
use libusbp.Heap.{Heap}
use libusbp.Heap.Moves.{Moves}
use libusbp.Heap.Returns
use libusbp.Heap.Returns.{Returns, returns}
use libusbp.Error.{ErrorPtr, Error}
use libusbp.Error
use libusbp.Transfer.{Transfer}
use libusbp.Pipe.{Pipe, TransferArray, transfers_of, with_transfers}
use libusbp.Pipe.Blocks.{owned, owned_all, transfers-with, array_block-with}
use libusbp.Pipe.Ring.{offset}
use libusbp.Pipe.Invariant.{IsValid, IsRing}
use libusbp.Pipe.Submit.{queue}
use libusbp.Events.{Reap}
use libusbp.Events.Delivery.{Deliverable, Reaping}
use libusbp.Events.Loop.{handle_events-ReapingOf}
use libusbp.Events.{generic_handle_events}

-- The pipe is as it was, but for the transfers that were completed.
pub record EventsHandled (p : Pipe) (rs : List Reap) (h : Heap) (e : ErrorPtr) (p' : Pipe)
    (g : Heap) : Type 0 where
  pub moves : Moves h (owned p) (λ a. owned p' a + Error.owned? e a) g
  pub valid : IsValid p'
  pub queue : queue p' ≡ queue p
  pub pending_count : p'.pending_count ≡ p.pending_count
  pub next_finish : p'.next_finish ≡ p.next_finish
  pub transfer_count : p'.transfer_count ≡ p.transfer_count
  pub endless : p'.endless_transfers_enabled ≡ p.endless_transfers_enabled
  pub reaping : Reaping (transfers_of p) rs h e (transfers_of p') g

abbrev completed : Pipe → List Transfer → Pipe
completed p ts = record p { transfer_array = with_transfers ts p.transfer_array }

abbrev pub EventsHandledOf : Pipe → List Reap → Heap → ErrorPtr × Pipe → Heap → Type 0
EventsHandledOf p rs h (e, p') g = EventsHandled p rs h e p' g

is_some-with :
    (ts : List Transfer) (r : Option TransferArray) → is_some (with_transfers ts r) ≡ is_some r
is_some-with ts none = refl
is_some-with ts (some r) = refl

completed-IsValid :
    (p : Pipe) (rs : List Reap) (h : Heap) (e : ErrorPtr) (ts : List Transfer) (g : Heap)
    → IsValid p
    → Reaping (transfers_of p) rs h e ts g
    → IsValid (completed p ts)
completed-IsValid p rs h e ts g v m =
    let same = transfers-with ts p.transfer_array (sym m.same_length) in
    record {
      counted = ap length same ∙ m.same_length ∙ v.counted;
      allocated = λ q. v.allocated (sym (is_some-with ts p.transfer_array) ∙ q);
      bounded = v.bounded;
      finish = v.finish;
      submit = v.submit;
      ring =
          subst (λ l. IsRing l p.next_finish p.pending_count) (sym same)
            (record {
              each = m.sound;
              idle = λ i t q o. elim (m.only i t q) [
                | inl before ↦
                    v.ring.idle i t before
                      (omega (arith, o, ap (λ n. offset p.next_finish n i) m.same_length))
                | inr idle ↦ idle
              ];
            });
    }

-- `generic_handle_events` on the handle of a valid pipe, where the kernel gives back only pending
-- requests, each once, with a status that can be negated, and answers with an error number in the
-- end: the call returns, nothing leaks,
-- and the pipe stays valid with the same queue. Each of its transfers is as it was or is no longer
-- pending; and where no error is returned, those that were given back are no longer pending.
pub generic_handle_events-EventsHandled :
    (rs : List Reap) (p : Pipe) (h : Heap)
    → IsValid p
    → Deliverable (transfers_of p) rs
    → Returns (EventsHandledOf p rs h) (generic_handle_events true rs p h)
unfolding generic_handle_events
generic_handle_events-EventsHandled rs p h v d =
    Returns.bind (handle_events-ReapingOf rs (transfers_of p) h v.ring.each d) λ x g m.
      let same = transfers-with x.1 p.transfer_array (sym m.same_length) in
      returns (record {
        moves = record {
          live = λ a. omega (
            arith,
            m.moves.live a,
            ap (λ l. owned_all l a) same,
            array_block-with x.1 p.transfer_array a,
          );
          same = m.moves.same;
        };
        valid = completed-IsValid p rs h x.0 x.1 g v m;
        queue = refl;
        pending_count = refl;
        next_finish = refl;
        transfer_count = refl;
        endless = refl;
        reaping = subst (λ l. Reaping (transfers_of p) rs h x.0 l g) (sym same) m;
      })
