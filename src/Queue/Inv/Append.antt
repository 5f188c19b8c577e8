-- ===== src/Queue/Inv/Append.antt =====
-- The invariant over the write of an item to a queue with room (writeQueue of Queues/queue.c).
use native.Mathlib.Decide.{ℕ_discrete}
use bgpmon.Base.{
  ℕ, suc, ◌+◌, ◌≤◌, ◌<◌, ◌≡◌, refl, sym, ap, ◌∙◌, some, arith, ltb, if_elim, update, update_self,
  update-ne,
}
use bgpmon.Queue.State.{QueueEntry, QueueState, Message, slot, queue_max_items}
use bgpmon.Queue.Readers.{below, Within-mono, below_tail}
use bgpmon.Queue.Write.{append}
use bgpmon.Queue.Inv.{Consistent, IsValid, slot-ne}

module _ (log : ℕ → Message) (q : QueueState) (w : ℕ) (item : Message) (v : IsValid log q)
    (room : q.tail < q.head + queue_max_items) where
  entry : QueueEntry
  entry = record { count = q.readercount; messag_buf = some item }

  written : ℕ → QueueEntry
  written = update q.items (slot q.tail) entry

  -- The slot of the new item is none of those in use.
  kept : (k : ℕ) → q.head ≤ k → k < q.tail → written (slot k) ≡ q.items (slot k)
  unfolding written
  kept k a b = update-ne q.items (slot q.tail) entry (slot k) (
      slot-ne q.head (suc q.tail) q.tail k room v.consistent.ordered (omega arith) a (omega arith)
        (omega arith))

  placed_at_tail : written (slot q.tail) ≡ entry
  unfolding written
  placed_at_tail = update_self q.items (slot q.tail) entry

  all_wait : below q.next_item q.tail ≡ q.readercount
  all_wait =
      below_tail q.head q.tail q.tail q.next_item v.consistent.placed (omega arith) ∙ sym v.readers

  log' : ℕ → Message
  log' = update log q.tail item

  older : (k : ℕ) → k < q.tail → log' k ≡ log k
  unfolding log'
  older k b = update-ne log q.tail item k (omega arith)

  newest : log' q.tail ≡ item
  unfolding log'
  newest = update_self log q.tail item

  with_reader :
      (q' : QueueState)
      → 0 < q.readercount
      → q'.head ≡ q.head
      → q'.tail ≡ q.tail + 1
      → q'.items ≡ written
      → Consistent log' q.next_item q'
  with_reader q' some_reader eh et ei = record {
    fits = omega arith;
    ordered = omega (arith, v.consistent.ordered);
    placed =
        rw (eh, et)
          (Within-mono q.head q.tail (q.tail + 1) q.next_item (omega arith) v.consistent.placed);
    counted = λ k a b. elim (ℕ_discrete k q.tail) [
      | yes e ↦ rw (e, ei, placed_at_tail) (unfold entry in sym all_wait)
      | no ne ↦
          let lt : k < q.tail = omega arith in
          let le : q.head ≤ k = omega arith in
          rw ei (ap (λ x. x.count) (kept k le lt) ∙ v.consistent.counted k le lt)
    ];
    wanted = λ k a b. elim (ℕ_discrete k q.tail) [
      | yes e ↦ rw e (omega (arith, all_wait))
      | no ne ↦ v.consistent.wanted k (omega arith) (omega arith)
    ];
    stored = λ k a b. elim (ℕ_discrete k q.tail) [
      | yes e ↦ rw (e, ei, placed_at_tail) (unfold entry in ap some (sym newest))
      | no ne ↦
          let lt : k < q.tail = omega arith in
          let le : q.head ≤ k = omega arith in
          rw ei (
            ap (λ x. x.messag_buf) (kept k le lt)
            ∙ v.consistent.stored k le lt
            ∙ ap some (sym (older k lt)))
    ];
  }

  without_reader :
      (q' : QueueState)
      → q'.head ≡ q.head
      → q'.tail ≡ q.tail
      → q'.items ≡ q.items
      → Consistent log' q.next_item q'
  without_reader q' eh et ei = record {
    fits = rw (eh, et) v.consistent.fits;
    ordered = rw (eh, et) v.consistent.ordered;
    placed = rw (eh, et) v.consistent.placed;
    counted = rw (eh, et, ei) v.consistent.counted;
    wanted = rw (eh, et) v.consistent.wanted;
    stored = λ k a b.
        let lt : k < q.tail = omega arith in
        rw ei (v.consistent.stored k (omega arith) lt ∙ ap some (sym (older k lt)));
  }

  -- Where the array has room, writing an item keeps the invariant, against the history with that
  -- item at the old tail.
  pub append-IsValid : IsValid (update log q.tail item) (append q w item)
  unfolding append log' written entry
  append-IsValid =
      if_elim (IsValid log') (ltb 0 q.readercount)
        (λ lt. record {
          consistent = with_reader _ (ground arith) refl refl refl;
          readers = v.readers;
          slots = v.slots;
          ideal = omega (arith, v.ideal);
        })
        (λ _. record {
          consistent = without_reader _ refl refl refl;
          readers = v.readers;
          slots = v.slots;
          ideal = v.ideal;
        })
