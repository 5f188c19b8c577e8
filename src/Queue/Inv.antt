-- ===== src/Queue/Inv.antt =====
-- The invariant of the queue, against the history of all messages written to it.
pub mod Drop
pub mod Move
pub mod Relieve
pub mod Interval
pub mod Append
use bgpmon.Base.{
  ℕ, suc, ◌+◌, ◌-◌, ◌≤◌, ◌<◌, ◌≡◌, sym, subst, ◌≢◌, List, Option, none, some, arith, length,
  get_elem?, set,
}
use bgpmon.Queue.State.{QueueState, Message, slot, queue_max_items, max_queue_readers}
use bgpmon.Queue.Readers.{below, active, Within}

-- The array against the history `log`, the readers' positions being `readers`. Item k is kept while
-- some reader waits for it, with the number of those as its reference count.
pub record Consistent (log : ℕ → Message) (readers : List (Option ℕ)) (q : QueueState)
    : Type 0 where
  pub fits : q.tail ≤ q.head + queue_max_items
  pub ordered : q.head ≤ q.tail
  pub placed : Within q.head q.tail readers
  pub counted : (k : ℕ) → q.head ≤ k → k < q.tail → (q.items (slot k)).count ≡ below readers k
  pub wanted : (k : ℕ) → q.head ≤ k → k < q.tail → 0 < below readers k
  pub stored : (k : ℕ) → q.head ≤ k → k < q.tail → (q.items (slot k)).messag_buf ≡ some (log k)

pub record IsValid (log : ℕ → Message) (q : QueueState) : Type 0 where
  pub consistent : Consistent log q.next_item q
  pub readers : q.readercount ≡ active q.next_item
  pub slots : length q.next_item ≡ max_queue_readers
  pub ideal : q.ideal_reader_position ≤ q.tail

-- Two positions of the window share a slot only if they are one.
pub slot-ne :
    (h t i k : ℕ)
    → t ≤ h + queue_max_items
    → h ≤ i
    → i < t
    → h ≤ k
    → k < t
    → i ≢ k
    → slot k ≢ slot i
slot-ne h t i k f a b c d e = omega arith

-- The invariant reads the head, the tail and the items of the queue only.
pub Consistent-same :
    (log : ℕ → Message) (l : List (Option ℕ)) (q q' : QueueState)
    → q'.head ≡ q.head
    → q'.tail ≡ q.tail
    → q'.items ≡ q.items
    → Consistent log l q
    → Consistent log l q'
Consistent-same log l q q' eh et ei c = record {
  fits = rw (eh, et) c.fits;
  ordered = rw (eh, et) c.ordered;
  placed = rw (eh, et) c.placed;
  counted = rw (eh, et, ei) c.counted;
  wanted = rw (eh, et) c.wanted;
  stored = rw (eh, et, ei) c.stored;
}

pub IsValid-same :
    (log : ℕ → Message) (q q' : QueueState)
    → q'.head ≡ q.head
    → q'.tail ≡ q.tail
    → q'.items ≡ q.items
    → q'.next_item ≡ q.next_item
    → q'.readercount ≡ q.readercount
    → q'.ideal_reader_position ≤ q'.tail
    → IsValid log q
    → IsValid log q'
IsValid-same log q q' eh et ei en er id v = record {
  consistent =
      subst (λ l. Consistent log l q') (sym en)
        (Consistent-same log q.next_item q q' eh et ei v.consistent);
  readers = rw (er, en) v.readers;
  slots = rw en v.slots;
  ideal = id;
}
