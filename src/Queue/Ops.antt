-- ===== src/Queue/Ops.antt =====
-- Queues/queue.c: creation, subscription, writing, reading. Each call runs between the lock and
-- the unlock of its queue; `now` is what time(NULL) returns.
use bgpmon.Base.{
  ℕ, zero, suc, ◌+◌, ◌-◌, ◌/◌, ◌^◌, Bool, true, false, List, [], ◌∷◌, Option, none, some,
  if◌then◌else◌, ltb, leb, ◌==◌, update, get_or, set, replicate, Result, ok, err, ◌>>=◌, or_fault,
  out_of_bounds,
}
use bgpmon.Queue.State.{
  QueueEntry, QueueState, lock, unlock, slot, max_queue_readers, max_queue_writers,
  queue_min_writes_limit,
}
use bgpmon.Queue.Release.{drop_refs}

unfoldable pub create_queue : Bool → ℕ → QueueState
create_queue new_pacing_enable now = record {
  locked = false;
  last_log_time = now;
  log_max_items = 0;
  log_max_readers = 0;
  log_max_writers = 0;
  log_pacing_count = 0;
  last_sent_log_pacing_count = 0;
  head = 0;
  tail = 0;
  items = λ _. record { count = 0; messag_buf = none };
  readercount = 0;
  next_item = replicate max_queue_readers none;
  items_read = replicate max_queue_readers 0;
  writercount = 0;
  used = replicate max_queue_writers false;
  new_pacing_enable = new_pacing_enable;
  pacing_flag = false;
  tick = now;
  read_count = 0;
  write_counts = replicate max_queue_writers 0;
  writes_limit = queue_min_writes_limit;
  writes_ewma = 0;
  write_count = 0;
  ideal_reader_position = 0;
}

-- for (avail = 0; used[avail] > 0; avail++); `none` when it runs off the array.
unfoldable pub free_writer_slot : List Bool → Option ℕ
free_writer_slot [] = none
free_writer_slot (false ∷ l) = some 0
free_writer_slot (true ∷ l) = elim (free_writer_slot l) [ none ↦ none | some i ↦ some (suc i) ]

-- When there is no room the call returns NULL, here `none`, with the lock still held.
unfoldable pub create_queue_writer : QueueState → Result (QueueState × Option ℕ)
create_queue_writer q = lock q >>= λ q.
    if leb max_queue_writers q.writercount
    then ok (q, none)
    else or_fault (free_writer_slot q.used) out_of_bounds >>= λ avail. ok (
      unlock (record q {
        used = set q.used avail true;
        writercount = q.writercount + 1;
        log_max_writers =
            if ltb q.log_max_writers (q.writercount + 1)
            then q.writercount + 1
            else q.log_max_writers;
        write_counts = set q.write_counts avail 0;
      }),
      some avail,
    )

-- for (avail = 0; nextItem[avail] != READER_SLOT_AVAILABLE; avail++)
unfoldable pub free_reader_slot : List (Option ℕ) → Option ℕ
free_reader_slot [] = none
free_reader_slot (none ∷ l) = some 0
free_reader_slot (some p ∷ l) = elim (free_reader_slot l) [ none ↦ none | some i ↦ some (suc i) ]

-- The while loop that adds up the positions of the first `n` readers; `none` off the array.
unfoldable pub sum_positions : List (Option ℕ) → ℕ → ℕ → Option ℕ
sum_positions l zero tmp = some tmp
sum_positions [] (suc n) tmp = none
sum_positions (none ∷ l) (suc n) tmp = sum_positions l (suc n) tmp
sum_positions (some p ∷ l) (suc n) tmp = sum_positions l n (tmp + p)

-- items[i % QUEUE_MAX_ITEMS].count++ for n positions from i on.
unfoldable pub add_refs : (ℕ → QueueEntry) → ℕ → ℕ → ℕ → QueueEntry
add_refs items i zero = items
add_refs items i (suc n) =
    add_refs
      (update items (slot i) (record (items (slot i)) { count = (items (slot i)).count + 1 }))
      (suc i) n

-- Position and items of a new reader. The loop counter is an int: at a tail of 2 ^ 31 or more it
-- overflows or starts below 0, and the array is left.
unfoldable pub join_at : QueueState → ℕ → Result QueueState
join_at q r =
    if leb q.readercount 0
    then ok (record q { next_item = set q.next_item r (some q.tail) })
    else or_fault (sum_positions q.next_item q.readercount 0) out_of_bounds >>= λ sum.
        if leb (2 ^ 31) q.tail
        then err out_of_bounds
        else ok (record q {
          next_item = set q.next_item r (some (sum / q.readercount));
          items = add_refs q.items (sum / q.readercount) (q.tail - sum / q.readercount);
        })

unfoldable pub create_queue_reader : QueueState → Result (QueueState × Option ℕ)
create_queue_reader q = lock q >>= λ q.
    if leb max_queue_readers q.readercount
    then ok (unlock q, none)
    else or_fault (free_reader_slot q.next_item) out_of_bounds >>= λ avail. join_at q avail >>= λ q.
        ok (
          unlock (record q {
            items_read = set q.items_read avail 0;
            readercount = q.readercount + 1;
            log_max_readers =
                if ltb q.log_max_readers (q.readercount + 1)
                then q.readercount + 1
                else q.log_max_readers;
          }),
          some avail,
        )

unfoldable pub is_queue_empty : QueueState → Result Bool
is_queue_empty q = lock q >>= λ q. ok (q.tail == q.head)

unfoldable pub destroy_queue_writer : QueueState → ℕ → Result QueueState
destroy_queue_writer q w = lock q >>= λ q. ok (
    unlock (record q {
      writercount = q.writercount - 1;
      used = set q.used w false;
      write_counts = set q.write_counts w 0;
    }))

-- Give up every item from the reader's position to the tail.
abbrev pub drop_reader : QueueState → Option ℕ → QueueState
drop_reader q none = q
drop_reader q (some p) = drop_refs q p (q.tail - p)

unfoldable pub destroy_queue_reader : QueueState → ℕ → Result QueueState
destroy_queue_reader q r = lock q >>= λ q.
    let q' = drop_reader q (get_or q.next_item r none) in
    ok (
      unlock (record q' {
        readercount = q.readercount - 1;
        next_item = set q.next_item r none;
        items_read = set q.items_read r 0;
      }))
