-- ===== src/Queue/Release.antt =====
-- Queues/queue.c: how a reader gives up its references to items, one position at a time.
use bgpmon.Base.{
  ℕ, zero, suc, ◌+◌, ◌-◌, Bool, false, Option, none, some, if◌then◌else◌, leb, ◌==◌, update, get_or,
  set,
}
use bgpmon.Queue.State.{QueueState, slot, decrement}

-- The loop body of adjustSlowestQueueReader and destroyQueueReader: one reader gives up item i.
-- The last one frees it and moves the head on.
unfoldable pub drop_ref : QueueState → ℕ → QueueState
drop_ref q i =
    let j = slot i in
    let c = decrement (q.items j).count in
    if c == 0
    then record q {
      items = update q.items j (record { count = c; messag_buf = none });
      head = q.head + 1;
    }
    else record q { items = update q.items j (record (q.items j) { count = c }) }

-- The loop itself: n positions from i on.
unfoldable pub drop_refs : QueueState → ℕ → ℕ → QueueState
drop_refs q i zero = q
drop_refs q i (suc n) = drop_refs (drop_ref q i) (suc i) n

-- Move reader r from position p to `dest`, unless it is there or past it.
unfoldable pub move_reader : QueueState → ℕ → ℕ → ℕ → QueueState
move_reader q r p dest =
    if leb dest p
    then q
    else record (drop_refs q p (dest - p)) { next_item = set q.next_item r (some dest) }

-- destPos: the tail under the old pacing, the ideal reader's position under the new.
abbrev pub destination : QueueState → ℕ
destination q = if q.new_pacing_enable then q.ideal_reader_position else q.tail

abbrev pub move_slot : QueueState → ℕ → ℕ → Option ℕ → QueueState
move_slot q r dest none = q
move_slot q r dest (some p) = move_reader q r p dest

unfoldable pub adjust_slowest_queue_reader : QueueState → ℕ → QueueState
adjust_slowest_queue_reader q r = move_slot q r (destination q) (get_or q.next_item r none)

-- q->head == q->nextItem[i]
abbrev pub is_slowest : ℕ → Option ℕ → Bool
is_slowest h none = false
is_slowest h (some p) = h == p

-- writeQueue's loop over a full queue, for reader r: skip to the destination (old pacing), or one
-- position forward (new pacing).
unfoldable pub relieve : QueueState → ℕ → QueueState
relieve q r =
    if is_slowest q.head (get_or q.next_item r none)
    then if q.new_pacing_enable
      then move_slot q r (suc q.head) (get_or q.next_item r none)
      else adjust_slowest_queue_reader q r
    else q

-- The readers from r on, n of them.
unfoldable pub relieve_from : QueueState → ℕ → ℕ → QueueState
relieve_from q r zero = q
relieve_from q r (suc n) = relieve_from (relieve q r) (suc r) n

-- writeQueue's loop above the pacing threshold, new pacing only.
unfoldable pub advance : QueueState → ℕ → QueueState
advance q r =
    if is_slowest q.head (get_or q.next_item r none) then adjust_slowest_queue_reader q r else q

unfoldable pub advance_from : QueueState → ℕ → ℕ → QueueState
advance_from q r zero = q
advance_from q r (suc n) = advance_from (advance q r) (suc r) n
