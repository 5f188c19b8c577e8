-- ===== src/Queue/Write.antt =====
-- Queues/queue.c: writeQueue and readQueue.
use bgpmon.Base.{
  ℕ, suc, ◌+◌, ◌-◌, Bool, Option, none, some, if◌then◌else◌, ltb, leb, update, get_or, set, Result,
  ok, err, ◌>>=◌, log_fatal,
}
use bgpmon.Queue.State.{
  Message, QueueConfiguration, FloatOps, QueueState, lock, unlock, slot, queue_max_items,
  max_queue_readers,
}
use bgpmon.Queue.Pacing.{over_threshold, apply_pacing, check_pacing_stop, update_interval}
use bgpmon.Queue.Release.{drop_ref, relieve_from, advance_from}

abbrev pub is_full : QueueState → Bool
is_full q = leb queue_max_items (q.tail - q.head)

-- A full queue skips its slowest readers; if that makes no room the program exits.
unfoldable pub make_room : QueueState → Result QueueState
make_room q =
    let q' = if is_full q then relieve_from q 0 max_queue_readers else q in
    if is_full q' then err log_fatal else ok q'

-- "write the data to the next spot in the queue"
unfoldable pub append : QueueState → ℕ → Message → QueueState
append q w item =
    if ltb 0 q.readercount
    then record q {
      write_count = q.write_count + 1;
      write_counts = set q.write_counts w (get_or q.write_counts w 0 + 1);
      items =
          update q.items (slot q.tail) (record { count = q.readercount; messag_buf = some item });
      tail = q.tail + 1;
      log_max_items =
          if ltb q.log_max_items (q.tail + 1 - q.head)
          then q.tail + 1 - q.head
          else q.log_max_items;
    }
    else record q { write_count = q.write_count + 1 }

-- What readQueue returns: READER_SLOT_AVAILABLE, an item with the count of those unread, or
-- nothing yet, as the caller waits on the condition with the lock released.
pub data ReadResult : Type 0 where
  ceased waiting : ReadResult
  got : QueueState → Option Message → ℕ → ReadResult

-- The reference that the reader holds on the item at p, and what it gets for it: the original if
-- it is the last reader, a copy otherwise. `drop_ref` is that decrement, with the head.
unfoldable pub take_item : QueueState → ℕ → ℕ → QueueState
take_item q r p =
    let q' = drop_ref q p in
    record q' {
      next_item = set q.next_item r (some (suc p));
      items_read = set q.items_read r (get_or q.items_read r 0 + 1);
    }

module _ (fl : FloatOps) (cfg : QueueConfiguration) where
  -- The steps between updateInterval and the write.
  unfoldable pub before_append : QueueState → QueueState
  before_append q =
      if q.new_pacing_enable
      then if over_threshold fl cfg q then advance_from q 0 max_queue_readers else q
      else check_pacing_stop fl cfg q

  unfoldable pub after_append : QueueState → QueueState
  after_append q = if q.new_pacing_enable then q else apply_pacing fl cfg q

  -- Past the log interval the status is logged, after the unlock.
  unfoldable pub log_status : ℕ → QueueState → QueueState
  log_status now q =
      if ltb (q.last_log_time + cfg.log_interval) now then record q { last_log_time = now } else q

  unfoldable pub write_queue : ℕ → QueueState → ℕ → Message → Result QueueState
  write_queue now q w item = lock q >>= λ q. make_room q >>= λ q.
      update_interval fl cfg now q >>= λ q.
      ok (log_status now (unlock (after_append (append (before_append q) w item))))

  unfoldable pub read_at : ℕ → QueueState → ℕ → ℕ → Result ReadResult
  read_at now q r p =
      if leb q.tail p
      then ok waiting
      else update_interval fl cfg now (take_item q r p) >>= λ q'.
          let counted = record q' { read_count = q'.read_count + 1 } in
          let done =
            if counted.new_pacing_enable then counted else check_pacing_stop fl cfg counted in
          ok (got (unlock done) (q.items (slot p)).messag_buf (done.tail - suc p))

  unfoldable pub read_queue : ℕ → QueueState → ℕ → Result ReadResult
  read_queue now q r = elim (get_or q.next_item r none) [
    | none ↦ ok ceased
    | some p ↦ lock q >>= λ q. read_at now q r p
  ]
