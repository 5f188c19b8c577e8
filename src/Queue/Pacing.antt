-- ===== src/Queue/Pacing.antt =====
-- Queues/pacing.c: when writers are slowed down, and by how much. `now` is what time(NULL) returns.
use bgpmon.Base.{
  ℕ, zero, suc, ◌+◌, ◌-◌, ◌/◌, Bool, true, false, Option, none, some, if◌then◌else◌, ltb, leb, ◌==◌,
  not, map, get_or, Result, or_fault, hang,
}
use bgpmon.Queue.State.{QueueConfiguration, FloatOps, QueueState, queue_max_items}

module _ (fl : FloatOps) (cfg : QueueConfiguration) where
  -- (float)(tail - head) / (float)QUEUE_MAX_ITEMS
  abbrev pub utilization : QueueState → ℕ
  utilization q = fl.div (fl.of_int (q.tail - q.head)) (fl.of_int queue_max_items)

  abbrev pub over_threshold : QueueState → Bool
  over_threshold q = fl.ge (utilization q) cfg.pacing_on_thresh

  -- (1 - alpha) * old + alpha * current
  abbrev pub moving_average : ℕ → ℕ → ℕ
  moving_average old current = fl.to_int (
      fl.add (fl.mul (fl.sub (fl.of_int 1) cfg.alpha) (fl.of_int old))
        (fl.mul cfg.alpha (fl.of_int current)))

  -- The first half of applyPacing. The second unlocks the queue and sleeps: see `paces_writer`.
  unfoldable pub apply_pacing : QueueState → QueueState
  apply_pacing q =
      if over_threshold q
      then record q {
        log_pacing_count = if q.pacing_flag then q.log_pacing_count else q.log_pacing_count + 1;
        pacing_flag = true;
      }
      else q

  -- Whether the writer sleeps until the interval ends.
  unfoldable pub paces_writer : QueueState → ℕ → Bool
  paces_writer q writer_index =
      if q.pacing_flag then leb q.writes_limit (get_or q.write_counts writer_index 0) else false

  unfoldable pub check_pacing_stop : QueueState → QueueState
  check_pacing_stop q =
      if fl.lt (utilization q) cfg.pacing_off_thresh then record q { pacing_flag = false } else q

  -- The two bounds at the end of calculateWritesLimit.
  abbrev pub clamp_limit : QueueState → ℕ → ℕ
  clamp_limit q limit =
      let upbound = (queue_max_items - (q.tail - q.head)) / 2 in
      let bounded = if ltb upbound limit then upbound else limit in
      if ltb bounded cfg.min_writes_per_interval then cfg.min_writes_per_interval else bounded

  unfoldable pub calculate_writes_limit : QueueState → QueueState
  calculate_writes_limit q =
      if q.readercount == 0
      then q
      else if q.writercount == 0
      then q
      else record q { writes_limit = clamp_limit q (moving_average q.writes_limit instant) }
    where
      instant : ℕ
      instant = (q.read_count / q.readercount) / q.writercount

  unfoldable pub calculate_ewma_writes : QueueState → QueueState
  calculate_ewma_writes q = record q {
    writes_ewma =
        if q.writes_ewma == 0 then q.write_count else moving_average q.writes_ewma q.write_count;
  }

  -- updateInterval's loop body, old pacing and new.
  unfoldable pub next_interval : QueueState → QueueState
  unfolding calculate_writes_limit calculate_ewma_writes
  next_interval q =
      if not q.new_pacing_enable
      then record (calculate_writes_limit (record q { tick = q.tick + cfg.pacing_interval })) {
        read_count = 0;
        write_counts = map (λ _. 0) q.write_counts;
      }
      else record (calculate_ewma_writes (record q {
        tick = q.tick + cfg.pacing_interval;
        ideal_reader_position = if ltb q.tail ideal then q.tail else ideal;
      })) { write_count = 0 }
    where
      ideal : ℕ
      ideal = q.ideal_reader_position + q.writes_ewma

  -- The while loop of updateInterval on fuel; `none` when the fuel runs out.
  unfoldable pub interval_loop : ℕ → ℕ → QueueState → Option QueueState
  interval_loop now zero q = none
  interval_loop now (suc fuel) q =
      let rest = interval_loop now fuel (next_interval q) in
      if ltb now (q.tick + cfg.pacing_interval) then some q else rest

  -- An interval of a second or more ends the loop within this fuel; a shorter one never does.
  unfoldable pub update_interval : ℕ → QueueState → Result QueueState
  update_interval now q = or_fault (interval_loop now (suc (suc now - q.tick)) q) hang
