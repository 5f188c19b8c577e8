-- ===== src/Queue/Throttle.antt =====
-- Rates and pacing in Queues/pacing.c, and in writeQueue of Queues/queue.c.
use bgpmon.Base.{
  ℕ, suc, ◌+◌, ◌-◌, ◌/◌, ◌≤◌, ◌<◌, ◌≡◌, refl, ◌⊎◌, true, false, arith, if◌then◌else◌, get_or, ok,
  err, hang,
}
use bgpmon.Queue.State.{QueueState, QueueConfiguration, FloatOps, Message, queue_max_items}
use bgpmon.Queue.Pacing.{
  calculate_writes_limit, apply_pacing, paces_writer, update_interval, over_threshold,
}
use bgpmon.Queue.Write.{make_room, write_queue}
use bgpmon.Queue.Inv.{IsValid, IsValid-same}
use bgpmon.Queue.Inv.Relieve.{make_room_lem}
use bgpmon.Queue.Inv.Interval.{interval_loop_hang}

module _ (fl : FloatOps) (cfg : QueueConfiguration) where
  -- With readers and writers, a new writes limit is at least the configured minimum, and above it
  -- at most half of the free places.
  pub calculate_writes_limit_bounds :
      (q : QueueState)
      → 0 < q.readercount
      → 0 < q.writercount
      → let limit = (calculate_writes_limit fl cfg q).writes_limit in
        (cfg.min_writes_per_interval ≤ limit)
        × ((limit ≡ cfg.min_writes_per_interval)
            ⊎ (limit ≤ (queue_max_items - (q.tail - q.head)) / 2))
  unfolding calculate_writes_limit
  calculate_writes_limit_bounds q readers writers = ground arith

  -- A writer that sleeps after applyPacing has used up its limit, pacing was on or the queue is
  -- over the upper threshold, and a start of pacing is counted once.
  pub pacing_switches :
      (q : QueueState) (w : ℕ)
      → paces_writer fl cfg (apply_pacing fl cfg q) w ≡ true
      → (q.writes_limit ≤ get_or q.write_counts w 0)
        × ((over_threshold fl cfg q ≡ true) ⊎ (q.pacing_flag ≡ true))
        × ((apply_pacing fl cfg q).log_pacing_count
            ≡ q.log_pacing_count + (if q.pacing_flag then 0 else 1))
  unfolding apply_pacing paces_writer
  pacing_switches q w h = ground arith

  module _ (now : ℕ) (q : QueueState) (w : ℕ) (m : Message) where
    held : QueueState
    held = record q { locked = true }

    hang_steps :
        (q1 : QueueState)
        → q.locked ≡ false
        → make_room held ≡ ok q1
        → update_interval fl cfg now q1 ≡ err hang
        → write_queue fl cfg now q w m ≡ err hang
    unfolding write_queue held
    hang_steps q1 free e1 e2 = ground arith

    hung :
        (q1 : QueueState)
        → cfg.pacing_interval ≡ 0
        → q1.tick ≤ now
        → update_interval fl cfg now q1 ≡ err hang
    unfolding update_interval
    hung q1 zero_interval le =
        rw (interval_loop_hang fl cfg now (suc (suc now - q1.tick)) q1 zero_interval le)

    -- A pacing interval of 0 makes a write to an unlocked, valid queue loop for ever, if the
    -- time is not before the queue's tick.
    pub write_queue_hang :
        (log : ℕ → Message)
        → cfg.pacing_interval ≡ 0
        → q.tick ≤ now
        → q.locked ≡ false
        → IsValid log q
        → write_queue fl cfg now q w m ≡ err hang
    unfolding held
    write_queue_hang log zero_interval le free v =
        let (q1, e, _, s, _) =
          make_room_lem log held (IsValid-same log q held refl refl refl refl refl v.ideal v) in
        hang_steps q1 free e (hung q1 zero_interval (rw s.tick le))
