-- ===== src/Queue/Writing.antt =====
-- writeQueue as a whole (Queues/queue.c): it makes room, keeps time, writes, and paces the writer.
use mathlib.Core.Path.{ap₂}
use bgpmon.Base.{
  ℕ, ◌+◌, ◌≤◌, ◌<◌, ◌≡◌, refl, ◌∙◌, subst, true, false, arith, ltb, if_elim, if◌then◌else◌, update,
  ok,
}
use bgpmon.Queue.State.{
  QueueState, QueueConfiguration, FloatOps, Message, max_queue_readers, unlock,
}
use bgpmon.Queue.Pacing.{
  utilization, update_interval, over_threshold, check_pacing_stop, apply_pacing,
}
use bgpmon.Queue.Write.{make_room, append, before_append, after_append, log_status, write_queue}
use bgpmon.Queue.Inv.{IsValid, IsValid-same}
use bgpmon.Queue.Inv.Move.{Still, Still-refl, advance_from-IsValid}
use bgpmon.Queue.Inv.Relieve.{make_room_lem}
use bgpmon.Queue.Inv.Interval.{
  Quiet, Quiet-refl, Quiet-IsValid, apply_pacing-Quiet, update_interval_lem,
}
use bgpmon.Queue.Inv.Append.{append-IsValid}

module _ (fl : FloatOps) (cfg : QueueConfiguration) (log : ℕ → Message) where
  pub check_pacing_stop-Still :
      (q : QueueState)
      → IsValid log q
      → IsValid log (check_pacing_stop fl cfg q) × Still q (check_pacing_stop fl cfg q)
  unfolding check_pacing_stop
  check_pacing_stop-Still q v =
      if_elim Kept (fl.lt (utilization fl cfg q) cfg.pacing_off_thresh) (λ _. kept)
        (λ _. (v, Still-refl q))
    where
      Kept : QueueState → Type 0
      Kept q' = IsValid log q' × Still q q'

      kept : Kept (record q { pacing_flag = false })
      kept = (
        IsValid-same log q _ refl refl refl refl refl v.ideal v,
        record {
          tail = refl;
          ideal_reader_position = refl;
          new_pacing_enable = refl;
          locked = refl;
          tick = refl;
          readercount = refl;
          head = omega arith;
        },
      )

  before_append-IsValid :
      (q : QueueState)
      → IsValid log q
      → IsValid log (before_append fl cfg q) × Still q (before_append fl cfg q)
  unfolding before_append
  before_append-IsValid q v =
      if_elim Kept q.new_pacing_enable
        (λ _.
          if_elim Kept (over_threshold fl cfg q)
            (λ _. advance_from-IsValid log max_queue_readers 0 q v) (λ _. (v, Still-refl q)))
        (λ _. check_pacing_stop-Still q v)
    where
      Kept : QueueState → Type 0
      Kept q' = IsValid log q' × Still q q'

  after_append-Quiet : (q : QueueState) → Quiet q (after_append fl cfg q)
  unfolding after_append
  after_append-Quiet q =
      if_elim (Quiet q) q.new_pacing_enable (λ _. Quiet-refl q) (λ _. apply_pacing-Quiet fl cfg q)

  after_append-ideal :
      (q : QueueState)
      → q.ideal_reader_position ≤ q.tail
      → (after_append fl cfg q).ideal_reader_position ≤ (after_append fl cfg q).tail
  unfolding after_append apply_pacing
  after_append-ideal q h = ground arith

  log_status-IsValid :
      (now : ℕ) (q : QueueState) → IsValid log q → IsValid log (log_status fl cfg now (unlock q))
  unfolding log_status
  log_status-IsValid now q v =
      if_elim (IsValid log) (ltb (q.last_log_time + cfg.log_interval) now)
        (λ _. IsValid-same log q _ refl refl refl refl refl v.ideal v)
        (λ _. IsValid-same log q _ refl refl refl refl refl v.ideal v)

  log_status-fields :
      (now : ℕ) (q : QueueState)
      → let q' = log_status fl cfg now (unlock q) in
        (q'.locked ≡ false) × (q'.tail ≡ q.tail) × (q'.head ≡ q.head)
  unfolding log_status
  log_status-fields now q = ground arith

  finish-IsValid :
      (now : ℕ) (q : QueueState)
      → IsValid log q
      → IsValid log (log_status fl cfg now (unlock (after_append fl cfg q)))
  finish-IsValid now q v = log_status-IsValid now (after_append fl cfg q) (
      Quiet-IsValid log q (after_append fl cfg q) (after_append-Quiet q)
        (after_append-ideal q v.ideal) v)

-- The tail after a write: one on if somebody subscribes, as before otherwise.
tail-append :
    (q : QueueState) (w : ℕ) (m : Message)
    → ((append q w m).tail ≡ (if ltb 0 q.readercount then q.tail + 1 else q.tail))
      × ((append q w m).head ≡ q.head)
unfolding append
tail-append q w m = ground arith

module _ (fl : FloatOps) (cfg : QueueConfiguration) (now : ℕ) (q : QueueState) (w : ℕ)
    (m : Message) where
  held : QueueState
  held = record q { locked = true }

  write_steps :
      (q1 q2 : QueueState)
      → q.locked ≡ false
      → make_room held ≡ ok q1
      → update_interval fl cfg now q1 ≡ ok q2
      → write_queue fl cfg now q w m
        ≡ ok (
            log_status fl cfg now
              (unlock (after_append fl cfg (append (before_append fl cfg q2) w m))))
  unfolding write_queue held
  write_steps q1 q2 free e1 e2 = ground arith

  -- With a pacing interval above 0, writeQueue on an unlocked, valid queue always returns, with
  -- the queue unlocked and valid against the history with the message at the old tail; the tail
  -- moves on by one if there are readers, and not at all if there are none.
  pub write_queue_lem :
      (log : ℕ → Message)
      → 0 < cfg.pacing_interval
      → q.locked ≡ false
      → IsValid log q
      → (q' : QueueState) × (write_queue fl cfg now q w m ≡ ok q')
        × IsValid (update log q.tail m) q'
        × (q'.locked ≡ false)
        × (q'.tail ≡ (if ltb 0 q.readercount then q.tail + 1 else q.tail))
  unfolding held
  write_queue_lem log pos free v =
      let (q1, e1, v1, s1, room) =
        make_room_lem log held (IsValid-same log q held refl refl refl refl refl v.ideal v) in
      let (q2, e2, v2, s2, _) = update_interval_lem fl cfg log now q1 pos v1 in
      let (v3, s3) = before_append-IsValid fl cfg log q2 v2 in
      let q3 = before_append fl cfg q2 in
      let tail : q3.tail ≡ q.tail = s3.tail ∙ s2.tail ∙ s1.tail in
      let readers : q3.readercount ≡ q.readercount =
        s3.readercount ∙ s2.readercount ∙ s1.readercount in
      let v4 = append-IsValid log q3 w m v3 (omega (arith, s3, s2)) in
      let q4 = append q3 w m in
      let fields = log_status-fields fl cfg log now (after_append fl cfg q4) in
      (
        _,
        write_steps q1 q2 free e1 e2,
        subst
            (λ t.
              IsValid (update log t m) (log_status fl cfg now (unlock (after_append fl cfg q4))))
            tail (finish-IsValid fl cfg (update log q3.tail m) now q4 v4),
        fields.0,
        fields.1
            ∙ (after_append-Quiet fl cfg log q4).tail
            ∙ (tail-append q3 w m).0
            ∙ ap₂ (λ n t. if ltb 0 n then t + 1 else t) readers tail,
      )
