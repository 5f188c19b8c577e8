-- ===== src/Queue/Inv/Interval.antt =====
-- The loop of updateInterval and the pacing tests (Queues/pacing.c).

use bgpmon.Base.{
  ℕ, zero, suc, ◌+◌, ◌-◌, ◌≤◌, ◌<◌, ◌≡◌, refl, ◌∙◌, inl, inr, none, some, arith, Bool-cases, ltb,
  ltb→le, le→ltb, ok,
}
use bgpmon.Queue.State.{QueueState, QueueConfiguration, FloatOps, Message}
use bgpmon.Queue.Pacing.{
  next_interval, interval_loop, update_interval, apply_pacing, check_pacing_stop,
}
use bgpmon.Queue.Inv.{IsValid, IsValid-same}

-- What bookkeeping leaves alone.
pub record Quiet (q q' : QueueState) : Type 0 where
  pub head : q'.head ≡ q.head
  pub tail : q'.tail ≡ q.tail
  pub items : q'.items ≡ q.items
  pub next_item : q'.next_item ≡ q.next_item
  pub readercount : q'.readercount ≡ q.readercount
  pub locked : q'.locked ≡ q.locked
  pub new_pacing_enable : q'.new_pacing_enable ≡ q.new_pacing_enable

pub Quiet-refl : (q : QueueState) → Quiet q q
Quiet-refl q = record {
  head = refl;
  tail = refl;
  items = refl;
  next_item = refl;
  readercount = refl;
  locked = refl;
  new_pacing_enable = refl;
}

pub Quiet-trans : {p q r : QueueState} → Quiet p q → Quiet q r → Quiet p r
Quiet-trans s t = record {
  head = t.head ∙ s.head;
  tail = t.tail ∙ s.tail;
  items = t.items ∙ s.items;
  next_item = t.next_item ∙ s.next_item;
  readercount = t.readercount ∙ s.readercount;
  locked = t.locked ∙ s.locked;
  new_pacing_enable = t.new_pacing_enable ∙ s.new_pacing_enable;
}

pub Quiet-IsValid :
    (log : ℕ → Message) (q q' : QueueState)
    → Quiet q q'
    → q'.ideal_reader_position ≤ q'.tail
    → IsValid log q
    → IsValid log q'
Quiet-IsValid log q q' s h v =
    IsValid-same log q q' s.head s.tail s.items s.next_item s.readercount h v

module _ (fl : FloatOps) (cfg : QueueConfiguration) where
  next_interval-Quiet : (q : QueueState) → Quiet q (next_interval fl cfg q)
  unfolding next_interval
  next_interval-Quiet q = ground arith

  next_interval-tick :
      (q : QueueState) → (next_interval fl cfg q).tick ≡ q.tick + cfg.pacing_interval
  unfolding next_interval
  next_interval-tick q = ground arith

  next_interval-ideal :
      (q : QueueState)
      → q.ideal_reader_position ≤ q.tail
      → (next_interval fl cfg q).ideal_reader_position ≤ (next_interval fl cfg q).tail
  unfolding next_interval
  next_interval-ideal q h = ground arith

  next_interval-IsValid :
      (log : ℕ → Message) (q : QueueState) → IsValid log q → IsValid log (next_interval fl cfg q)
  next_interval-IsValid log q v =
      Quiet-IsValid log q _ (next_interval-Quiet q) (next_interval-ideal q v.ideal) v

  -- The loop's result: the interval that contains `now`, with the messages untouched.
  abbrev Caught : (ℕ → Message) → ℕ → QueueState → QueueState → Type 0
  Caught log now q q' = IsValid log q' × Quiet q q' × (now < q'.tick + cfg.pacing_interval)

  interval_loop_lem :
      (log : ℕ → Message) (now fuel : ℕ) (q : QueueState)
      → 0 < cfg.pacing_interval
      → suc now - q.tick < fuel
      → IsValid log q
      → (q' : QueueState) × (interval_loop fl cfg now fuel q ≡ some q')
        × IsValid log q'
        × Quiet q q'
        × (now < q'.tick + cfg.pacing_interval)
  unfolding interval_loop
  interval_loop_lem log now zero q pos h v = elim h [ ]
  interval_loop_lem log now (suc fuel) q pos h v =
      elim (Bool-cases (ltb now (q.tick + cfg.pacing_interval))) [
        | inl done ↦ (q, rw done, v, Quiet-refl q, ground arith)
        | inr more ↦
            let (q', e, v', s, t) =
              interval_loop_lem log now fuel (next_interval fl cfg q) pos
                (omega (arith, next_interval-tick q, ltb→le _ _ more))
                (next_interval-IsValid log q v) in
            (q', rw more e, v', Quiet-trans (next_interval-Quiet q) s, t)
      ]

  -- With an interval of a second or more the loop of updateInterval ends on a valid queue: `now`
  -- is before the end of the current interval, the queue stays valid, and its items and readers
  -- are untouched.
  pub update_interval_lem :
      (log : ℕ → Message) (now : ℕ) (q : QueueState)
      → 0 < cfg.pacing_interval
      → IsValid log q
      → (q' : QueueState) × (update_interval fl cfg now q ≡ ok q')
        × IsValid log q'
        × Quiet q q'
        × (now < q'.tick + cfg.pacing_interval)
  unfolding update_interval
  update_interval_lem log now q pos v =
      let (q', e, v', s, t) =
        interval_loop_lem log now (suc (suc now - q.tick)) q pos (omega arith) v in
      (q', rw e, v', s, t)

  -- With an interval of 0 no number of rounds is enough.
  pub interval_loop_hang :
      (now fuel : ℕ) (q : QueueState)
      → cfg.pacing_interval ≡ 0
      → q.tick ≤ now
      → interval_loop fl cfg now fuel q ≡ none
  unfolding interval_loop
  interval_loop_hang now zero q zero_interval h = refl
  interval_loop_hang now (suc fuel) q zero_interval h =
      rw (le→ltb now (q.tick + cfg.pacing_interval) (omega arith)) (
        interval_loop_hang now fuel (next_interval fl cfg q) zero_interval
          (omega (arith, next_interval-tick q)))

  pub check_pacing_stop-Quiet : (q : QueueState) → Quiet q (check_pacing_stop fl cfg q)
  unfolding check_pacing_stop
  check_pacing_stop-Quiet q = ground arith

  pub apply_pacing-Quiet : (q : QueueState) → Quiet q (apply_pacing fl cfg q)
  unfolding apply_pacing
  apply_pacing-Quiet q = ground arith
