-- ===== src/Queue/State.antt =====
-- Queues/queueinternal.h and site_defaults.h.in: the queue's structure, its limits, and its lock.
-- A `long` position is a native number, a float is its bit pattern.
use bgpmon.Base.{
  ℕ, ◌-◌, ◌%◌, ◌^◌, Bool, true, false, List, Option, Result, ok, err, deadlock, if◌then◌else◌, ◌==◌,
}

abbrev pub queue_max_items : ℕ
queue_max_items = 5000

-- MAX_CLIENT_IDS and MAX_CHAIN_IDS + 1, by the conditionals of queueinternal.h.
abbrev pub max_queue_readers : ℕ
max_queue_readers = 10000

abbrev pub max_queue_writers : ℕ
max_queue_writers = 1001

abbrev pub queue_min_writes_limit : ℕ
queue_min_writes_limit = 1

-- The queue moves messages and never looks into them.
abbrev pub Message : Type 0
Message = ℕ

pub record QueueConfiguration : Type 0 where
  pub pacing_on_thresh : ℕ  -- float
  pub pacing_off_thresh : ℕ  -- float
  pub alpha : ℕ  -- float
  pub min_writes_per_interval : ℕ
  pub pacing_interval : ℕ
  pub log_interval : ℕ

-- The float operations that the queue uses, on bit patterns; conversions are C's.
pub record FloatOps : Type 0 where
  pub of_int : ℕ → ℕ
  pub to_int : ℕ → ℕ
  pub add : ℕ → ℕ → ℕ
  pub sub : ℕ → ℕ → ℕ
  pub mul : ℕ → ℕ → ℕ
  pub div : ℕ → ℕ → ℕ
  pub lt : ℕ → ℕ → Bool
  pub ge : ℕ → ℕ → Bool

pub record QueueEntry : Type 0 where
  pub count : ℕ  -- int, as a bit pattern
  pub messag_buf : Option Message  -- `none` is NULL

pub record QueueState : Type 0 where
  pub locked : Bool  -- queueLock is held
  pub last_log_time : ℕ
  pub log_max_items : ℕ
  pub log_max_readers : ℕ
  pub log_max_writers : ℕ
  pub log_pacing_count : ℕ
  pub last_sent_log_pacing_count : ℕ
  pub head : ℕ
  pub tail : ℕ
  pub items : ℕ → QueueEntry
  pub readercount : ℕ
  pub next_item : List (Option ℕ)  -- `none` is READER_SLOT_AVAILABLE
  pub items_read : List ℕ
  pub writercount : ℕ
  pub used : List Bool
  pub new_pacing_enable : Bool
  pub pacing_flag : Bool
  pub tick : ℕ
  pub read_count : ℕ
  pub write_counts : List ℕ
  pub writes_limit : ℕ
  pub writes_ewma : ℕ
  pub write_count : ℕ
  pub ideal_reader_position : ℕ

-- pthread_mutex_lock on a held lock waits; here nobody runs who could release it.
abbrev pub lock : QueueState → Result QueueState
lock q = if q.locked then err deadlock else ok (record q { locked = true })

abbrev pub unlock : QueueState → QueueState
unlock q = record q { locked = false }

-- i % QUEUE_MAX_ITEMS
abbrev pub slot : ℕ → ℕ
slot i = i % queue_max_items

-- count-- on an int
abbrev pub decrement : ℕ → ℕ
decrement c = if c == 0 then 2 ^ 32 - 1 else c - 1
