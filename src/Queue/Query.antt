-- ===== src/Queue/Query.antt =====
-- Queues/queue.c: settings, and what the command line asks of the four queues by name.
use Prim.Native.String.{String}
use text.Mathlib.Text.{◌==◌ as str_eq}
use bgpmon.Base.{
  ℕ, zero, suc, ◌+◌, ◌-◌, ◌%◌, ◌^◌, ℤ, pos, signed32, Result, ok, ◌>>=◌, Bool, false, Option, none,
  some, if◌then◌else◌, get_or,
}
use bgpmon.Queue.State.{QueueState, QueueConfiguration, Message, lock, slot, queue_max_items}

-- The globals peerQueue, labeledQueue, xmlUQueue and xmlRQueue.
pub record Queues : Type 0 where
  pub peer_queue : Option QueueState
  pub labeled_queue : Option QueueState
  pub xml_u_queue : Option QueueState
  pub xml_r_queue : Option QueueState

unfoldable pub get_queue_by_name : Queues → String → Option QueueState
get_queue_by_name qs name =
    if str_eq name "PeerQueue"
    then qs.peer_queue
    else if str_eq name "LabelQueue"
    then qs.labeled_queue
    else if str_eq name "XMLUQueue"
    then qs.xml_u_queue
    else if str_eq name "XMLRQueue"
    then qs.xml_r_queue
    else none

-- Each query is 0 when there is no such queue.
unfoldable pub ask : Queues → String → (QueueState → ℕ) → ℕ
ask qs name f = elim (get_queue_by_name qs name) [ none ↦ 0 | some q ↦ f q ]

-- The loop of getBytesUsed: n positions from i on, added to an int, whose 32 bits are kept as a
-- number; sizeof(long) is 8.
unfoldable pub sum_bytes : (Message → ℕ) → QueueState → ℕ → ℕ → ℕ → ℕ
sum_bytes size_of q i zero size = size
sum_bytes size_of q i (suc n) size =
    let bytes : ℕ = elim (q.items (slot i)).messag_buf [ none ↦ 0 | some m ↦ size_of m ] in
    sum_bytes size_of q (suc i) n (((size + 8) % 2 ^ 32 + bytes) % 2 ^ 32)

-- The lock is taken and released; the value is that of the int.
unfoldable pub get_bytes_used : (Message → ℕ) → Queues → String → Result ℤ
get_bytes_used size_of qs name = elim (get_queue_by_name qs name) [
  | none ↦ ok (pos 0)
  | some q ↦ lock q >>= λ q. ok (signed32 (sum_bytes size_of q q.head (q.tail - q.head) 0))
]

unfoldable pub get_items_used : Queues → String → ℕ
get_items_used qs name = ask qs name (λ q. q.tail - q.head)

unfoldable pub get_items_total : Queues → String → ℕ
get_items_total qs name = ask qs name (λ _. queue_max_items)

unfoldable pub get_logged_max_items : Queues → String → ℕ
get_logged_max_items qs name = ask qs name (λ q. q.log_max_items)

unfoldable pub get_logged_max_readers : Queues → String → ℕ
get_logged_max_readers qs name = ask qs name (λ q. q.log_max_readers)

unfoldable pub get_logged_max_writers : Queues → String → ℕ
get_logged_max_writers qs name = ask qs name (λ q. q.log_max_writers)

unfoldable pub get_pacing_count : Queues → String → ℕ
get_pacing_count qs name = ask qs name (λ q. q.log_pacing_count)

-- The pacing count since the last call, for the queue that getQueueByName found; the queue
-- remembers it.
unfoldable pub get_current_pacing_count : Option QueueState → Option QueueState × ℕ
get_current_pacing_count none = (none, 0)
get_current_pacing_count (some q) = (
  some (record q { last_sent_log_pacing_count = q.log_pacing_count }),
  q.log_pacing_count - q.last_sent_log_pacing_count,
)

unfoldable pub get_pacing_state : Queues → String → Bool
get_pacing_state qs name = elim (get_queue_by_name qs name) [
  | none ↦ false
  | some q ↦ q.pacing_flag
]

unfoldable pub get_current_writes_limit : Queues → String → ℕ
get_current_writes_limit qs name = ask qs name (λ q. q.writes_limit)

-- tail - nextItem[readerIndex]: one more than the tail for a free slot, whose position is -1.
unfoldable pub get_reader_unread_items : Queues → String → ℕ → ℕ
get_reader_unread_items qs name r =
    ask qs name (λ q. elim (get_or q.next_item r none) [ none ↦ q.tail + 1 | some p ↦ q.tail - p ])

unfoldable pub get_reader_read_items : Queues → String → ℕ → ℕ
get_reader_read_items qs name r = ask qs name (λ q. get_or q.items_read r 0)

unfoldable pub get_reader_count : Queues → String → ℕ
get_reader_count qs name = ask qs name (λ q. q.readercount)

unfoldable pub get_writer_count : Queues → String → ℕ
get_writer_count qs name = ask qs name (λ q. q.writercount)

unfoldable pub set_pacing_on_thresh : ℕ → QueueConfiguration → QueueConfiguration
set_pacing_on_thresh v c = record c { pacing_on_thresh = v }

unfoldable pub set_pacing_off_thresh : ℕ → QueueConfiguration → QueueConfiguration
set_pacing_off_thresh v c = record c { pacing_off_thresh = v }

unfoldable pub set_alpha : ℕ → QueueConfiguration → QueueConfiguration
set_alpha v c = record c { alpha = v }

unfoldable pub set_minimum_writes_limit : ℕ → QueueConfiguration → QueueConfiguration
set_minimum_writes_limit v c = record c { min_writes_per_interval = v }

unfoldable pub set_pacing_interval : ℕ → QueueConfiguration → QueueConfiguration
set_pacing_interval v c = record c { pacing_interval = v }
