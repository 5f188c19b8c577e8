-- ===== src/Queue/Report.antt =====
-- What the queries of Queues/queue.c report of a valid queue.
use Prim.Native.String.{String}
use bgpmon.Base.{
  ℕ, zero, suc, ◌+◌, ◌-◌, ◌≤◌, ◌<◌, ◌%◌, ◌^◌, ◌≡◌, refl, ap, ◌∙◌, true, false, ok, signed32, none,
  some, arith, get_elem?, get_or, get_or_of_get_elem?,
}
use bgpmon.Queue.State.{QueueState, Message, queue_max_items, max_queue_readers}
use bgpmon.Queue.Readers.{Within-get, active-le-length}
use bgpmon.Queue.Inv.{IsValid, IsValid-same}
use bgpmon.Queue.Query.{
  Queues, ask, get_queue_by_name, sum_bytes, get_bytes_used, get_items_used, get_items_total,
  get_reader_unread_items, get_reader_count,
}

-- 8 bytes and the size of each message, for the n messages of the history from p on.
abbrev pub bytes_of : (Message → ℕ) → (ℕ → Message) → ℕ → ℕ → ℕ
bytes_of size_of log p zero = 0
bytes_of size_of log p (suc n) = 8 + size_of (log p) + bytes_of size_of log (suc p) n

sum_bytes-bytes_of :
    (size_of : Message → ℕ) (log : ℕ → Message) (q : QueueState) (n i size : ℕ)
    → IsValid log q
    → q.head ≤ i
    → i + n ≤ q.tail
    → size < 2 ^ 32
    → sum_bytes size_of q i n size ≡ (size + bytes_of size_of log i n) % 2 ^ 32
unfolding sum_bytes
sum_bytes-bytes_of size_of log q zero i size v a b small = omega arith
sum_bytes-bytes_of size_of log q (suc n) i size v a b small =
    let next : ℕ = ((size + 8) % 2 ^ 32 + size_of (log i)) % 2 ^ 32 in
    let step : (next + bytes_of size_of log (suc i) n) % 2 ^ 32
        ≡ (size + bytes_of size_of log i (suc n)) % 2 ^ 32 =
      omega arith in
    rw (v.consistent.stored i a (omega arith)) (
      sum_bytes-bytes_of size_of log q n (suc i) next v (omega arith) (omega arith) (omega arith)
      ∙ step)

module _ (log : ℕ → Message) (qs : Queues) (name : String) (q : QueueState) (v : IsValid log q)
    (known : get_queue_by_name qs name ≡ some q) where
  asked : (f : QueueState → ℕ) → ask qs name f ≡ f q
  unfolding ask
  asked f = rw (known, ask)

  -- getBytesUsed of a known, valid and unlocked queue returns the sum, over the messages of the
  -- history from the head to the tail, of 8 bytes and the size of each, wrapped to an int of 32
  -- bits.
  pub get_bytes_used_lem :
      (size_of : Message → ℕ)
      → q.locked ≡ false
      → get_bytes_used size_of qs name
        ≡ ok (signed32 (bytes_of size_of log q.head (q.tail - q.head) % 2 ^ 32))
  unfolding get_bytes_used
  get_bytes_used_lem size_of free =
      let held : QueueState = record q { locked = true } in
      let total : sum_bytes size_of held q.head (q.tail - q.head) 0
          ≡ (0 + bytes_of size_of log q.head (q.tail - q.head)) % 2 ^ 32 =
        sum_bytes-bytes_of size_of log held (q.tail - q.head) q.head 0
          (IsValid-same log q held refl refl refl refl refl v.ideal v) (omega arith)
          (omega (arith, v.consistent.ordered)) (omega arith) in
      let same : (0 + bytes_of size_of log q.head (q.tail - q.head)) % 2 ^ 32
          ≡ bytes_of size_of log q.head (q.tail - q.head) % 2 ^ 32 =
        omega arith in
      rw (known, get_bytes_used, free) (ap (λ z. ok (signed32 z)) (total ∙ same))

  -- A known, valid queue uses no more items than it has, a live reader has no more unread items
  -- than those and they end at the tail, and the readers fit the table.
  pub usage_bounds :
      (r p : ℕ)
      → get_elem? q.next_item r ≡ some (some p)
      → (get_items_used qs name ≤ get_items_total qs name)
        × (get_reader_unread_items qs name r ≤ get_items_used qs name)
        × (get_reader_unread_items qs name r + p ≡ q.tail)
        × (get_reader_count qs name ≤ max_queue_readers)
  unfolding get_items_used get_items_total get_reader_unread_items get_reader_count
  usage_bounds r p at =
      let range = Within-get q.head q.tail q.next_item r p v.consistent.placed at in
      let here = get_or_of_get_elem? q.next_item r (some p) none at in
      let unread =
        asked (λ q. elim (get_or q.next_item r none) [ none ↦ q.tail + 1 | some p ↦ q.tail - p ]) in
      (
        omega
            (arith, asked (λ q. q.tail - q.head), asked (λ _. queue_max_items), v.consistent.fits),
        rw unread (rw here (omega (arith, asked (λ q. q.tail - q.head)))),
        rw unread (rw here (omega arith)),
        omega (arith, asked (λ q. q.readercount), v.readers, v.slots, active-le-length q.next_item),
      )
