-- ===== src/Queue/Called.antt =====
-- What a call says of the queue that it was made on: the lock, and room in the tables
-- (Queues/queue.c).
use bgpmon.Base.{
  ℕ, ◌^◌, ◌≤◌, ◌<◌, ◌≡◌, refl, sym, ◌∙◌, true, false, Option, none, some, arith, leb, ok, err,
  deadlock, Result, ◌>>=◌, get_elem?, get_or, get_elem?_of_get_or, Bool-cases, Option-cases, inl,
  inr,
}
use bgpmon.Queue.State.{
  QueueState, QueueConfiguration, FloatOps, Message, max_queue_readers, max_queue_writers,
}
use bgpmon.Queue.Ops.{
  free_reader_slot, sum_positions, join_at, create_queue_reader, destroy_queue_reader,
  free_writer_slot, create_queue_writer, destroy_queue_writer,
}
use bgpmon.Queue.Joining.{enrolled}
use bgpmon.Queue.Write.{write_queue, got, read_queue, read_at}

-- A new reader that is returned had room, and did not run past the int that counts its items.
pub joined_room :
    (q q' : QueueState) (r : ℕ)
    → q.locked ≡ false
    → create_queue_reader q ≡ ok (q', some r)
    → (q.readercount < max_queue_readers) × (0 < q.readercount → q.tail < 2 ^ 31)
unfolding create_queue_reader join_at
joined_room q q' r free e = (
  elim (Bool-cases (leb max_queue_readers q.readercount)) [
    | inl full ↦ let never : ⊥ = ground arith in absurd never
    | inr room ↦ ground arith
  ],
  λ pos. elim (Bool-cases (leb (2 ^ 31) q.tail)) [
    | inr small ↦ ground arith
    | inl large ↦ elim (Option-cases (free_reader_slot q.next_item)) [
      | inl n ↦ let never : ⊥ = ground arith in absurd never
      | inr (a, n) ↦ elim (Option-cases (sum_positions q.next_item q.readercount 0)) [
        | inl m ↦ let never : ⊥ = ground arith in absurd never
        | inr (s, m) ↦ let never : ⊥ = ground arith in absurd never
      ]
    ]
  ],
)

never_none :
    (j : Result QueueState) (f : QueueState → QueueState) (a : ℕ) (q' : QueueState)
    → ◌≡◌ {A = Result (QueueState × Option ℕ)} (j >>= λ x. ok (f x, some a)) (ok (q', none))
    → ⊥
never_none (ok x) f a q' e = cc
never_none (err x) f a q' e = cc

-- A full table of readers is given up on, and the lock released.
pub refused_unlocks :
    (q q' : QueueState)
    → q.locked ≡ false
    → create_queue_reader q ≡ ok (q', none)
    → record q { locked = false } ≡ q'
unfolding create_queue_reader
refused_unlocks q q' free e = elim (Bool-cases (leb max_queue_readers q.readercount)) [
  | inl full ↦ ground arith
  | inr room ↦ elim (Option-cases (free_reader_slot q.next_item)) [
    | inl n ↦ let never : ⊥ = ground arith in absurd never
    | inr (a, n) ↦
        let held : QueueState = record q { locked = true } in
        let run : create_queue_reader q ≡ (join_at held a >>= λ x. ok (enrolled x a, some a)) =
          rw (free, room, n) refl in
        absurd (never_none (join_at held a) (λ x. enrolled x a) a q' (sym run ∙ e))
  ]
]

-- A full table of writers keeps the lock.
pub refused_locks :
    (q q' : QueueState)
    → q.locked ≡ false
    → create_queue_writer q ≡ ok (q', none)
    → (record q { locked = true } ≡ q') × (max_queue_writers ≤ q.writercount)
unfolding create_queue_writer
refused_locks q q' free e = elim (Bool-cases (leb max_queue_writers q.writercount)) [
  | inl full ↦ (ground arith, ground arith)
  | inr room ↦ elim (Option-cases (free_writer_slot q.used)) [
    | inl n ↦ let never : ⊥ = ground arith in absurd never
    | inr (a, n) ↦ let never : ⊥ = ground arith in absurd never
  ]
]

module _ (fl : FloatOps) (cfg : QueueConfiguration) where
  -- A read that returns a message is that of a live reader with an unread one.
  pub got_unread :
      (now r n : ℕ) (q q' : QueueState) (m : Option Message)
      → q.locked ≡ false
      → read_queue fl cfg now q r ≡ ok (got q' m n)
      → (p : ℕ) × (get_elem? q.next_item r ≡ some (some p)) × (p < q.tail)
  unfolding read_queue read_at
  got_unread now r n q q' m free e = elim (Option-cases (get_or q.next_item r none)) [
    | inl gone ↦ let never : ⊥ = ground arith in absurd never
    | inr (p, at) ↦ elim (Bool-cases (leb q.tail p)) [
      | inl all ↦ let never : ⊥ = ground arith in absurd never
      | inr some_left ↦ (p, get_elem?_of_get_or q.next_item r p at, ground arith)
    ]
  ]

  -- While the lock is held no call returns.
  pub held_calls :
      (now w r : ℕ) (q : QueueState) (m : Message)
      → q.locked ≡ true
      → (write_queue fl cfg now q w m ≡ err deadlock)
        × (create_queue_reader q ≡ err deadlock)
        × (destroy_queue_reader q r ≡ err deadlock)
        × (create_queue_writer q ≡ err deadlock)
        × (destroy_queue_writer q w ≡ err deadlock)
  unfolding create_queue_writer write_queue create_queue_reader destroy_queue_reader
      destroy_queue_writer
  held_calls now w r q m held =
      (rw held refl, rw held refl, rw held refl, rw held refl, rw held refl)

  pub held_read :
      (now r n : ℕ) (q q' : QueueState) (m : Option Message)
      → q.locked ≡ true
      → read_queue fl cfg now q r ≡ ok (got q' m n)
      → ⊥
  unfolding read_queue
  held_read now r n q q' m held e = elim (Option-cases (get_or q.next_item r none)) [
    | inl gone ↦ ground arith
    | inr (p, at) ↦ ground arith
  ]
