-- ===== src/Queue/Writers.antt =====
-- createQueueWriter and destroyQueueWriter (Queues/queue.c), and the lock that a full table leaves.
use bgpmon.Base.{
  ℕ, zero, suc, ◌+◌, ◌-◌, ◌≤◌, ◌<◌, ◌≡◌, refl, ◌∙◌, Bool, true, false, List, [], ◌∷◌, none, some,
  arith, ltb, if◌then◌else◌, get_elem?, set, length, length-set, Option-cases, inl, inr, subst, ok,
  err, deadlock,
}
use bgpmon.Queue.State.{QueueState, QueueConfiguration, FloatOps, Message, max_queue_writers}
use bgpmon.Queue.Ops.{
  free_writer_slot, create_queue_writer, destroy_queue_writer, create_queue_reader,
  destroy_queue_reader,
}
use bgpmon.Queue.Write.{write_queue}

abbrev pub taken : List Bool → ℕ
taken [] = 0
taken (true ∷ l) = 1 + taken l
taken (false ∷ l) = taken l

-- The writer table: the count is that of the slots in use.
pub record WritersValid (q : QueueState) : Type 0 where
  pub writers : q.writercount ≡ taken q.used
  pub slots : length q.used ≡ max_queue_writers

free_writer_slot_lem :
    (l : List Bool)
    → taken l < length l
    → (i : ℕ) × (free_writer_slot l ≡ some i) × (get_elem? l i ≡ some false)
unfolding free_writer_slot
free_writer_slot_lem [] h = absurd (omega arith)
free_writer_slot_lem (false ∷ l) h = (0, refl, refl)
free_writer_slot_lem (true ∷ l) h =
    let (i, e, at) = free_writer_slot_lem l (omega arith) in (suc i, ground arith, at)

taken-set-true :
    (l : List Bool) (i : ℕ) → get_elem? l i ≡ some false → taken (set l i true) ≡ taken l + 1
taken-set-true [] i e = cc
taken-set-true (false ∷ l) zero e = omega arith
taken-set-true (true ∷ l) zero e = cc
taken-set-true (false ∷ l) (suc i) e = taken-set-true l i e
taken-set-true (true ∷ l) (suc i) e = omega (arith, taken-set-true l i e)

taken-set-false :
    (l : List Bool) (i : ℕ) → get_elem? l i ≡ some true → taken (set l i false) + 1 ≡ taken l
taken-set-false [] i e = cc
taken-set-false (false ∷ l) zero e = cc
taken-set-false (true ∷ l) zero e = omega arith
taken-set-false (false ∷ l) (suc i) e = taken-set-false l i e
taken-set-false (true ∷ l) (suc i) e = omega (arith, taken-set-false l i e)

-- What a change of the writer table leaves alone.
pub record SameMessages (q q' : QueueState) : Type 0 where
  pub head : q'.head ≡ q.head
  pub tail : q'.tail ≡ q.tail
  pub items : q'.items ≡ q.items
  pub next_item : q'.next_item ≡ q.next_item
  pub readercount : q'.readercount ≡ q.readercount
  pub ideal : q'.ideal_reader_position ≡ q.ideal_reader_position

module _ (q : QueueState) (v : WritersValid q) (free : q.locked ≡ false) where
  -- While a slot is left, createQueueWriter on an unlocked queue with a valid writer table
  -- returns a slot that was free, with the table counted right, the messages untouched and the
  -- queue unlocked.
  pub create_queue_writer_lem :
      q.writercount < max_queue_writers
      → (q' : QueueState) × (w : ℕ) × (create_queue_writer q ≡ ok (q', some w))
        × WritersValid q'
        × (get_elem? q.used w ≡ some false)
        × (q'.used ≡ set q.used w true)
        × (q'.locked ≡ false)
        × SameMessages q q'
  unfolding create_queue_writer
  create_queue_writer_lem room =
      let (w, slot, at) = free_writer_slot_lem q.used (omega (arith, v.writers, v.slots)) in
      (
        record q {
          locked = false;
          used = set q.used w true;
          writercount = q.writercount + 1;
          log_max_writers =
              if ltb q.log_max_writers (q.writercount + 1)
              then q.writercount + 1
              else q.log_max_writers;
          write_counts = set q.write_counts w 0;
        },
        w,
        ground arith,
        record {
          writers = omega (arith, v.writers, taken-set-true q.used w at);
          slots = length-set q.used w true ∙ v.slots;
        },
        at,
        refl,
        refl,
        record {
          head = refl;
          tail = refl;
          items = refl;
          next_item = refl;
          readercount = refl;
          ideal = refl;
        },
      )

  -- destroyQueueWriter frees the slot of a live writer of an unlocked queue with a valid writer
  -- table, which stays valid; the messages are untouched and the queue is unlocked.
  pub destroy_queue_writer_lem :
      (w : ℕ)
      → get_elem? q.used w ≡ some true
      → (q' : QueueState) × (destroy_queue_writer q w ≡ ok q')
        × WritersValid q'
        × (q'.used ≡ set q.used w false)
        × (q'.locked ≡ false)
        × SameMessages q q'
  unfolding destroy_queue_writer
  destroy_queue_writer_lem w at = (
    record q {
      locked = false;
      writercount = q.writercount - 1;
      used = set q.used w false;
      write_counts = set q.write_counts w 0;
    },
    ground arith,
    record {
      writers = omega (arith, v.writers, taken-set-false q.used w at);
      slots = length-set q.used w false ∙ v.slots;
    },
    refl,
    refl,
    record {
      head = refl;
      tail = refl;
      items = refl;
      next_item = refl;
      readercount = refl;
      ideal = refl;
    },
  )

subscribed : QueueState → ℕ → QueueState
subscribed q avail = record q {
  locked = false;
  used = set q.used avail true;
  writercount = q.writercount + 1;
  log_max_writers =
      if ltb q.log_max_writers (q.writercount + 1) then q.writercount + 1 else q.log_max_writers;
  write_counts = set q.write_counts avail 0;
}

released : QueueState → ℕ → QueueState
released q w = record q {
  locked = false;
  writercount = q.writercount - 1;
  used = set q.used w false;
  write_counts = set q.write_counts w 0;
}

-- Whoever the writers are, a change of their table leaves the messages alone and the queue unlocked.
pub create_queue_writer-SameMessages :
    (q q' : QueueState) (w : ℕ)
    → q.locked ≡ false
    → create_queue_writer q ≡ ok (q', some w)
    → SameMessages q q' × (q'.locked ≡ false)
unfolding create_queue_writer subscribed
create_queue_writer-SameMessages q q' w free e = elim (Option-cases (free_writer_slot q.used)) [
  | inl n ↦ let never : ⊥ = ground arith in absurd never
  | inr (avail, n) ↦
      let same : subscribed q avail ≡ q' = ground arith in
      subst (λ x. SameMessages q x × (x.locked ≡ false)) same
        (
          record {
            head = refl;
            tail = refl;
            items = refl;
            next_item = refl;
            readercount = refl;
            ideal = refl;
          },
          refl,
        )
]

pub destroy_queue_writer-SameMessages :
    (q q' : QueueState) (w : ℕ)
    → q.locked ≡ false
    → destroy_queue_writer q w ≡ ok q'
    → SameMessages q q' × (q'.locked ≡ false)
unfolding destroy_queue_writer released
destroy_queue_writer-SameMessages q q' w free e =
    let same : released q w ≡ q' = ground arith in
    subst (λ x. SameMessages q x × (x.locked ≡ false)) same
      (
        record {
          head = refl;
          tail = refl;
          items = refl;
          next_item = refl;
          readercount = refl;
          ideal = refl;
        },
        refl,
      )

-- When the writer table of an unlocked queue is full, createQueueWriter returns NULL and keeps the
-- lock: every later write, subscription or departure on this queue waits for ever.
pub create_queue_writer_deadlock :
    (fl : FloatOps) (cfg : QueueConfiguration) (q : QueueState) (now w r : ℕ) (m : Message)
    → q.locked ≡ false
    → max_queue_writers ≤ q.writercount
    → (q' : QueueState) × (create_queue_writer q ≡ ok (q', none))
      × (write_queue fl cfg now q' w m ≡ err deadlock)
      × (create_queue_writer q' ≡ err deadlock)
      × (create_queue_reader q' ≡ err deadlock)
      × (destroy_queue_reader q' r ≡ err deadlock)
      × (destroy_queue_writer q' w ≡ err deadlock)
unfolding create_queue_writer write_queue create_queue_reader destroy_queue_reader
    destroy_queue_writer
create_queue_writer_deadlock fl cfg q now w r m free full =
    (record q { locked = true }, ground arith, refl, refl, refl, refl, refl)
