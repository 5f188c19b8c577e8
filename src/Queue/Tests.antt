-- ===== src/Queue/Tests.antt =====
-- Concrete queues, and the theorems on them.
use bgpmon.Base.{
  ℕ, zero, suc, ◌+◌, ◌*◌, ◌-◌, ◌/◌, ◌≤◌, ◌<◌, ◌≡◌, refl, sym, ap, Bool, true, false, [], ◌∷◌,
  Option, none, some, arith, pos, if◌then◌else◌, ltb, leb, update, set, get_elem?, length-replicate,
  replicate, ok, err, deadlock, hang, ◌⊎◌,
}
use bgpmon.Queue.State.{
  FloatOps, QueueConfiguration, QueueState, Message, slot, queue_max_items, max_queue_writers,
}
use bgpmon.Queue.Readers.{below, active-replicate, Within-replicate, below-le-active}
use bgpmon.Queue.Pacing.{update_interval}
use bgpmon.Queue.Ops.{
  create_queue, create_queue_reader, create_queue_writer, destroy_queue_reader,
  destroy_queue_writer,
}
use bgpmon.Queue.Write.{make_room, write_queue, read_queue, got}
use bgpmon.Queue.Inv.{IsValid}
use bgpmon.Queue.Inv.Move.{Still}
use bgpmon.Queue.Inv.Relieve.{make_room_lem}
use bgpmon.Queue.Inv.Interval.{Quiet, update_interval_lem}
use bgpmon.Queue.Writing.{write_queue_lem}
use bgpmon.Queue.Reading.{TakesOne, read_queue_lem}
use bgpmon.Queue.Joining.{create_queue_reader_lem}
use bgpmon.Queue.Leaving.{destroy_queue_reader_lem}
use bgpmon.Queue.Writers.{WritersValid, taken, create_queue_writer_deadlock}
use bgpmon.Queue.Life.{
  create_queue-IsValid, join, write, here, next, reachable-IsSound, read_many, read_many_lem,
}
use bgpmon.Queue.Throttle.{write_queue_hang}
use bgpmon.Queue.Query.{
  Queues, get_queue_by_name, get_bytes_used, get_items_used, get_items_total,
  get_reader_unread_items, get_reader_count,
}
use bgpmon.Queue.Report.{get_bytes_used_lem, usage_bounds}

-- Numbers in thousandths.
abbrev floats : FloatOps
floats = record {
  of_int = λ n. n * 1000;
  to_int = λ x. x / 1000;
  add = λ a b. a + b;
  sub = λ a b. a - b;
  mul = λ a b. (a * b) / 1000;
  div = λ a b. (a * 1000) / b;
  lt = ltb;
  ge = λ a b. leb b a;
}

abbrev settings : QueueConfiguration
settings = record {
  pacing_on_thresh = 500;
  pacing_off_thresh = 250;
  alpha = 100;
  min_writes_per_interval = 100;
  pacing_interval = 5;
  log_interval = 600;
}

abbrev no_interval : QueueConfiguration
no_interval = record settings { pacing_interval = 0 }

abbrev history : ℕ → Message
history k = k + 7

abbrev empty : QueueState
empty = create_queue false 0

-- Two items, both unread by the one reader, from one writer.
abbrev busy : QueueState
busy = record {
  locked = false;
  last_log_time = 0;
  log_max_items = 2;
  log_max_readers = 1;
  log_max_writers = 1;
  log_pacing_count = 0;
  last_sent_log_pacing_count = 0;
  head = 0;
  tail = 2;
  items = λ i.
      if leb 2 i
      then record { count = 0; messag_buf = none }
      else record { count = 1; messag_buf = some (i + 7) };
  readercount = 1;
  next_item = some 0 ∷ replicate 9999 none;
  items_read = replicate 10000 0;
  writercount = 1;
  used = true ∷ replicate 1000 false;
  new_pacing_enable = true;
  pacing_flag = true;
  tick = 0;
  read_count = 0;
  write_counts = replicate 1001 2;
  writes_limit = 1;
  writes_ewma = 0;
  write_count = 2;
  ideal_reader_position = 0;
}

one_waits : (k : ℕ) → below (some 0 ∷ replicate 9999 none) k ≡ 1
one_waits k = ground (arith, below-le-active (replicate 9999 none) k, active-replicate 9999)

item_of : (k : ℕ) → k < 2 → busy.items (slot k) ≡ record { count = 1; messag_buf = some (k + 7) }
item_of zero h = refl
item_of (suc zero) h = refl
item_of (suc (suc k)) h = absurd (omega arith)

busy-IsValid : IsValid history busy
busy-IsValid = record {
  consistent = record {
    fits = omega arith;
    ordered = omega arith;
    placed = (omega arith, omega arith, Within-replicate 0 2 9999);
    counted = λ k a b. rw (item_of k b) (sym (one_waits k));
    wanted = λ k a b. omega (arith, one_waits k);
    stored = λ k a b. rw (item_of k b) refl;
  };
  readers = ap (λ n. 1 + n) (sym (active-replicate 9999));
  slots = ap suc (length-replicate {A = Option ℕ} 9999 none);
  ideal = omega arith;
}

-- The same reader in front of an array that is full.
abbrev full : QueueState
full = record busy { tail = 5000; items = λ i. record { count = 1; messag_buf = some (i + 7) } }

slot_small : (k : ℕ) → k < 5000 → slot k ≡ k
slot_small k h = omega arith

full-IsValid : IsValid history full
full-IsValid = record {
  consistent = record {
    fits = omega arith;
    ordered = omega arith;
    placed = (omega arith, omega arith, Within-replicate 0 5000 9999);
    counted = λ k a b. sym (one_waits k);
    wanted = λ k a b. omega (arith, one_waits k);
    stored = λ k a b. ap (λ i. some (i + 7)) (slot_small k b);
  };
  readers = ap (λ n. 1 + n) (sym (active-replicate 9999));
  slots = ap suc (length-replicate {A = Option ℕ} 9999 none);
  ideal = omega arith;
}

all_free : (n : ℕ) → taken (replicate n false) ≡ 0
all_free zero = refl
all_free (suc n) = all_free n

busy-WritersValid : WritersValid busy
busy-WritersValid = record {
  writers = ap (λ n. 1 + n) (sym (all_free 1000));
  slots = ap suc (length-replicate {A = Bool} 1000 false);
}

write_queue_example :
    (q' : QueueState) × (write_queue floats settings 5 full 0 9 ≡ ok q')
    × IsValid (update history 5000 9) q'
    × (q'.locked ≡ false)
    × (q'.tail ≡ 5001)
write_queue_example =
    write_queue_lem floats settings 5 full 0 9 history (omega arith) refl full-IsValid

read_queue_example :
    (q' : QueueState) × (read_queue floats settings 5 busy 0 ≡ ok (got q' (some 7) 1))
    × IsValid history q'
    × TakesOne busy 0 0 q'
read_queue_example =
    read_queue_lem floats settings 5 busy 0 0 history (omega arith) refl busy-IsValid refl
      (omega arith)

-- A reader subscribes to a new queue.
abbrev joined :
    (q' : QueueState) × (r : ℕ) × (create_queue_reader empty ≡ ok (q', some r))
    × IsValid history q'
    × (q'.locked ≡ false)
unfolding create_queue
joined =
    let (q', r, p, e, v, _, _, _, _, _, free, _) =
      create_queue_reader_lem empty history (create_queue-IsValid history false 0).1
        (create_queue-IsValid history false 0).0 (omega arith) (omega arith) in
    (q', r, e, v, free)

-- The first write after that.
abbrev written : (q' : QueueState) × (write_queue floats settings 5 joined.0 0 9 ≡ ok q')
unfolding create_queue
written =
    let (q', e, _, _, _) =
      write_queue_lem floats settings 5 joined.0 0 9 history (omega arith) joined.4 joined.3 in
    (q', e)

reachable_example :
    IsValid (update history joined.0.tail 9) written.0
    × ((written.0.locked ≡ false) ⊎ (max_queue_writers ≤ written.0.writercount))
unfolding create_queue
reachable_example =
    reachable-IsSound floats settings history (update history joined.0.tail 9) false 0 written.0
      (omega arith) (next (next here (join (some joined.1) joined.2)) (write 5 0 9 written.1))

read_many_example :
    (q' : QueueState) × (read_many floats settings 5 busy 0 2 ≡ ok (q', some 7 ∷ some 8 ∷ []))
    × IsValid history q'
read_many_example =
    read_many_lem floats settings history 5 0 2 0 busy (omega arith) refl busy-IsValid refl
      (omega arith)

create_queue_reader_example :
    (q' : QueueState) × (r : ℕ) × (p : ℕ) × (create_queue_reader busy ≡ ok (q', some r))
    × IsValid history q'
    × (get_elem? busy.next_item r ≡ some none)
    × (q'.next_item ≡ set busy.next_item r (some p))
    × (0 ≤ p)
    × (p ≤ 2)
    × (q'.readercount ≡ 2)
    × (q'.locked ≡ false)
    × (q'.tail ≡ 2)
create_queue_reader_example =
    create_queue_reader_lem busy history refl busy-IsValid (omega arith) (omega arith)

destroy_queue_reader_example :
    (q' : QueueState) × (destroy_queue_reader busy 0 ≡ ok q')
    × IsValid history q'
    × (q'.next_item ≡ none ∷ replicate 9999 none)
    × (q'.readercount + 1 ≡ 1)
    × (q'.locked ≡ false)
    × (q'.tail ≡ 2)
destroy_queue_reader_example = destroy_queue_reader_lem history busy 0 0 busy-IsValid refl refl

make_room_example :
    (q' : QueueState) × (make_room full ≡ ok q')
    × IsValid history q'
    × Still full q'
    × (q'.tail < q'.head + queue_max_items)
make_room_example = make_room_lem history full full-IsValid

update_interval_example :
    (q' : QueueState) × (update_interval floats settings 12 busy ≡ ok q')
    × IsValid history q'
    × Quiet busy q'
    × (12 < q'.tick + 5)
update_interval_example =
    update_interval_lem floats settings history 12 busy (omega arith) busy-IsValid

abbrev crowded : QueueState
crowded = record busy { writercount = 1001; used = replicate 1001 true }

deadlock_example :
    (q' : QueueState) × (create_queue_writer crowded ≡ ok (q', none))
    × (write_queue floats settings 5 q' 0 9 ≡ err deadlock)
    × (create_queue_writer q' ≡ err deadlock)
    × (create_queue_reader q' ≡ err deadlock)
    × (destroy_queue_reader q' 0 ≡ err deadlock)
    × (destroy_queue_writer q' 0 ≡ err deadlock)
deadlock_example = create_queue_writer_deadlock floats settings crowded 5 0 0 9 refl (omega arith)

hang_example : write_queue floats no_interval 5 busy 0 9 ≡ err hang
hang_example =
    write_queue_hang floats no_interval 5 busy 0 9 history refl (omega arith) refl busy-IsValid

abbrev queues : Queues
queues = record {
  peer_queue = some busy;
  labeled_queue = none;
  xml_u_queue = none;
  xml_r_queue = none;
}

peer_known : get_queue_by_name queues "PeerQueue" ≡ some busy
unfolding get_queue_by_name
peer_known = refl

bytes_example : get_bytes_used (λ m. m * 10) queues "PeerQueue" ≡ ok (pos 166)
bytes_example =
    get_bytes_used_lem history queues "PeerQueue" busy busy-IsValid peer_known (λ m. m * 10) refl

usage_example :
    (get_items_used queues "PeerQueue" ≤ get_items_total queues "PeerQueue")
    × (get_reader_unread_items queues "PeerQueue" 0 ≤ get_items_used queues "PeerQueue")
    × (get_reader_unread_items queues "PeerQueue" 0 + 0 ≡ 2)
    × (get_reader_count queues "PeerQueue" ≤ 10000)
usage_example = usage_bounds history queues "PeerQueue" busy busy-IsValid peer_known 0 0 refl
