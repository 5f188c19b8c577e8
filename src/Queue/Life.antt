-- ===== src/Queue/Life.antt =====
-- A queue's life: any interleaving of calls by readers and writers, from its creation on. A call is
-- one step, since it holds the lock.
use bgpmon.Base.{
  ℕ, suc, ◌+◌, ◌≤◌, ◌<◌, ◌≡◌, refl, sym, ap, ◌∙◌, subst, Bool, false, List, [], ◌∷◌, Option, zero,
  get_elem?-set_self, none, some, arith, update, get_elem?, length-replicate, Result, ok, err,
  deadlock, ◌>>=◌, true, ◌⊎◌, inl, inr, Bool-cases,
}
use bgpmon.Queue.State.{
  QueueState, QueueConfiguration, FloatOps, Message, max_queue_readers, max_queue_writers,
}
use bgpmon.Queue.Readers.{active-replicate, Within-replicate}
use bgpmon.Queue.Ops.{
  create_queue, create_queue_reader, destroy_queue_reader, create_queue_writer,
  destroy_queue_writer,
}
use bgpmon.Queue.Write.{write_queue, got, read_queue}
use bgpmon.Queue.Inv.{IsValid, IsValid-same}
use bgpmon.Queue.Writers.{
  SameMessages, create_queue_writer-SameMessages, destroy_queue_writer-SameMessages,
}
use bgpmon.Queue.Writing.{write_queue_lem}
use bgpmon.Queue.Reading.{read_queue_lem}
use bgpmon.Queue.Joining.{create_queue_reader_bounded}
use bgpmon.Queue.Called.{
  joined_room, refused_unlocks, refused_locks, got_unread, held_calls, held_read,
}
use bgpmon.Queue.Leaving.{destroy_queue_reader_lem}

-- createQueue gives a valid, unlocked queue, whatever the history.
pub create_queue-IsValid :
    (log : ℕ → Message) (new_pacing : Bool) (now : ℕ)
    → IsValid log (create_queue new_pacing now) × ((create_queue new_pacing now).locked ≡ false)
unfolding create_queue
create_queue-IsValid log new_pacing now = (
  record {
    consistent = record {
      fits = omega arith;
      ordered = omega arith;
      placed = Within-replicate 0 0 max_queue_readers;
      counted = λ k a b. absurd (omega arith);
      wanted = λ k a b. absurd (omega arith);
      stored = λ k a b. absurd (omega arith);
    };
    readers = sym (active-replicate max_queue_readers);
    slots = length-replicate {A = Option ℕ} max_queue_readers none;
    ideal = omega arith;
  },
  refl,
)

ok-injective : {a b : QueueState} → ok a ≡ ok b → a ≡ b
ok-injective e = cc

got-injective :
    {a b : QueueState} {m m' : Option Message} {n n' : ℕ}
    → ok (got a m n) ≡ ok (got b m' n')
    → a ≡ b
got-injective e = cc

pair-injective :
    {a b : QueueState} {x y : Option ℕ}
    → ◌≡◌ {A = Result (QueueState × Option ℕ)} (ok (a, x)) (ok (b, y))
    → a ≡ b
pair-injective e = cc

same_messages :
    (log : ℕ → Message) (q q' : QueueState) → SameMessages q q' → IsValid log q → IsValid log q'
same_messages log q q' s v =
    IsValid-same log q q' s.head s.tail s.items s.next_item s.readercount
      (rw (s.ideal, s.tail) v.ideal) v

module _ (fl : FloatOps) (cfg : QueueConfiguration) where
  -- One call that returns. A read that waits or finds that its slot is free changes nothing. A reader
  -- that leaves is a live one.
  pub data Step (log : ℕ → Message) (q : QueueState) : (ℕ → Message) → QueueState → Type 0 where
    write :
        {q' : QueueState} (now w : ℕ) (m : Message)
        → write_queue fl cfg now q w m ≡ ok q'
        → Step log q (update log q.tail m) q'
    read :
        {q' : QueueState} (now r n : ℕ) (m : Option Message)
        → read_queue fl cfg now q r ≡ ok (got q' m n)
        → Step log q log q'
    join : {q' : QueueState} (r : Option ℕ) → create_queue_reader q ≡ ok (q', r) → Step log q log q'
    leave :
        {q' : QueueState} (r p : ℕ)
        → get_elem? q.next_item r ≡ some (some p)
        → destroy_queue_reader q r ≡ ok q'
        → Step log q log q'
    enlist :
        {q' : QueueState} (w : Option ℕ) → create_queue_writer q ≡ ok (q', w) → Step log q log q'
    retire : {q' : QueueState} (w : ℕ) → destroy_queue_writer q w ≡ ok q' → Step log q log q'

  pub data Reach (log : ℕ → Message) (q : QueueState) : (ℕ → Message) → QueueState → Type 0 where
    here : Reach log q log q
    next :
        {log' log'' : ℕ → Message} {q' q'' : QueueState}
        → Reach log q log' q'
        → Step log' q' log'' q''
        → Reach log q log'' q''

  -- The lock is free, or a full table of writers has left it held.
  abbrev pub IsSound : (ℕ → Message) → QueueState → Type 0
  IsSound log q = IsValid log q × ((q.locked ≡ false) ⊎ (max_queue_writers ≤ q.writercount))

  held_stops :
      {log : ℕ → Message} {q : QueueState} {log' : ℕ → Message} {q' : QueueState}
      → q.locked ≡ true
      → Step log q log' q'
      → ⊥
  held_stops {q = q} held (write now w m e) =
      let h = held_calls fl cfg now w 0 q m held in cc (h.0, e)
  held_stops {q = q} {q' = q'} held (read now r n m e) = held_read fl cfg now r n q q' m held e
  held_stops {q = q} held (join r e) = let h = held_calls fl cfg 0 0 0 q 0 held in cc (h.1, e)
  held_stops {q = q} held (leave r p at e) = let h = held_calls fl cfg 0 0 r q 0 held in cc (h.2, e)
  held_stops {q = q} held (enlist w e) = let h = held_calls fl cfg 0 0 0 q 0 held in cc (h.3, e)
  held_stops {q = q} held (retire w e) = let h = held_calls fl cfg 0 w 0 q 0 held in cc (h.4, e)

  free-Step :
      {log : ℕ → Message} {q : QueueState} {log' : ℕ → Message} {q' : QueueState}
      → 0 < cfg.pacing_interval
      → Step log q log' q'
      → IsValid log q
      → q.locked ≡ false
      → IsSound log' q'
  free-Step {log} {q = q} pos (write now w m e) v free =
      let (q2, e2, v2, free2, _) = write_queue_lem fl cfg now q w m log pos free v in
      subst (IsSound (update log q.tail m)) (ok-injective (sym e2 ∙ e)) (v2, inl free2)
  free-Step {log} {q = q} {q' = q'} pos (read now r n m e) v free =
      let (p, at, lt) = got_unread fl cfg now r n q q' m free e in
      let (q2, e2, v2, one) = read_queue_lem fl cfg now q r p log pos free v at lt in
      subst (IsSound log) (got-injective (sym e2 ∙ e)) (v2, inl (one.2 ∙ free))
  free-Step {log} {q = q} {q' = q'} pos (join (some r) e) v free =
      let (room, small) = joined_room q q' r free e in
      let (q2, r2, p, e2, v2, _, _, _, _, _, free2, _) =
        create_queue_reader_bounded q log free v room small in
      subst (IsSound log) (pair-injective (sym e2 ∙ e)) (v2, inl free2)
  free-Step {log} {q = q} {q' = q'} pos (join none e) v free =
      subst (IsSound log) (refused_unlocks q q' free e) (
        IsValid-same log q (record q { locked = false }) refl refl refl refl refl v.ideal v,
        inl refl,
      )
  free-Step {log} {q = q} pos (leave r p at e) v free =
      let (q2, e2, v2, _, _, free2, _) = destroy_queue_reader_lem log q r p v at free in
      subst (IsSound log) (ok-injective (sym e2 ∙ e)) (v2, inl free2)
  free-Step {log} {q = q} {q' = q'} pos (enlist (some w) e) v free =
      let (s, free2) = create_queue_writer-SameMessages q q' w free e in
      (same_messages log q q' s v, inl free2)
  free-Step {log} {q = q} {q' = q'} pos (enlist none e) v free =
      let (same, full) = refused_locks q q' free e in
      subst (IsSound log) same (
        IsValid-same log q (record q { locked = true }) refl refl refl refl refl v.ideal v,
        inr full,
      )
  free-Step {log} {q = q} {q' = q'} pos (retire w e) v free =
      let (s, free2) = destroy_queue_writer-SameMessages q q' w free e in
      (same_messages log q q' s v, inl free2)

  Step-IsSound :
      {log : ℕ → Message} {q : QueueState} {log' : ℕ → Message} {q' : QueueState}
      → 0 < cfg.pacing_interval
      → Step log q log' q'
      → IsSound log q
      → IsSound log' q'
  Step-IsSound {q = q} pos st (v, lock) = elim (Bool-cases q.locked) [
    | inl held ↦ absurd (held_stops held st)
    | inr free ↦ free-Step pos st v free
  ]

  Reach-IsSound :
      {log : ℕ → Message} {q : QueueState} {log' : ℕ → Message} {q' : QueueState}
      → 0 < cfg.pacing_interval
      → IsSound log q
      → Reach log q log' q'
      → IsSound log' q'
  Reach-IsSound pos s here = s
  Reach-IsSound pos s (next r st) = Step-IsSound pos st (Reach-IsSound pos s r)

  -- With a pacing interval above 0, after any sequence of calls that return since a queue's
  -- creation, the queue is valid against the history of what was written, and its lock is free
  -- unless the table of writers is full. The calls are writes, reads that get a message, readers
  -- that join or are refused, live readers that leave, and writers that enlist, are refused or
  -- retire.
  pub reachable-IsSound :
      (log log' : ℕ → Message) (new_pacing : Bool) (start : ℕ) (q : QueueState)
      → 0 < cfg.pacing_interval
      → Reach log (create_queue new_pacing start) log' q
      → IsValid log' q × ((q.locked ≡ false) ⊎ (max_queue_writers ≤ q.writercount))
  reachable-IsSound log log' new_pacing start q pos r =
      let (v, free) = create_queue-IsValid log new_pacing start in Reach-IsSound pos (v, inl free) r

  -- A client that reads n times in a row.
  pub read_many : ℕ → QueueState → ℕ → ℕ → Result (QueueState × List (Option Message))
  read_many now q r zero = ok (q, [])
  read_many now q r (suc n) = read_queue fl cfg now q r >>= λ x. elim x [
    | got q' m _ ↦ read_many now q' r n >>= λ (q'', ms). ok (q'', m ∷ ms)
    | _ ↦ err deadlock
  ]

  -- The n messages of the history from p on.
  abbrev pub section_of : (ℕ → Message) → ℕ → ℕ → List (Option Message)
  section_of log p zero = []
  section_of log p (suc n) = some (log p) ∷ section_of log (suc p) n

  -- With a pacing interval above 0, a reader at position p that reads n times from an unlocked,
  -- valid queue with that many unread messages gets exactly the n messages of the history from p
  -- on, in order, and the queue stays valid.
  pub read_many_lem :
      (log : ℕ → Message) (now r n p : ℕ) (q : QueueState)
      → 0 < cfg.pacing_interval
      → q.locked ≡ false
      → IsValid log q
      → get_elem? q.next_item r ≡ some (some p)
      → p + n ≤ q.tail
      → (q' : QueueState) × (read_many now q r n ≡ ok (q', section_of log p n)) × IsValid log q'
  unfolding read_many
  read_many_lem log now r zero p q pos free v at h = (q, refl, v)
  read_many_lem log now r (suc n) p q pos free v at h =
      let (q1, e1, v1, one) = read_queue_lem fl cfg now q r p log pos free v at (omega arith) in
      let (q2, e2, v2) =
        read_many_lem log now r n (suc p) q1 pos (one.2 ∙ free) v1
          (ap (λ l. get_elem? l r) one.0 ∙ get_elem?-set_self q.next_item r _ (some p) at)
          (rw one.1 (omega arith)) in
      (q2, rw e1 (rw e2), v2)
