-- ===== src/Queue/Reading.antt =====
-- readQueue as a whole (Queues/queue.c).
use mathlib.Core.Path.{ap₂}
use bgpmon.Base.{
  ℕ, suc, ◌+◌, ◌-◌, ◌<◌, ◌≡◌, refl, sym, ap, ◌∙◌, true, false, none, some, arith, if_elim,
  if◌then◌else◌, get_elem?, get_or, set, length-set, get_or_of_get_elem?, ok,
}
use bgpmon.Queue.State.{QueueState, QueueConfiguration, FloatOps, Message, slot, unlock}
use bgpmon.Queue.Readers.{active-step, Within-get}
use bgpmon.Queue.Pacing.{update_interval, check_pacing_stop}
use bgpmon.Queue.Release.{drop_ref}
use bgpmon.Queue.Write.{got, take_item, read_at, read_queue}
use bgpmon.Queue.Inv.{IsValid, IsValid-same, Consistent-same}
use bgpmon.Queue.Inv.Drop.{drop_ref-Consistent, drop_ref-SameBut}
use bgpmon.Queue.Inv.Move.{Still, Still-refl}
use bgpmon.Queue.Inv.Interval.{check_pacing_stop-Quiet, update_interval_lem}
use bgpmon.Queue.Writing.{check_pacing_stop-Still}

take_item-IsValid :
    (log : ℕ → Message) (q : QueueState) (r p : ℕ)
    → IsValid log q
    → get_elem? q.next_item r ≡ some (some p)
    → p < q.tail
    → IsValid log (take_item q r p)
unfolding take_item
take_item-IsValid log q r p v at lt =
    let same = drop_ref-SameBut q p in
    record {
      consistent =
          Consistent-same log _ (drop_ref q p) _ refl refl refl
            (drop_ref-Consistent log q.next_item r p q v.consistent at lt);
      readers =
          ap (λ x. x.readercount) same ∙ v.readers ∙ sym (active-step q.next_item r p (suc p) at);
      slots = length-set q.next_item r (some (suc p)) ∙ v.slots;
      ideal = rw same v.ideal;
    }

-- What a read changes beside the items: the reader's position and the number of its reads.
abbrev pub TakesOne : QueueState → ℕ → ℕ → QueueState → Type 0
TakesOne q r p q' =
    (q'.next_item ≡ set q.next_item r (some (suc p)))
    × (q'.tail ≡ q.tail)
    × (q'.locked ≡ q.locked)
    × (q'.readercount ≡ q.readercount)

take_item-TakesOne : (q : QueueState) (r p : ℕ) → TakesOne q r p (take_item q r p)
unfolding take_item drop_ref
take_item-TakesOne q r p = ground arith

module _ (fl : FloatOps) (cfg : QueueConfiguration) where
  abbrev counted : QueueState → QueueState
  counted q = record q { read_count = q.read_count + 1 }

  abbrev paced : QueueState → QueueState
  paced q = if q.new_pacing_enable then q else check_pacing_stop fl cfg q

  paced-IsValid :
      (log : ℕ → Message) (q : QueueState)
      → IsValid log q
      → IsValid log (paced q) × Still q (paced q) × ((paced q).next_item ≡ q.next_item)
  unfolding check_pacing_stop
  paced-IsValid log q v =
      if_elim Kept q.new_pacing_enable (λ _. (v, Still-refl q, refl))
        (λ _.
          let (v', s) = check_pacing_stop-Still fl cfg log q v in
          (v', s, (check_pacing_stop-Quiet fl cfg q).next_item))
    where
      Kept : QueueState → Type 0
      Kept q' = IsValid log q' × Still q q' × (q'.next_item ≡ q.next_item)

  module _ (now : ℕ) (q : QueueState) (r p : ℕ) where
    held : QueueState
    held = record q { locked = true }

    read_steps :
        (q1 : QueueState)
        → get_or q.next_item r none ≡ some p
        → q.locked ≡ false
        → p < q.tail
        → update_interval fl cfg now (take_item held r p) ≡ ok q1
        → read_queue fl cfg now q r
          ≡ ok (
              got
                (unlock (paced (counted q1)))
                (q.items (slot p)).messag_buf
                ((paced (counted q1)).tail - suc p))
    unfolding read_queue read_at held
    read_steps q1 here free lt e = ground arith

    -- With a pacing interval above 0, readQueue on an unlocked, valid queue hands a reader with
    -- unread messages the message of the history at its position, moves it on by one and
    -- returns how many it has yet to read; the queue stays valid.
    pub read_queue_lem :
        (log : ℕ → Message)
        → 0 < cfg.pacing_interval
        → q.locked ≡ false
        → IsValid log q
        → get_elem? q.next_item r ≡ some (some p)
        → p < q.tail
        → (q' : QueueState) × (read_queue fl cfg now q r
            ≡ ok (got q' (some (log p)) (q.tail - suc p)))
          × IsValid log q'
          × TakesOne q r p q'
    unfolding held
    read_queue_lem log pos free v at lt =
        let v0 = IsValid-same log q held refl refl refl refl refl v.ideal v in
        let (q1, e, v1, s1, _) =
          update_interval_lem fl cfg log now (take_item held r p) pos
            (take_item-IsValid log held r p v0 at lt) in
        let one = take_item-TakesOne held r p in
        let (v2, s2, n2) =
          paced-IsValid log (counted q1)
            (IsValid-same log q1 (counted q1) refl refl refl refl refl v1.ideal v1) in
        let q2 = paced (counted q1) in
        let tail : q2.tail ≡ q.tail = s2.tail ∙ s1.tail ∙ one.1 in
        let range = Within-get q.head q.tail q.next_item r p v.consistent.placed at in
        (
          unlock q2,
          read_steps q1 (get_or_of_get_elem? q.next_item r (some p) none at) free lt e
              ∙ ap₂ (λ m n. ok (got (unlock q2) m (n - suc p))) (v.consistent.stored p range.0 lt)
                  tail,
          IsValid-same log q2 (unlock q2) refl refl refl refl refl v2.ideal v2,
          (n2 ∙ s1.next_item ∙ one.0, tail, sym free, s2.readercount ∙ s1.readercount ∙ one.3),
        )
