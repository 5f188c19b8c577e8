-- ===== src/Queue/Leaving.antt =====
-- destroyQueueReader (Queues/queue.c): a reader leaves and gives up what it has not read.
use bgpmon.Base.{
  ℕ, ◌+◌, ◌-◌, ◌≤◌, ◌≡◌, refl, sym, ap, ◌∙◌, subst, true, false, List, Option, none, some, arith,
  get_elem?, set, length-set, set-set, get_or_of_get_elem?, get_elem?-set_self, ok,
}
use bgpmon.Queue.State.{QueueState, Message, unlock}
use bgpmon.Queue.Readers.{Within-get, Within-set-none, below-leave, active-leave}
use bgpmon.Queue.Release.{drop_refs}
use bgpmon.Queue.Ops.{destroy_queue_reader}
use bgpmon.Queue.Inv.{Consistent, IsValid, IsValid-same, Consistent-same}
use bgpmon.Queue.Inv.Drop.{drop_refs-Consistent, drop_refs-SameBut}

-- A reader at the tail can go: no item counts it.
leave-Consistent :
    (log : ℕ → Message) (l : List (Option ℕ)) (r : ℕ) (q : QueueState)
    → Consistent log l q
    → get_elem? l r ≡ some (some q.tail)
    → Consistent log (set l r none) q
leave-Consistent log l r q c at = record {
  fits = c.fits;
  ordered = c.ordered;
  placed = Within-set-none q.head q.tail l r c.placed;
  counted = λ k a b. c.counted k a b ∙ sym (below-leave l r q.tail k at b);
  wanted = λ k a b. rw (below-leave l r q.tail k at b) (c.wanted k a b);
  stored = c.stored;
}

module _ (log : ℕ → Message) (q : QueueState) (r p : ℕ) (v : IsValid log q)
    (at : get_elem? q.next_item r ≡ some (some p)) where
  held : QueueState
  held = record q { locked = true }

  dropped : QueueState
  unfolding held
  dropped = drop_refs held p (q.tail - p)

  at_tail : List (Option ℕ)
  at_tail = set q.next_item r (some q.tail)

  same : dropped ≡ record held { head = dropped.head; items = dropped.items }
  unfolding dropped
  same = drop_refs-SameBut (q.tail - p) p held

  p-le : p ≤ q.tail
  p-le = (Within-get q.head q.tail q.next_item r p v.consistent.placed at).1

  dropped-Consistent : Consistent log (set q.next_item r none) dropped
  unfolding dropped at_tail held
  dropped-Consistent =
      let c =
        drop_refs-Consistent log (q.tail - p) p r q.next_item held
          (IsValid-same log q held refl refl refl refl refl v.ideal v).consistent at
          (omega (arith, p-le)) in
      let c' =
        subst (λ t. Consistent log (set q.next_item r (some t)) dropped) (omega (arith, p-le)) c in
      subst (λ l. Consistent log l dropped) (set-set q.next_item r (some q.tail) none)
        (leave-Consistent log at_tail r dropped c' (
          get_elem?-set_self q.next_item r _ (some p) at
          ∙ ap (λ t. some (some t)) (sym (ap (λ x. x.tail) same))))

  destroy_steps :
      q.locked ≡ false
      → destroy_queue_reader q r
        ≡ ok (
            unlock (record dropped {
              readercount = q.readercount - 1;
              next_item = set q.next_item r none;
              items_read = set q.items_read r 0;
            }))
  unfolding destroy_queue_reader dropped held
  destroy_steps free = let here = get_or_of_get_elem? q.next_item r (some p) none at in ground arith

  -- destroyQueueReader on a live reader of an unlocked, valid queue returns with its slot free,
  -- one reader less and the same tail, and the queue stays valid and unlocked.
  pub destroy_queue_reader_lem :
      q.locked ≡ false
      → (q' : QueueState) × (destroy_queue_reader q r ≡ ok q')
        × IsValid log q'
        × (q'.next_item ≡ set q.next_item r none)
        × (q'.readercount + 1 ≡ q.readercount)
        × (q'.locked ≡ false)
        × (q'.tail ≡ q.tail)
  unfolding held
  destroy_queue_reader_lem free =
      let gone = active-leave q.next_item r p at in
      (
        _,
        destroy_steps free,
        record {
          consistent = Consistent-same log _ dropped _ refl refl refl dropped-Consistent;
          readers = omega (arith, gone, v.readers);
          slots = length-set q.next_item r none ∙ v.slots;
          ideal = rw same v.ideal;
        },
        refl,
        omega (arith, gone, v.readers),
        refl,
        ap (λ x. x.tail) same,
      )
