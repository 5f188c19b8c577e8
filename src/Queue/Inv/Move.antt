-- ===== src/Queue/Inv/Move.antt =====
-- The invariant as slow readers are moved forward (adjustSlowestQueueReader of Queues/queue.c).

use bgpmon.Base.{
  ℕ, zero, suc, ◌-◌, ◌≤◌, ◌<◌, ◌≡◌, refl, sym, ap, ◌∙◌, subst, inl, inr, Option, none, some, arith,
  Bool-cases, if_elim, Option-cases, leb, get_elem?, get_or, set, length-set, get_elem?_of_get_or,
}
use bgpmon.Queue.State.{QueueState, Message}
use bgpmon.Queue.Readers.{active-step}
use bgpmon.Queue.Release.{
  drop_refs, move_reader, move_slot, adjust_slowest_queue_reader, relieve, advance, advance_from,
  destination, is_slowest,
}
use bgpmon.Queue.Inv.{Consistent, IsValid, Consistent-same}
use bgpmon.Queue.Inv.Drop.{drop_refs-SameBut, drop_refs-head, drop_refs-Consistent}

-- What moving readers leaves alone.
pub record Still (q q' : QueueState) : Type 0 where
  pub tail : q'.tail ≡ q.tail
  pub ideal_reader_position : q'.ideal_reader_position ≡ q.ideal_reader_position
  pub new_pacing_enable : q'.new_pacing_enable ≡ q.new_pacing_enable
  pub locked : q'.locked ≡ q.locked
  pub tick : q'.tick ≡ q.tick
  pub readercount : q'.readercount ≡ q.readercount
  pub head : q.head ≤ q'.head

pub Still-refl : (q : QueueState) → Still q q
Still-refl q = record {
  tail = refl;
  ideal_reader_position = refl;
  new_pacing_enable = refl;
  locked = refl;
  tick = refl;
  readercount = refl;
  head = omega arith;
}

pub Still-trans : {p q r : QueueState} → Still p q → Still q r → Still p r
Still-trans s t = record {
  tail = t.tail ∙ s.tail;
  ideal_reader_position = t.ideal_reader_position ∙ s.ideal_reader_position;
  new_pacing_enable = t.new_pacing_enable ∙ s.new_pacing_enable;
  locked = t.locked ∙ s.locked;
  tick = t.tick ∙ s.tick;
  readercount = t.readercount ∙ s.readercount;
  head = omega (arith, s.head, t.head);
}

pub move_reader_idle : (q : QueueState) (r p dest : ℕ) → dest ≤ p → move_reader q r p dest ≡ q
unfolding move_reader
move_reader_idle q r p dest h = ground arith

pub move_reader-Still : (q : QueueState) (r p dest : ℕ) → Still q (move_reader q r p dest)
unfolding move_reader
move_reader-Still q r p dest =
    if_elim (Still q) (leb dest p) (λ _. Still-refl q)
      (λ _.
        let same = drop_refs-SameBut (dest - p) p q in
        record {
          tail = ap (λ x. x.tail) same;
          ideal_reader_position = ap (λ x. x.ideal_reader_position) same;
          new_pacing_enable = ap (λ x. x.new_pacing_enable) same;
          locked = ap (λ x. x.locked) same;
          tick = ap (λ x. x.tick) same;
          readercount = ap (λ x. x.readercount) same;
          head = drop_refs-head (dest - p) p q;
        })

pub move_slot-Still : (q : QueueState) (r dest : ℕ) (o : Option ℕ) → Still q (move_slot q r dest o)
move_slot-Still q r dest none = Still-refl q
move_slot-Still q r dest (some p) = move_reader-Still q r p dest

pub relieve-Still : (q : QueueState) (r : ℕ) → Still q (relieve q r)
unfolding relieve adjust_slowest_queue_reader
relieve-Still q r =
    if_elim (Still q) (is_slowest q.head (get_or q.next_item r none))
      (λ _.
        if_elim (Still q) q.new_pacing_enable (λ _. move_slot-Still q r (suc q.head) _)
          (λ _. move_slot-Still q r (destination q) _))
      (λ _. Still-refl q)

module _ (log : ℕ → Message) (q : QueueState) (r p dest : ℕ) (v : IsValid log q)
    (at : get_elem? q.next_item r ≡ some (some p)) (le : dest ≤ q.tail) where
  dropped : QueueState
  dropped = drop_refs q p (dest - p)

  moved-IsValid :
      p ≤ dest → IsValid log (record dropped { next_item = set q.next_item r (some dest) })
  unfolding dropped
  moved-IsValid h =
      let same = drop_refs-SameBut (dest - p) p q in
      record {
        consistent = Consistent-same log _ dropped _ refl refl refl (
            subst (λ d. Consistent log (set q.next_item r (some d)) dropped) (omega arith)
              (drop_refs-Consistent log (dest - p) p r q.next_item q v.consistent at
                (omega arith)));
        readers =
            ap (λ x. x.readercount) same ∙ v.readers ∙ sym (active-step q.next_item r p dest at);
        slots = length-set q.next_item r (some dest) ∙ v.slots;
        ideal = rw same v.ideal;
      }

  pub move_reader-IsValid : IsValid log (move_reader q r p dest)
  unfolding move_reader dropped
  move_reader-IsValid = elim (Bool-cases (leb dest p)) [
    | inl past ↦ rw past v
    | inr ahead ↦ rw ahead (moved-IsValid (ground arith))
  ]

  pub next_item-move_reader :
      p < dest → (move_reader q r p dest).next_item ≡ set q.next_item r (some dest)
  unfolding move_reader
  next_item-move_reader h = ground arith

module _ (log : ℕ → Message) (q : QueueState) (r : ℕ) (v : IsValid log q) where
  pub move_slot-IsValid :
      (dest : ℕ)
      → dest ≤ q.tail
      → let q' = move_slot q r dest (get_or q.next_item r none) in IsValid log q' × Still q q'
  move_slot-IsValid dest le = elim (Option-cases (get_or q.next_item r none)) [
    | inl e ↦ rw e (v, Still-refl q)
    | inr (p, e) ↦
        let at = get_elem?_of_get_or q.next_item r p e in
        rw e (move_reader-IsValid log q r p dest v at le, move_reader-Still q r p dest)
  ]

  pub destination-le : destination q ≤ q.tail
  destination-le = ground (arith, v.ideal)

  -- adjustSlowestQueueReader keeps the invariant.
  pub adjust_slowest-IsValid :
      IsValid log (adjust_slowest_queue_reader q r) × Still q (adjust_slowest_queue_reader q r)
  unfolding adjust_slowest_queue_reader
  adjust_slowest-IsValid = move_slot-IsValid (destination q) destination-le

  pub advance-IsValid : IsValid log (advance q r) × Still q (advance q r)
  unfolding advance
  advance-IsValid = elim (Bool-cases (is_slowest q.head (get_or q.next_item r none))) [
    | inl here ↦ rw here adjust_slowest-IsValid
    | inr other ↦ rw other (v, Still-refl q)
  ]

pub advance_from-IsValid :
    (log : ℕ → Message) (n r : ℕ) (q : QueueState)
    → IsValid log q
    → IsValid log (advance_from q r n) × Still q (advance_from q r n)
unfolding advance_from
advance_from-IsValid log zero r q v = (v, Still-refl q)
advance_from-IsValid log (suc n) r q v =
    let (v', s) = advance-IsValid log q r v in
    let (v'', s') = advance_from-IsValid log n (suc r) (advance q r) v' in (v'', Still-trans s s')
