-- ===== src/Queue/Joining.antt =====
-- createQueueReader (Queues/queue.c): a new reader starts at the average position of the others.
use native.Mathlib.Decide.{ℕ_discrete, dec_lt}
use native.Mathlib.Nat.{sub_self}
use bgpmon.Base.{
  ℕ, zero, suc, ◌+◌, ◌-◌, ◌*◌, ◌/◌, ◌^◌, ◌≤◌, ◌<◌, ◌≡◌, refl, sym, ap, ◌∙◌, subst, true, false,
  List, [], ◌∷◌, Option, none, some, arith, ltb, leb, if◌then◌else◌, get_elem?, set, length,
  length-set, ok,
}
use bgpmon.Queue.State.{
  QueueEntry, QueueState, Message, slot, queue_max_items, max_queue_readers, unlock,
}
use bgpmon.Queue.Readers.{below, active, Within, Within-set, below-join, active-join}
use bgpmon.Queue.Ops.{free_reader_slot, sum_positions, add_refs, join_at, create_queue_reader}
use bgpmon.Queue.Inv.{Consistent, IsValid, IsValid-same, slot-ne}

-- The search for a free slot stays in the array while a reader fits.
free_reader_slot_lem :
    (l : List (Option ℕ))
    → active l < length l
    → (i : ℕ) × (free_reader_slot l ≡ some i) × (get_elem? l i ≡ some none)
unfolding free_reader_slot
free_reader_slot_lem [] h = absurd (omega arith)
free_reader_slot_lem (none ∷ l) h = (0, refl, refl)
free_reader_slot_lem (some p ∷ l) h =
    let (i, e, at) = free_reader_slot_lem l (omega arith) in (suc i, ground arith, at)

-- So does the sum of the readers' positions, which lies between the least and the greatest of them.
sum_positions_lem :
    (h t n tmp : ℕ) (l : List (Option ℕ))
    → n ≡ active l
    → Within h t l
    → (s : ℕ) × (sum_positions l n tmp ≡ some (tmp + s)) × (n * h ≤ s) × (s ≤ n * t)
unfolding sum_positions
sum_positions_lem h t zero tmp l e w = (0, ap some (omega arith), omega arith, omega arith)
sum_positions_lem h t (suc n) tmp [] e w = absurd (omega arith)
sum_positions_lem h t (suc n) tmp (none ∷ l) e w = sum_positions_lem h t (suc n) tmp l e w
sum_positions_lem h t (suc n) tmp (some p ∷ l) e w =
    let (s, q, lo, hi) = sum_positions_lem h t n (tmp + p) l (omega arith) w.2 in
    (p + s, q ∙ ap some (omega arith), omega arith, omega arith)

average_bounds : (h t n s : ℕ) → 0 < n → n * h ≤ s → s ≤ n * t → (h ≤ s / n) × (s / n ≤ t)
average_bounds h t n s pos lo hi = (grind arith, grind arith)

add_refs-messag_buf :
    (n i : ℕ) (items : ℕ → QueueEntry) (j : ℕ)
    → (add_refs items i n j).messag_buf ≡ (items j).messag_buf
unfolding add_refs
add_refs-messag_buf zero i items j = refl
add_refs-messag_buf (suc n) i items j = add_refs-messag_buf n (suc i) _ j ∙ ground arith

module _ (h t : ℕ) (fits : t ≤ h + queue_max_items) where
  add_refs-count :
      (n i k : ℕ) (items : ℕ → QueueEntry)
      → i + n ≡ t
      → h ≤ i
      → h ≤ k
      → k < t
      → (add_refs items i n (slot k)).count ≡ (if leb i k then 1 else 0) + (items (slot k)).count
  unfolding add_refs
  add_refs-count zero i k items e a b c = ground arith
  add_refs-count (suc n) i k items e a b c = elim (ℕ_discrete k i) [
    | yes same ↦
        add_refs-count n (suc i) k _ (omega arith) (omega arith) b c ∙ rw same (ground arith)
    | no other ↦
        add_refs-count n (suc i) k _ (omega arith) (omega arith) b c
        ∙ ground (arith, slot-ne h t i k fits a (omega arith) b c (λ q. other (sym q)))
  ]

module _ (log : ℕ → Message) (q : QueueState) (r p : ℕ) (v : IsValid log q)
    (free : get_elem? q.next_item r ≡ some none) (lo : q.head ≤ p) (hi : p ≤ q.tail) where
  joined : List (Option ℕ)
  joined = set q.next_item r (some p)

  counted : ℕ → QueueEntry
  counted = add_refs q.items p (q.tail - p)

  c : Consistent log q.next_item q
  c = v.consistent

  below-joined : (k : ℕ) → below joined k ≡ (if leb p k then 1 else 0) + below q.next_item k
  unfolding joined
  below-joined k = below-join q.next_item r p k free

  -- The items from p on have one reader more.
  joined-Consistent :
      (q' : QueueState)
      → q'.head ≡ q.head
      → q'.tail ≡ q.tail
      → q'.items ≡ counted
      → Consistent log joined q'
  unfolding counted joined
  joined-Consistent q' eh et ei = record {
    fits = rw (eh, et) c.fits;
    ordered = rw (eh, et) c.ordered;
    placed = rw (eh, et) (Within-set q.head q.tail q.next_item r p c.placed lo hi);
    counted = λ k a b.
        let le : q.head ≤ k = omega arith in
        let lt : k < q.tail = omega arith in
        rw ei (
          add_refs-count q.head q.tail c.fits (q.tail - p) p k q.items (omega arith) lo le lt
          ∙ ap (λ n. (if leb p k then 1 else 0) + n) (c.counted k le lt)
          ∙ sym (below-joined k));
    wanted = λ k a b. omega (arith, below-joined k, c.wanted k (omega arith) (omega arith));
    stored = λ k a b. rw ei (
        add_refs-messag_buf (q.tail - p) p q.items (slot k)
        ∙ c.stored k (omega arith) (omega arith));
  }

-- The position and the items that the new reader gets.
abbrev JoinsAt : QueueState → ℕ → ℕ → QueueState → Type 0
JoinsAt q r p q' =
    (q'.next_item ≡ set q.next_item r (some p))
    × (q'.items ≡ add_refs q.items p (q.tail - p))
    × (q'.head ≡ q.head)
    × (q'.tail ≡ q.tail)
    × (q'.readercount ≡ q.readercount)
    × (q'.ideal_reader_position ≡ q.ideal_reader_position)

join_at_average :
    (q : QueueState) (r s : ℕ)
    → 0 < q.readercount
    → q.tail < 2 ^ 31
    → sum_positions q.next_item q.readercount 0 ≡ some s
    → (q' : QueueState) × (join_at q r ≡ ok q') × JoinsAt q r (s / q.readercount) q'
unfolding join_at
join_at_average q r s pos small e = (
  record q {
    next_item = set q.next_item r (some (s / q.readercount));
    items = add_refs q.items (s / q.readercount) (q.tail - s / q.readercount);
  },
  ground arith,
  (refl, refl, refl, refl, refl, refl),
)

join_at_first :
    (q : QueueState) (r : ℕ)
    → q.readercount ≡ 0
    → (q' : QueueState) × (join_at q r ≡ ok q') × JoinsAt q r q.tail q'
unfolding add_refs join_at
join_at_first q r e = (
  record q { next_item = set q.next_item r (some q.tail) },
  ground arith,
  (refl, rw sub_self, refl, refl, refl, refl),
)

join_at_lem :
    (log : ℕ → Message) (q : QueueState) (r : ℕ)
    → IsValid log q
    → (0 < q.readercount → q.tail < 2 ^ 31)
    → (q' : QueueState) × (p : ℕ) × (join_at q r ≡ ok q')
      × JoinsAt q r p q'
      × (q.head ≤ p)
      × (p ≤ q.tail)
join_at_lem log q r v small = elim (dec_lt 0 q.readercount) [
  | no none_yet ↦
      let (q', e, j) = join_at_first q r (omega arith) in
      (q', q.tail, e, j, v.consistent.ordered, omega arith)
  | yes pos ↦
      let (s, e, lo, hi) =
        sum_positions_lem q.head q.tail q.readercount 0 q.next_item v.readers v.consistent.placed in
      let (q', e', j) = join_at_average q r s pos (small pos) (e ∙ ap some (omega arith)) in
      let bounds = average_bounds q.head q.tail q.readercount s pos lo hi in
      (q', s / q.readercount, e', j, bounds.0, bounds.1)
]

-- The bookkeeping after the join.
abbrev pub enrolled : QueueState → ℕ → QueueState
enrolled q r = unlock (record q {
  items_read = set q.items_read r 0;
  readercount = q.readercount + 1;
  log_max_readers =
      if ltb q.log_max_readers (q.readercount + 1) then q.readercount + 1 else q.log_max_readers;
})

module _ (q : QueueState) where
  held : QueueState
  held = record q { locked = true }

  create_steps :
      (r : ℕ) (q' : QueueState)
      → q.locked ≡ false
      → q.readercount < max_queue_readers
      → free_reader_slot q.next_item ≡ some r
      → join_at held r ≡ ok q'
      → create_queue_reader q ≡ ok (enrolled q' r, some r)
  unfolding create_queue_reader held
  create_steps r q' free room slot e = ground arith

  -- The same where the tail matters only if there are readers.
  pub create_queue_reader_bounded :
      (log : ℕ → Message)
      → q.locked ≡ false
      → IsValid log q
      → q.readercount < max_queue_readers
      → (0 < q.readercount → q.tail < 2 ^ 31)
      → (q' : QueueState) × (r : ℕ) × (p : ℕ) × (create_queue_reader q ≡ ok (q', some r))
        × IsValid log q'
        × (get_elem? q.next_item r ≡ some none)
        × (q'.next_item ≡ set q.next_item r (some p))
        × (q.head ≤ p)
        × (p ≤ q.tail)
        × (q'.readercount ≡ q.readercount + 1)
        × (q'.locked ≡ false)
        × (q'.tail ≡ q.tail)
  unfolding held counted joined add_refs
  create_queue_reader_bounded log free v room small =
      let v0 = IsValid-same log q held refl refl refl refl refl v.ideal v in
      let (r, slot_r, at) = free_reader_slot_lem q.next_item (omega (arith, v.readers, v.slots)) in
      let (q1, p, e, (n, i, h, t, c, d), lo, hi) = join_at_lem log held r v0 small in
      (
        enrolled q1 r,
        r,
        p,
        create_steps r q1 free room slot_r e,
        record {
          consistent =
              subst (λ l. Consistent log l (enrolled q1 r)) (sym n)
                (joined-Consistent log held r p v0 at lo hi (enrolled q1 r) h t i);
          readers =
              ap (λ k. k + 1) (c ∙ v.readers)
              ∙ sym (active-join q.next_item r p at)
              ∙ ap active (sym n);
          slots = ap length n ∙ length-set q.next_item r (some p) ∙ v.slots;
          ideal = rw (d, t) v.ideal;
        },
        at,
        n,
        lo,
        hi,
        ap (λ k. k + 1) c,
        refl,
        t,
      )

  -- While a slot is left and the tail is below 2 ^ 31, createQueueReader on an unlocked, valid
  -- queue returns a reader whose slot was free and whose position lies between the head and the
  -- tail; the queue stays valid, with one reader more, the same tail, and unlocked.
  pub create_queue_reader_lem :
      (log : ℕ → Message)
      → q.locked ≡ false
      → IsValid log q
      → q.readercount < max_queue_readers
      → q.tail < 2 ^ 31
      → (q' : QueueState) × (r : ℕ) × (p : ℕ) × (create_queue_reader q ≡ ok (q', some r))
        × IsValid log q'
        × (get_elem? q.next_item r ≡ some none)
        × (q'.next_item ≡ set q.next_item r (some p))
        × (q.head ≤ p)
        × (p ≤ q.tail)
        × (q'.readercount ≡ q.readercount + 1)
        × (q'.locked ≡ false)
        × (q'.tail ≡ q.tail)
  create_queue_reader_lem log free v room small =
      create_queue_reader_bounded log free v room (λ _. small)
