-- ===== src/Queue/Inv/Relieve.antt =====
-- The loop of writeQueue over a full queue (Queues/queue.c).
use native.Mathlib.Decide.{dec_lt, ℕ_discrete}
use native.Mathlib.Nat.{add-zero}
use mathlib.Core.Bool.{false≢true}
use bgpmon.Base.{
  ℕ, zero, suc, ◌+◌, ◌≤◌, ◌<◌, ◌≡◌, refl, sym, ap, ◌∙◌, subst, ◌≢◌, ◌⊎◌, inl, inr, true, false,
  Option, none, some, arith, Bool-cases, get_elem?, get_or, set, get_elem?_of_get_or,
  get_or_of_get_elem?, get_elem?-set_self, get_elem?-set_ne, if_elim, ok,
}
use bgpmon.Queue.State.{QueueState, Message, queue_max_items, max_queue_readers}
use bgpmon.Queue.Readers.{Within-get, below_witness}
use bgpmon.Queue.Release.{
  move_reader, move_slot, adjust_slowest_queue_reader, relieve, relieve_from, destination,
  is_slowest,
}
use bgpmon.Queue.Write.{is_full, make_room}
use bgpmon.Queue.Inv.{IsValid}
use bgpmon.Queue.Inv.Move.{
  Still, Still-refl, Still-trans, move_reader-IsValid, move_reader-Still, next_item-move_reader,
  move_reader_idle, relieve-Still, destination-le,
}

same_position : (a b : ℕ) → some (some a) ≡ some (some b) → a ≡ b
same_position a b e = ground arith

-- What holds before reader r is looked at, h being the head at the start of the loop.
record Progress (log : ℕ → Message) (h r : ℕ) (q : QueueState) : Type 0 where
  valid : IsValid log q
  far : suc h < q.tail
  from : h ≤ q.head
  -- One position at a time, the head gets no further than the first reader that was moved.
  ahead :
      q.new_pacing_enable ≡ true
      → (q.head ≡ h)
        ⊎ ((j : ℕ) × (p : ℕ) × (j < r) × (get_elem? q.next_item j ≡ some (some p)) × (p ≤ suc h))
  cleared : q.head ≡ h → (j : ℕ) → j < r → get_elem? q.next_item j ≢ some (some h)

module _ (log : ℕ → Message) (h r : ℕ) (q : QueueState) (g : Progress log h r q) where
  head-le : q.new_pacing_enable ≡ true → q.head ≤ suc h
  head-le new = elim (g.ahead new) [
    | inl e ↦ omega arith
    | inr (j, p, _, at, le) ↦
        omega (arith, Within-get q.head q.tail q.next_item j p g.valid.consistent.placed at)
  ]

  widen :
      (q.head ≡ h)
        ⊎ ((j : ℕ) × (p : ℕ) × (j < r) × (get_elem? q.next_item j ≡ some (some p)) × (p ≤ suc h))
      → (q.head ≡ h)
        ⊎ ((j : ℕ) × (p : ℕ) × (j < suc r)
            × (get_elem? q.next_item j ≡ some (some p))
            × (p ≤ suc h))
  widen (inl e) = inl e
  widen (inr (j, p, lt, at, le)) = inr (j, p, omega arith, at, le)

  stay : (q.head ≡ h → get_elem? q.next_item r ≢ some (some h)) → Progress log h (suc r) q
  stay clear = record {
    valid = g.valid;
    far = g.far;
    from = g.from;
    ahead = λ new. widen (g.ahead new);
    cleared = λ e j lt. elim (ℕ_discrete j r) [
      | yes same ↦ rw same (clear e)
      | no other ↦ g.cleared e j (omega arith)
    ];
  }

  module _ (p dest : ℕ) (at : get_elem? q.next_item r ≡ some (some p)) (top : p ≡ q.head)
      (up : p < dest) (le : dest ≤ q.tail) (one : q.new_pacing_enable ≡ true → dest ≡ suc p) where
    q' : QueueState
    q' = move_reader q r p dest

    still : Still q q'
    unfolding q'
    still = move_reader-Still q r p dest

    next : q'.next_item ≡ set q.next_item r (some dest)
    unfolding q'
    next = next_item-move_reader log q r p dest g.valid at le up

    at_r : get_elem? q'.next_item r ≡ some (some dest)
    at_r = rw next (get_elem?-set_self q.next_item r (some dest) (some p) at)

    at_other : (j : ℕ) → j < r → get_elem? q'.next_item j ≡ get_elem? q.next_item j
    at_other j lt = rw next (get_elem?-set_ne q.next_item r j (some dest) (omega arith))

    moved_ahead :
        (q.head ≡ h)
          ⊎ ((j : ℕ) × (p : ℕ) × (j < r) × (get_elem? q.next_item j ≡ some (some p)) × (p ≤ suc h))
        → dest ≡ suc p
        → (q'.head ≡ h)
          ⊎ ((j : ℕ) × (p : ℕ) × (j < suc r)
              × (get_elem? q'.next_item j ≡ some (some p))
              × (p ≤ suc h))
    moved_ahead (inl e) d = inr (r, dest, omega arith, at_r, omega arith)
    moved_ahead (inr (j, x, lt, get, low)) d = inr (j, x, omega arith, at_other j lt ∙ get, low)

    moved-Progress : Progress log h (suc r) (move_reader q r p dest)
    unfolding q'
    moved-Progress = record {
      valid = move_reader-IsValid log q r p dest g.valid at le;
      far = omega (arith, still, g.far);
      from = omega (arith, still, g.from);
      ahead = λ new.
          let new' = sym still.new_pacing_enable ∙ new in moved_ahead (g.ahead new') (one new');
      cleared = λ e j lt. elim (ℕ_discrete j r) [
        | yes same ↦
            rw same (λ get. omega (arith, same_position dest h (sym at_r ∙ get), g.from, top, up))
        | no other ↦
            rw (at_other j (omega arith)) (g.cleared (omega (arith, still, g.from)) j (omega arith))
      ];
    }

  slowest_at : (o : Option ℕ) → is_slowest q.head o ≡ true → o ≡ some q.head
  slowest_at none e = cc
  slowest_at (some p) e = ground arith

  not_slowest :
      is_slowest q.head (get_or q.next_item r none) ≡ false
      → q.head ≡ h
      → get_elem? q.next_item r ≢ some (some h)
  not_slowest e eh get =
      let here = get_or_of_get_elem? q.next_item r (some h) none get in
      false≢true (sym e ∙ rw here (ground arith))

  -- A slowest reader moves past the head, unless the queue is empty.
  slowest_moves :
      (dest : ℕ)
      → get_or q.next_item r none ≡ some q.head
      → dest ≤ q.tail
      → (q.new_pacing_enable ≡ true → dest ≡ suc q.head)
      → (dest ≤ q.head → dest ≡ q.tail)
      → Progress log h (suc r) (move_slot q r dest (get_or q.next_item r none))
  slowest_moves dest here le one end = rw here (elim (dec_lt q.head dest) [
    | yes up ↦
        moved-Progress q.head dest (get_elem?_of_get_or q.next_item r q.head here) refl up le one
    | no past ↦
        rw (move_reader_idle q r q.head dest (omega arith))
          (stay (λ e. absurd (omega (arith, g.far, end (omega arith)))))
  ])

  relieve-Progress : Progress log h (suc r) (relieve q r)
  unfolding relieve adjust_slowest_queue_reader
  relieve-Progress =
      if_elim (Progress log h (suc r)) (is_slowest q.head (get_or q.next_item r none))
        (λ here.
          let at = slowest_at (get_or q.next_item r none) here in
          if_elim (Progress log h (suc r)) q.new_pacing_enable
            (λ new.
              slowest_moves (suc q.head) at (omega (arith, head-le new, g.far)) (λ _. refl)
                (λ le. absurd (omega arith)))
            (λ old.
              slowest_moves (destination q) at (destination-le log q r g.valid)
                (λ new. absurd (false≢true (sym old ∙ new))) (λ _. ground arith)))
        (λ other. stay (not_slowest other))

relieve_from-Progress :
    (log : ℕ → Message) (h n r : ℕ) (q : QueueState)
    → Progress log h r q
    → Progress log h (r + n) (relieve_from q r n) × Still q (relieve_from q r n)
unfolding relieve_from
relieve_from-Progress log h zero r q g = (rw add-zero g, Still-refl q)
relieve_from-Progress log h (suc n) r q g =
    let (g', s) =
      relieve_from-Progress log h n (suc r) (relieve q r) (relieve-Progress log h r q g) in
    (
      subst (λ k. Progress log h k (relieve_from (relieve q r) (suc r) n)) (omega arith) g',
      Still-trans (relieve-Still q r) s,
    )

module _ (log : ℕ → Message) (q : QueueState) (v : IsValid log q) where
  start : is_full q ≡ true → Progress log q.head 0 q
  start full = record {
    valid = v;
    far = ground arith;
    from = omega arith;
    ahead = λ _. inl refl;
    cleared = λ _ j lt. absurd (omega arith);
  }

  relieved : QueueState
  relieved = relieve_from q 0 max_queue_readers

  -- A head that has not moved is wanted by a reader at it.
  held_back :
      Progress log q.head max_queue_readers relieved → Still q relieved → ¬ (relieved.head ≡ q.head)
  held_back g s e =
      let c = g.valid.consistent in
      let (r, p, at, le, lt) =
        below_witness relieved.next_item q.head
          (c.wanted q.head (omega arith) (omega (arith, g.far))) in
      let range = Within-get relieved.head relieved.tail relieved.next_item r p c.placed at in
      g.cleared e r (omega (arith, g.valid.slots)) (at ∙ ap (λ k. some (some k)) (omega arith))

  -- The loop has looked at all readers, so one that held the head back has moved.
  head-lt-relieved : is_full q ≡ true → q.head < relieved.head
  unfolding relieved
  head-lt-relieved full =
      let (g, s) = relieve_from-Progress log q.head max_queue_readers 0 q (start full) in
      elim (dec_lt q.head relieved.head) [
        | yes up ↦ up
        | no stuck ↦ absurd (held_back g s (omega (arith, s.head)))
      ]

  room : is_full q ≡ true → Still q relieved → relieved.tail < relieved.head + queue_max_items
  room full s = omega (arith, head-lt-relieved full, s.tail, v.consistent.fits)

  fits :
      is_full q ≡ true → relieved.tail < relieved.head + queue_max_items → make_room q ≡ ok relieved
  unfolding make_room relieved
  fits full lt = ground arith

  -- The first part of writeQueue on a valid queue never comes to its fatal error: it returns with
  -- room in the array and the invariant kept, the tail unchanged and the head where it was or
  -- later.
  pub make_room_lem :
      (q' : QueueState) × (make_room q ≡ ok q')
      × IsValid log q'
      × Still q q'
      × (q'.tail < q'.head + queue_max_items)
  unfolding make_room relieved
  make_room_lem = elim (Bool-cases (is_full q)) [
    | inl full ↦
        let (g, s) = relieve_from-Progress log q.head max_queue_readers 0 q (start full) in
        (relieved, fits full (room full s), g.valid, s, room full s)
    | inr room ↦ (q, rw (room, make_room) (rw room), v, Still-refl q, ground arith)
  ]
