-- ===== src/Queue/Inv/Drop.antt =====
-- The invariant as a reader gives up references and is moved on (Queues/queue.c).
use native.Mathlib.Nat.{add-zero}
use native.Mathlib.Decide.{dec_lt, ℕ_discrete}
use bgpmon.Base.{
  ℕ, zero, suc, ◌+◌, ◌-◌, ◌≤◌, ◌<◌, ◌≡◌, refl, sym, ap, subst, update, update_self, update-ne, ◌∙◌,
  ◌≢◌, List, Option, some, arith, get_elem?, set, get_elem?-set_self, set-set, set_self,
}
use bgpmon.Queue.State.{QueueEntry, QueueState, Message, slot}
use bgpmon.Queue.Readers.{
  below, Within, Within-get, Within-set, Within-past, below-lt, below-pos, below-step_ne,
  below-step_self,
}
use bgpmon.Queue.Release.{drop_ref, drop_refs}
use bgpmon.Queue.Inv.{Consistent, slot-ne}

module _ (log : ℕ → Message) (l : List (Option ℕ)) (r i : ℕ) (q : QueueState)
    (c : Consistent log l q) (at : get_elem? l r ≡ some (some i)) (lt : i < q.tail) where
  abbrev moved : List (Option ℕ)
  moved = set l r (some (suc i))

  from_head : (q.head ≤ i) × (i ≤ q.tail)
  from_head = Within-get q.head q.tail l r i c.placed at

  others : (k : ℕ) → k ≢ i → below moved k ≡ below l k
  others k ne = below-step_ne l r i k at ne

  -- The last reader of item i: nothing before it is wanted, so it is the head.
  last_at_head : below l i ≡ 1 → q.head ≡ i
  last_at_head e = elim (dec_lt q.head i) [
    | yes early ↦
        absurd (
          omega
            (arith, c.wanted q.head (omega arith) (omega arith), below-lt l r i q.head at early))
    | no late ↦ omega (arith, from_head)
  ]

  count_here : (q.items (slot i)).count ≡ below l i
  count_here = c.counted i from_head.0 lt

  away : (k : ℕ) → q.head ≤ k → k < q.tail → k ≢ i → slot k ≢ slot i
  away k a b ne = slot-ne q.head q.tail i k c.fits from_head.0 lt a b (λ e. ne (sym e))

  after_last : below l i ≡ 1 → (k : ℕ) → q.head + 1 ≤ k → q.head ≤ k × (k ≢ i)
  after_last e k a = omega (arith, last_at_head e)

  kept :
      (v : QueueEntry) (k : ℕ)
      → q.head ≤ k
      → k < q.tail
      → k ≢ i
      → update q.items (slot i) v (slot k) ≡ q.items (slot k)
  kept v k a b ne = update-ne q.items (slot i) v (slot k) (away k a b ne)

  drop_last : below l i ≡ 1 → Consistent log moved (drop_ref q i)
  unfolding drop_ref
  drop_last e =
      rw (count_here, e)
        (record {
          fits = omega (arith, c.fits);
          ordered = omega (arith, last_at_head e);
          placed =
              subst (λ h. Within h q.tail moved) (omega (arith, last_at_head e))
                (Within-past q.head q.tail i moved (omega (arith, below-step_self l r i at))
                  (Within-set q.head q.tail l r (suc i) c.placed (omega (arith, from_head)) lt));
          counted = λ k a b.
              let (a', ne) = after_last e k a in
              ap (λ x. x.count) (kept _ k a' b ne) ∙ c.counted k a' b ∙ sym (others k ne);
          wanted = λ k a b. let (a', ne) = after_last e k a in rw (others k ne) (c.wanted k a' b);
          stored = λ k a b.
              let (a', ne) = after_last e k a in
              ap (λ x. x.messag_buf) (kept _ k a' b ne) ∙ c.stored k a' b;
        })

  abbrev fewer : QueueEntry
  fewer = record (q.items (slot i)) { count = (q.items (slot i)).count - 1 }

  drop_ref_more :
      1 < (q.items (slot i)).count
      → drop_ref q i ≡ record q { items = update q.items (slot i) fewer }
  unfolding drop_ref
  drop_ref_more h = ground arith

  drop_more : 1 < below l i → Consistent log moved (drop_ref q i)
  drop_more h = rw (drop_ref_more (rw count_here h)) (record {
    fits = c.fits;
    ordered = c.ordered;
    placed = Within-set q.head q.tail l r (suc i) c.placed (omega (arith, from_head)) lt;
    counted = λ k a b. elim (ℕ_discrete k i) [
      | yes e ↦
          rw (e, update_self q.items (slot i) fewer)
            (omega (arith, count_here, below-step_self l r i at))
      | no ne ↦ ap (λ x. x.count) (kept fewer k a b ne) ∙ c.counted k a b ∙ sym (others k ne)
    ];
    wanted = λ k a b. elim (ℕ_discrete k i) [
      | yes e ↦ rw e (omega (arith, below-step_self l r i at))
      | no ne ↦ rw (others k ne) (c.wanted k a b)
    ];
    stored = λ k a b. elim (ℕ_discrete k i) [
      | yes e ↦ rw (e, update_self q.items (slot i) fewer) (c.stored i from_head.0 lt)
      | no ne ↦ ap (λ x. x.messag_buf) (kept fewer k a b ne) ∙ c.stored k a b
    ];
  })

  pub drop_ref-Consistent : Consistent log moved (drop_ref q i)
  drop_ref-Consistent = elim (dec_lt 1 (below l i)) [
    | yes more ↦ drop_more more
    | no last ↦ drop_last (omega (arith, below-pos l r i at))
  ]

-- `drop_refs` touches the head and the items only.
abbrev pub SameBut : QueueState → QueueState → Type 0
SameBut q q' = q' ≡ record q { head = q'.head; items = q'.items }

pub drop_ref-SameBut : (q : QueueState) (i : ℕ) → SameBut q (drop_ref q i)
unfolding drop_ref
drop_ref-SameBut q i = ground arith

pub drop_refs-SameBut : (n i : ℕ) (q : QueueState) → SameBut q (drop_refs q i n)
unfolding drop_refs
drop_refs-SameBut zero i q = refl
drop_refs-SameBut (suc n) i q =
    drop_refs-SameBut n (suc i) (drop_ref q i)
    ∙ ap
        (λ (x : QueueState). record x {
          head = (drop_refs (drop_ref q i) (suc i) n).head;
          items = (drop_refs (drop_ref q i) (suc i) n).items;
        })
        (drop_ref-SameBut q i)

pub drop_refs-Consistent :
    (log : ℕ → Message) (n i r : ℕ) (l : List (Option ℕ)) (q : QueueState)
    → Consistent log l q
    → get_elem? l r ≡ some (some i)
    → i + n ≤ q.tail
    → Consistent log (set l r (some (i + n))) (drop_refs q i n)
unfolding drop_refs
drop_refs-Consistent log zero i r l q c at h = rw (add-zero, set_self l r (some i) at) c
drop_refs-Consistent log (suc n) i r l q c at h =
    subst (λ x. Consistent log x (drop_refs (drop_ref q i) (suc i) n))
      (rw set-set (ap (λ k. set l r (some k)) (omega arith)))
      (drop_refs-Consistent log n (suc i) r (set l r (some (suc i))) (drop_ref q i)
        (drop_ref-Consistent log l r i q c at (omega arith))
        (get_elem?-set_self l r (some (suc i)) (some i) at)
        (rw (drop_ref-SameBut q i) (omega arith)))

drop_ref-head : (q : QueueState) (i : ℕ) → q.head ≤ (drop_ref q i).head
unfolding drop_ref
drop_ref-head q i = ground arith

pub drop_refs-head : (n i : ℕ) (q : QueueState) → q.head ≤ (drop_refs q i n).head
unfolding drop_refs
drop_refs-head zero i q = omega arith
drop_refs-head (suc n) i q =
    omega (arith, drop_ref-head q i, drop_refs-head n (suc i) (drop_ref q i))
