-- ===== src/Labeling/Inv/Buckets.antt =====
-- What the buckets of a table hold after a node entered or left one of them.
use native.Mathlib.Decide.{ℕ_discrete}
use bgpmon.Base.{
  ℕ, ◌+◌, ◌<◌, ◌≡◌, ◌≢◌, refl, ap, ◌∙◌, true, List, [], ◌∷◌, none, arith, ◌==◌, update_self,
  update-ne, ok, inl, inr, Option-cases,
}
use bgpmon.Labeling.Heap.{Heap, one, load, occurs}
use bgpmon.Labeling.Heaps.{occurs-erase_self, occurs-erase_ne, eq_self, eq_ne}
use bgpmon.Labeling.State.{Table}
use bgpmon.Labeling.Table.{link, unlink}
use bgpmon.Labeling.Attributes.{find_node}

module _ (i a : ℕ) (t : Table) where
  pub link_here :
      (b : ℕ) → occurs b ((link i a t).entries i).node ≡ one (b == a) + occurs b (t.entries i).node
  unfolding link
  link_here b = rw (update_self t.entries i) refl

  pub link_there :
      (j b : ℕ) → j ≢ i → occurs b ((link i a t).entries j).node ≡ occurs b (t.entries j).node
  unfolding link
  link_there j b ne = ap (λ e. occurs b e.node) (update-ne t.entries i _ j ne)

  pub unlink_self :
      (j : ℕ)
      → occurs a (t.entries i).node ≡ 1
      → (j ≢ i → occurs a (t.entries j).node ≡ 0)
      → occurs a ((unlink i a t).entries j).node ≡ 0
  unfolding unlink
  unlink_self j once nowhere = elim (ℕ_discrete j i) [
    | yes e ↦
        rw (e, update_self t.entries i)
          (omega (arith, once, occurs-erase_self (t.entries i).node a (omega (arith, once))))
    | no ne ↦ ap (λ e. occurs a e.node) (update-ne t.entries i _ j ne) ∙ nowhere ne
  ]

  pub unlink_ne :
      (j b : ℕ) → b ≢ a → occurs b ((unlink i a t).entries j).node ≡ occurs b (t.entries j).node
  unfolding unlink
  unlink_ne j b ne = elim (ℕ_discrete j i) [
    | yes e ↦ rw (e, update_self t.entries i) (occurs-erase_ne (t.entries i).node a b ne)
    | no ne' ↦ ap (λ e. occurs b e.node) (update-ne t.entries i _ j ne')
  ]

-- A walk along live nodes finds the one that is there.
pub find_node_lem {ℓ} :
    {A : Type ℓ} (h : Heap A) (xs : List ℕ) (a : ℕ)
    → ((b : ℕ) → 0 < occurs b xs → load h b ≢ none)
    → 0 < occurs a xs
    → find_node h xs a ≡ ok true
unfolding find_node
find_node_lem h [] a live there = absurd (omega (arith, there))
find_node_lem h (b ∷ bs) a live there = elim (ℕ_discrete a b) [
  | yes e ↦ rw (e, eq_self b) refl
  | no ne ↦
      let later : (c : ℕ) → 0 < occurs c bs → load h c ≢ none =
        λ c more. live c (omega (arith, more)) in
      let rest : find_node h bs a ≡ ok true =
        find_node_lem h bs a later (omega (arith, there, ap one (eq_ne a b ne))) in
      elim (Option-cases (load h b)) [
        | inl gone ↦ absurd (live b (omega (arith, ap one (eq_self b))) gone)
        | inr (w, get) ↦ rw (eq_ne a b ne, get) rest
      ]
]
