-- ===== src/Labeling/Routes.antt =====
-- The abstract view of a RIB: a map from prefixes to routes, what updates do to it, and how the
-- code of Labeling/rtable.c follows it.

use bgpmon.Base.{
  ℕ, ◌+◌, ◌≤◌, ◌≡◌, ◌≢◌, refl, sym, ap, ◌∙◌, List, [], ◌∷◌, Option, none, some, true, false, length,
  if◌then◌else◌, ok, arith, Bool-cases, inl, inr,
}
use bgpmon.Labeling.State.{Prefix, Rib, same_bytes, prefix_bytes}
use bgpmon.Labeling.Prefixes.{Bmf, labelled}
use bgpmon.Labeling.View.{
  Content, rib_view, withdraw_label, announce_label, same_bytes_self, same_bytes_sound,
}
use bgpmon.Labeling.Inv.{IsValid, IsSmall}
use bgpmon.Labeling.Inv.Walk.{prefix_bytes_injective}
use bgpmon.Labeling.Inv.Withdraw.{apply_unreachable_prefix_lem}
use bgpmon.Labeling.Batch.{withdraw_prefixes}

-- The route of each prefix, if it has one, and the message to label.
abbrev pub Routes : Type 0
Routes = (Prefix → Option Content) × Option Bmf

abbrev pub set_route : Prefix → Option Content → (Prefix → Option Content) → Prefix → Option Content
set_route p o f q = if same_bytes (prefix_bytes p) (prefix_bytes q) then o else f q

abbrev pub withdraw_routes : List Prefix → Routes → Routes
withdraw_routes [] (f, b) = (f, b)
withdraw_routes (p ∷ ps) (f, b) =
    withdraw_routes ps (set_route p none f, labelled b (withdraw_label (f p)))

abbrev pub announce_routes : ℕ → Content → List Prefix → Routes → Routes
announce_routes size c [] (f, b) = (f, b)
announce_routes size c (p ∷ ps) (f, b) =
    announce_routes size c ps (set_route p (some c) f, labelled b (announce_label size c (f p)))

-- What a RIB and a message stand for.
abbrev pub routes : Rib → Option Bmf → Routes
routes r b = (rib_view r, b)

-- The RIB is valid, stands for these routes and has at most n more prefixes and k more attribute
-- nodes than before.
pub record Follows (r : Rib) (n k : ℕ) (f : Prefix → Option Content) (r' : Rib) : Type 0 where
  pub valid : IsValid r'
  pub view : rib_view r' ≡ f
  pub few_prefixes : length r'.prefixes ≤ length r.prefixes + n
  pub few_attributes : length r'.attributes ≤ length r.attributes + k
  pub same_size : r'.attribute_table.table_size ≡ r.attribute_table.table_size

pub set_route_view :
    (r r' : Rib) (p : Prefix) (o : Option Content)
    → rib_view r' p ≡ o
    → ((q : Prefix) → q ≢ p → rib_view r' q ≡ rib_view r q)
    → rib_view r' ≡ set_route p o (rib_view r)
set_route_view r r' p o here others = λ i q. pointwise q i
  where
    pointwise : (q : Prefix) → rib_view r' q ≡ set_route p o (rib_view r) q
    pointwise q = elim (Bool-cases (same_bytes (prefix_bytes p) (prefix_bytes q))) [
      | inl t ↦
          let same : p ≡ q =
            prefix_bytes_injective p q (same_bytes_sound (prefix_bytes p) (prefix_bytes q) t) in
          rw t (ap (rib_view r') (sym same) ∙ here)
      | inr f ↦
          let differ : q ≢ p = λ e. absurd (
            let wrong : true ≡ false =
              sym (same_bytes_self (prefix_bytes p))
              ∙ ap (λ z. same_bytes (prefix_bytes p) (prefix_bytes z)) (sym e)
              ∙ f in
            cc) in
          rw f (others q differ)
    ]

-- Withdrawing prefixes one after the other does to the routes what it should.
pub withdraw_prefixes_lem :
    (ps : List Prefix) (r : Rib) (bmf : Option Bmf)
    → IsValid r
    → IsSmall r
    → (r' : Rib) × (withdraw_prefixes ps r bmf ≡ ok (r', (withdraw_routes ps (routes r bmf)).1))
      × Follows r 0 0 (withdraw_routes ps (routes r bmf)).0 r'
unfolding withdraw_prefixes
withdraw_prefixes_lem [] r bmf v small = (
  r,
  refl,
  record {
    valid = v;
    view = refl;
    few_prefixes = omega arith;
    few_attributes = omega arith;
    same_size = refl;
  },
)
withdraw_prefixes_lem (p ∷ ps) r bmf v small =
    let (r1, run, step) = apply_unreachable_prefix_lem p r bmf v small in
    let small1 : IsSmall r1 = record {
      few_prefixes = omega (arith, step.few_prefixes, small.few_prefixes);
      few_attributes = omega (arith, step.few_attributes, small.few_attributes);
    } in
    let bmf1 : Option Bmf = labelled bmf (withdraw_label (rib_view r p)) in
    let (r2, run2, later) = withdraw_prefixes_lem ps r1 bmf1 step.valid small1 in
    let seen : rib_view r1 ≡ set_route p none (rib_view r) =
      set_route_view r r1 p none step.gone step.others in
    (
      r2,
      rw run (run2 ∙ ap (λ f. ok (r2, (withdraw_routes ps (f, bmf1)).1)) seen),
      record {
        valid = later.valid;
        view = later.view ∙ ap (λ f. (withdraw_routes ps (f, bmf1)).0) seen;
        few_prefixes = omega (arith, later.few_prefixes, step.few_prefixes);
        few_attributes = omega (arith, later.few_attributes, step.few_attributes);
        same_size = later.same_size ∙ step.same_size;
      },
    )
