-- ===== src/Labeling/Refine.antt =====
-- A whole update against the map of routes (applyBGPUpdate in Labeling/rtable.c).

use bgpmon.Base.{
  ℕ, ◌+◌, ◌^◌, ◌≤◌, ◌<◌, ◌≡◌, refl, sym, ap, ◌∙◌, List, [], ◌∷◌, Option, some, true, length, Result,
  ok, arith,
}
use bgpmon.Labeling.Heap.{load}
use bgpmon.Labeling.State.{Prefix, Rib}
use bgpmon.Labeling.Attributes.{Attribute}
use bgpmon.Labeling.Prefixes.{Bmf, labelled}
use bgpmon.Labeling.Nlri.{BgpNlri}
use bgpmon.Labeling.Updates.{Applied, withdraw_all, announce_all}
use bgpmon.Labeling.View.{Content, rib_view, content, announce_label}
use bgpmon.Labeling.Inv.{IsValid, IsSmall}
use bgpmon.Labeling.Inv.Prefixes.{PrefixSide-mono}
use bgpmon.Labeling.Inv.Views.{rib_view_same, content_live}
use bgpmon.Labeling.Inv.Made.{Searched}
use bgpmon.Labeling.Inv.Lookup.{search_attr_node_lem}
use bgpmon.Labeling.Inv.Announce.{apply_reachable_prefix_lem}
use bgpmon.Labeling.Batch.{
  announce_prefixes, Encodes, nlri_check-encode, apply_unreachable_nlri-encode,
  apply_reachable_nlri-encode,
}
use bgpmon.Labeling.Routes.{
  Routes, set_route, set_route_view, withdraw_routes, announce_routes, routes, Follows,
  withdraw_prefixes_lem,
}

announce_prefixes_lem :
    (a ts : ℕ) (c : Content) (ps : List Prefix) (r : Rib) (bmf : Option Bmf)
    → IsValid r
    → length r.prefixes + length ps ≤ 2 ^ 16
    → length r.attributes < 2 ^ 32
    → content r a ≡ some c
    → (r' : Rib) × (announce_prefixes a ts ps r bmf
        ≡ ok (r', (announce_routes r.attribute_table.table_size c ps (routes r bmf)).1))
      × Follows r
          (length ps)
          0
          (announce_routes r.attribute_table.table_size c ps (routes r bmf)).0
          r'
unfolding announce_prefixes
announce_prefixes_lem a ts c [] r bmf v few few' has = (
  r,
  refl,
  record {
    valid = v;
    view = refl;
    few_prefixes = omega arith;
    few_attributes = omega arith;
    same_size = refl;
  },
)
announce_prefixes_lem a ts c (p ∷ ps) r bmf v few few' has =
    let small : IsSmall r = record { few_prefixes = omega (arith, few); few_attributes = few' } in
    let (r1, run, step) = apply_reachable_prefix_lem p a ts r bmf c v small has in
    let size : ℕ = r.attribute_table.table_size in
    let bmf1 : Option Bmf = labelled bmf (announce_label size c (rib_view r p)) in
    let (r2, run2, later) =
      announce_prefixes_lem a ts c ps r1 bmf1 step.valid (omega (arith, few, step.few_prefixes))
        (omega (arith, few', step.few_attributes)) step.keeps in
    let seen : rib_view r1 ≡ set_route p (some c) (rib_view r) =
      set_route_view r r1 p (some c) step.says step.others in
    (
      r2,
      rw run (run2 ∙ (λ i. ok (r2, (announce_routes (step.same_size i) c ps (seen i, bmf1)).1))),
      record {
        valid = later.valid;
        view = later.view ∙ (λ i. (announce_routes (step.same_size i) c ps (seen i, bmf1)).0);
        few_prefixes = omega (arith, later.few_prefixes, step.few_prefixes);
        few_attributes = omega (arith, later.few_attributes, step.few_attributes);
        same_size = later.same_size ∙ step.same_size;
      },
    )

-- After the search for the attributes the RIB says what it said.
pub searched-IsValid :
    (r : Rib) (path bytes : List ℕ) (a : ℕ) (r' : Rib)
    → IsValid r
    → Searched r.prefixes r path bytes a r'
    → IsValid r'
searched-IsValid r path bytes a r' v s = record {
  by_prefix =
      rw (s.same_prefixes, s.same_table)
        (PrefixSide-mono r.next_address r.prefixes r.prefix_table v.by_prefix r'.next_address
          s.grows);
  by_attr = rw s.same_prefixes s.side;
}

searched_view :
    (r : Rib) (path bytes : List ℕ) (a : ℕ) (r' : Rib)
    → IsValid r
    → Searched r.prefixes r path bytes a r'
    → rib_view r' ≡ rib_view r
searched_view r path bytes a r' v s = λ i p.
    rib_view_same r r' p v (searched-IsValid r path bytes a r' v s)
      (λ y k get e.
        let (c, has) = content_live r v y k get in
        (k, rw s.same_prefixes get, e, s.kept_content k.data_attr c has ∙ sym has))
      (λ y k get e. (k, ap (λ h. load h y) (sym s.same_prefixes) ∙ get, e)) i

-- A part of the function returns 0 and follows what should happen to the routes.
abbrev pub Stage :
    (Rib → Option Bmf → Result Applied) → (Routes → Routes) → ℕ → ℕ → Rib → Option Bmf → Type 0
Stage f g n k r bmf =
    (r' : Rib) × (f r bmf ≡ ok (record { returned = true; rib = r'; bmf = (g (routes r bmf)).1 }))
    × Follows r n k (g (routes r bmf)).0 r'

pub withdraw_all_lem :
    (n : BgpNlri) (ps : List Prefix) (e : Encodes n ps) (r : Rib) (bmf : Option Bmf)
    → IsValid r
    → IsSmall r
    → Stage (withdraw_all n) (withdraw_routes ps) 0 0 r bmf
unfolding withdraw_all
withdraw_all_lem n ps e r bmf v small =
    let (r', run, follows) = withdraw_prefixes_lem ps r bmf v small in
    (
      r',
      rw (nlri_check-encode n ps e, apply_unreachable_nlri-encode n ps e r bmf, run) refl,
      follows,
    )

pub announce_all_lem :
    (ts : ℕ) (path : List ℕ) (attribute : Attribute) (n : BgpNlri) (ps : List Prefix)
    (e : Encodes n ps) (r : Rib) (bmf : Option Bmf)
    → IsValid r
    → length r.prefixes + length ps ≤ 2 ^ 16
    → length r.attributes + 1 < 2 ^ 32
    → Stage
        (announce_all ts path attribute n)
        (announce_routes r.attribute_table.table_size (path, attribute.bytes) ps)
        (length ps)
        1
        r
        bmf
unfolding announce_all
announce_all_lem ts path attribute n ps e r bmf v few few' =
    let (a, r1, search, s) = search_attr_node_lem r.prefixes r v.by_attr path attribute in
    let c : Content = (path, attribute.bytes) in
    let same : length r1.prefixes ≡ length r.prefixes = ap length s.same_prefixes in
    let (r', run, follows) =
      announce_prefixes_lem a ts c ps r1 bmf (searched-IsValid r path attribute.bytes a r1 v s)
        (omega (arith, same, few)) (omega (arith, s.fewer, few')) s.has in
    let seen = searched_view r path attribute.bytes a r1 v s in
    let start : announce_routes r1.attribute_table.table_size c ps (routes r1 bmf)
        ≡ announce_routes r.attribute_table.table_size c ps (routes r bmf) =
      λ i. announce_routes (s.same_size i) c ps (seen i, bmf) in
    (
      r',
      rw (nlri_check-encode n ps e, search, apply_reachable_nlri-encode n ps e a ts r1 bmf, run)
          (λ i. ok (record { returned = true; rib = r'; bmf = (start i).1 })),
      record {
        valid = follows.valid;
        view = follows.view ∙ ap (λ z. z.0) start;
        few_prefixes = omega (arith, same, follows.few_prefixes);
        few_attributes = omega (arith, s.fewer, follows.few_attributes);
        same_size = follows.same_size ∙ s.same_size;
      },
    )
