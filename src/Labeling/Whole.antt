-- ===== src/Labeling/Whole.antt =====
-- The parts of an update one after the other (applyBGPUpdate in Labeling/rtable.c).
use bgpmon.Base.{ℕ, ◌+◌, ◌^◌, ◌<◌, refl, Option, length, ◌>>=◌, arith, subst}
use bgpmon.Labeling.State.{Rib}
use bgpmon.Labeling.Prefixes.{Bmf}
use bgpmon.Labeling.Updates.{
  ParsedBgpUpdate, after, apply_mps, apply_unreach, apply_reach, apply_bgp_update,
}
use bgpmon.Labeling.View.{Content}
use bgpmon.Labeling.Inv.{IsValid, IsSmall}
use bgpmon.Labeling.Routes.{withdraw_routes, announce_routes, routes}
use bgpmon.Labeling.Refine.{Stage}
use bgpmon.Labeling.Parts.{
  RouteUpdate, HoldsUpdate, mps_routes, mps_count, update_routes, then_lem, apply_mps_lem,
  apply_unreach_lem, apply_reach_lem,
}

module _ (ts : ℕ) (parsed : ParsedBgpUpdate) where
  abbrev c : Content
  c = (parsed.as_path, parsed.attr.bytes)

  -- applyBGPUpdate, on a valid RIB and a parsed update that has basic attributes and whose NLRIs
  -- hold prefixes, returns 0 with a valid RIB, provided that there is room for the prefixes and
  -- attributes. The routes, a map from prefixes to AS paths and attributes, are then what the
  -- withdrawals, the mp attributes and the announcements make of the old ones, in that order, and
  -- the message has the labels that follow from the routes.
  pub apply_bgp_update_lem :
      (u : RouteUpdate)
      → HoldsUpdate parsed u
      → (r : Rib) (bmf : Option Bmf) → IsValid r
      → length r.prefixes + mps_count u.mp + length u.announced < 2 ^ 16
      → length r.attributes + length u.mp + 1 < 2 ^ 32
      → Stage
          (apply_bgp_update ts parsed)
          (update_routes r.attribute_table.table_size c u)
          (mps_count u.mp + length u.announced)
          (length u.mp + 1)
          r
          bmf
  unfolding apply_bgp_update
  apply_bgp_update_lem u h r bmf v few few' =
      let size : ℕ = r.attribute_table.table_size in
      let small : IsSmall r = record {
        few_prefixes = omega (arith, few);
        few_attributes = omega (arith, few');
      } in
      let first : Stage (apply_unreach parsed.unreach_nlri) (withdraw_routes u.withdrawn) 0 0 r
          bmf =
        apply_unreach_lem ts parsed parsed.unreach_nlri u.withdrawn h.withdrawn r bmf v small in
      let (r1, run1, a) = first in
      let bmf1 : Option Bmf = (withdraw_routes u.withdrawn (routes r bmf)).1 in
      let second : Stage (apply_mps ts parsed parsed.mp_nlri) (mps_routes size c u.mp)
          (mps_count u.mp) (length u.mp) r1 bmf1 =
        subst
          (λ z.
            Stage (apply_mps ts parsed parsed.mp_nlri) (mps_routes z c u.mp) (mps_count u.mp)
              (length u.mp) r1 bmf1)
          a.same_size
          (apply_mps_lem ts parsed parsed.mp_nlri u.mp h.mp h.some_attr r1 bmf1 a.valid
            (omega (arith, few, a.few_prefixes)) (omega (arith, few', a.few_attributes))) in
      let both =
        then_lem (apply_unreach parsed.unreach_nlri) (apply_mps ts parsed parsed.mp_nlri)
          (withdraw_routes u.withdrawn) (mps_routes size c u.mp) 0 0 (mps_count u.mp) (length u.mp)
          (mps_count u.mp) (length u.mp) r bmf first second (omega arith) (omega arith) in
      let (r2, run2, b) = both in
      let bmf2 : Option Bmf =
        (mps_routes size c u.mp (withdraw_routes u.withdrawn (routes r bmf))).1 in
      let third : Stage (apply_reach ts parsed) (announce_routes size c u.announced)
          (length u.announced) 1 r2 bmf2 =
        subst
          (λ z.
            Stage (apply_reach ts parsed) (announce_routes z c u.announced) (length u.announced) 1
              r2 bmf2)
          b.same_size
          (apply_reach_lem ts parsed u.announced h.announced h.some_basic r2 bmf2 b.valid
            (omega (arith, few, b.few_prefixes)) (omega (arith, few', b.few_attributes))) in
      then_lem
        (λ x b. apply_unreach parsed.unreach_nlri x b >>= λ o.
          after o (apply_mps ts parsed parsed.mp_nlri))
        (apply_reach ts parsed) (λ z. mps_routes size c u.mp (withdraw_routes u.withdrawn z))
        (announce_routes size c u.announced) (mps_count u.mp) (length u.mp) (length u.announced) 1
        (mps_count u.mp + length u.announced) (length u.mp + 1) r bmf both third refl refl
