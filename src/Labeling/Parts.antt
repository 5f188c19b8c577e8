-- ===== src/Labeling/Parts.antt =====
-- The three parts of applyBGPUpdate in Labeling/rtable.c, and the routes that an update asks for.
use bgpmon.Base.{
  ℕ, suc, ◌+◌, ◌^◌, ◌≤◌, ◌<◌, ◌≡◌, refl, sym, ap, ◌∙◌, List, [], ◌∷◌, Option, true, length, Result,
  ok, ◌>>=◌, arith, subst,
}
use bgpmon.Labeling.Heaps.{eq_ne}
use bgpmon.Labeling.State.{Prefix, Rib}
use bgpmon.Labeling.Prefixes.{Bmf}
use bgpmon.Labeling.Nlri.{BgpNlri}
use bgpmon.Labeling.Updates.{
  MpFlag, reach, unreach, ParsedBgpUpdate, Applied, after, apply_mp, apply_mps, apply_unreach,
  apply_reach,
}
use bgpmon.Labeling.View.{Content, rib_view}
use bgpmon.Labeling.Inv.{IsValid, IsSmall}
use bgpmon.Labeling.Batch.{Encodes}
use bgpmon.Labeling.Routes.{Routes, withdraw_routes, announce_routes, routes, Follows}
use bgpmon.Labeling.Refine.{Stage, withdraw_all_lem, announce_all_lem}

-- An update as lists of prefixes.
pub record RouteUpdate : Type 0 where
  pub withdrawn : List Prefix
  pub mp : List (MpFlag × List Prefix)
  pub announced : List Prefix

-- What an mp attribute does to the routes, and how many it may add.
abbrev pub mp_routes : ℕ → Content → MpFlag × List Prefix → Routes → Routes
mp_routes size c (reach, ps) f = announce_routes size c ps f
mp_routes size c (unreach, ps) f = withdraw_routes ps f

abbrev pub mp_count : MpFlag × List Prefix → ℕ
mp_count (reach, ps) = length ps
mp_count (unreach, ps) = 0

abbrev pub mps_routes : ℕ → Content → List (MpFlag × List Prefix) → Routes → Routes
mps_routes size c [] f = f
mps_routes size c (m ∷ ms) f = mps_routes size c ms (mp_routes size c m f)

abbrev pub mps_count : List (MpFlag × List Prefix) → ℕ
mps_count [] = 0
mps_count (m ∷ ms) = mp_count m + mps_count ms

-- First the withdrawals, then the mp attributes in order, then the announcements.
abbrev pub update_routes : ℕ → Content → RouteUpdate → Routes → Routes
update_routes size c u f =
    announce_routes size c u.announced (mps_routes size c u.mp (withdraw_routes u.withdrawn f))

abbrev pub MpEncodes : List (MpFlag × BgpNlri) → List (MpFlag × List Prefix) → Type 0
MpEncodes [] [] = Unit {0}
MpEncodes [] (m ∷ ms) = ⊥
MpEncodes (n ∷ ns) [] = ⊥
MpEncodes (n ∷ ns) (m ∷ ms) = (n.0 ≡ m.0) × Encodes n.1 m.1 × MpEncodes ns ms

-- A parsed update that holds these prefixes and has attributes.
pub record HoldsUpdate (parsed : ParsedBgpUpdate) (u : RouteUpdate) : Type 0 where
  pub withdrawn : Encodes parsed.unreach_nlri u.withdrawn
  pub mp : MpEncodes parsed.mp_nlri u.mp
  pub announced : Encodes parsed.reach_nlri u.announced
  pub some_basic : 0 < parsed.attr.basic_attrlen
  pub some_attr : 0 < length parsed.attr.bytes

-- One part of the function after another.
pub then_lem :
    (f f' : Rib → Option Bmf → Result Applied) (g g' : Routes → Routes) (n k n' k' m l : ℕ)
    (r : Rib) (bmf : Option Bmf) (s : Stage f g n k r bmf)
    → Stage f' g' n' k' s.0 (g (routes r bmf)).1
    → m ≡ n + n'
    → l ≡ k + k'
    → Stage (λ x b. f x b >>= λ o. after o f') (λ z. g' (g z)) m l r bmf
then_lem f f' g g' n k n' k' m l r bmf (r1, run, a) (r2, run2, b) all_n all_k =
    let seen : routes r1 (g (routes r bmf)).1 ≡ g (routes r bmf) =
      λ i. (a.view i, (g (routes r bmf)).1) in
    (
      r2,
      rw run (run2 ∙ ap (λ z. ok (record { returned = true; rib = r2; bmf = (g' z).1 })) seen),
      record {
        valid = b.valid;
        view = b.view ∙ ap (λ z. (g' z).0) seen;
        few_prefixes = omega (arith, a.few_prefixes, b.few_prefixes, all_n);
        few_attributes = omega (arith, a.few_attributes, b.few_attributes, all_k);
        same_size = b.same_size ∙ a.same_size;
      },
    )

nothing : (r : Rib) (bmf : Option Bmf) → IsValid r → Follows r 0 0 (rib_view r) r
nothing r bmf v = record {
  valid = v;
  view = refl;
  few_prefixes = omega arith;
  few_attributes = omega arith;
  same_size = refl;
}

module _ (ts : ℕ) (parsed : ParsedBgpUpdate) where
  abbrev pub c : Content
  c = (parsed.as_path, parsed.attr.bytes)

  pub apply_mp_lem :
      (flag : MpFlag) (n : BgpNlri) (ps : List Prefix) (e : Encodes n ps)
      → 0 < length parsed.attr.bytes
      → (r : Rib) (bmf : Option Bmf) → IsValid r
      → length r.prefixes + mp_count (flag, ps) < 2 ^ 16
      → length r.attributes + 1 < 2 ^ 32
      → Stage
          (apply_mp ts parsed (flag, n))
          (mp_routes r.attribute_table.table_size c (flag, ps))
          (mp_count (flag, ps))
          1
          r
          bmf
  unfolding apply_mp
  apply_mp_lem reach n ps e some_attr r bmf v few few' =
      let (r', run, follows) =
        announce_all_lem ts parsed.as_path parsed.attr n ps e r bmf v (omega (arith, few)) few' in
      (
        r',
        rw (eq_ne (length parsed.attr.bytes) 0 (λ z. absurd (omega (arith, z, some_attr)))) run,
        follows,
      )
  apply_mp_lem unreach n ps e some_attr r bmf v few few' =
      let small : IsSmall r = record {
        few_prefixes = omega (arith, few);
        few_attributes = omega (arith, few');
      } in
      let (r', run, follows) = withdraw_all_lem n ps e r bmf v small in
      (
        r',
        run,
        record {
          valid = follows.valid;
          view = follows.view;
          few_prefixes = follows.few_prefixes;
          few_attributes = omega (arith, follows.few_attributes);
          same_size = follows.same_size;
        },
      )

  pub apply_mps_lem :
      (ns : List (MpFlag × BgpNlri)) (ms : List (MpFlag × List Prefix))
      → MpEncodes ns ms
      → 0 < length parsed.attr.bytes
      → (r : Rib) (bmf : Option Bmf) → IsValid r
      → length r.prefixes + mps_count ms < 2 ^ 16
      → length r.attributes + length ms < 2 ^ 32
      → Stage
          (apply_mps ts parsed ns)
          (mps_routes r.attribute_table.table_size c ms)
          (mps_count ms)
          (length ms)
          r
          bmf
  unfolding apply_mps
  apply_mps_lem [] [] e some_attr r bmf v few few' = (
    r,
    refl,
    record {
      valid = v;
      view = refl;
      few_prefixes = omega arith;
      few_attributes = omega arith;
      same_size = refl;
    },
  )
  apply_mps_lem [] (m ∷ ms) e some_attr r bmf v few few' = absurd e
  apply_mps_lem (n ∷ ns) [] e some_attr r bmf v few few' = absurd e
  apply_mps_lem ((flag, n) ∷ ns) ((flag', ps) ∷ ms) e some_attr r bmf v few few' =
      let size : ℕ = r.attribute_table.table_size in
      let first : Stage (apply_mp ts parsed (flag, n)) (mp_routes size c (flag', ps))
          (mp_count (flag', ps)) 1 r bmf =
        subst
          (λ z.
            Stage (apply_mp ts parsed (z, n)) (mp_routes size c (flag', ps)) (mp_count (flag', ps))
              1 r bmf)
          (sym e.0)
          (apply_mp_lem flag' n ps e.1 some_attr r bmf v (omega (arith, few))
            (omega (arith, few'))) in
      let (r1, run, a) = first in
      let bmf1 : Option Bmf = (mp_routes size c (flag', ps) (routes r bmf)).1 in
      let rest : Stage (apply_mps ts parsed ns) (mps_routes size c ms) (mps_count ms) (length ms) r1
          bmf1 =
        subst
          (λ z.
            Stage (apply_mps ts parsed ns) (mps_routes z c ms) (mps_count ms) (length ms) r1 bmf1)
          a.same_size
          (apply_mps_lem ns ms e.2 some_attr r1 bmf1 a.valid (omega (arith, few, a.few_prefixes))
            (omega (arith, few', a.few_attributes))) in
      then_lem (apply_mp ts parsed (flag, n)) (apply_mps ts parsed ns)
        (mp_routes size c (flag', ps)) (mps_routes size c ms) (mp_count (flag', ps)) 1
        (mps_count ms) (length ms) (mp_count (flag', ps) + mps_count ms) (suc (length ms)) r bmf
        first rest refl (omega arith)

  pub apply_unreach_lem :
      (n : BgpNlri) (ps : List Prefix) (e : Encodes n ps) (r : Rib) (bmf : Option Bmf)
      → IsValid r
      → IsSmall r
      → Stage (apply_unreach n) (withdraw_routes ps) 0 0 r bmf
  unfolding apply_unreach
  apply_unreach_lem n [] e r bmf v small = (r, rw e.whole refl, nothing r bmf v)
  apply_unreach_lem n (p ∷ ps) e r bmf v small =
      let (r', run, follows) = withdraw_all_lem n (p ∷ ps) e r bmf v small in
      (r', rw (eq_ne n.nlri_len 0 (λ z. absurd (omega (arith, z, e.whole)))) run, follows)

  pub apply_reach_lem :
      (ps : List Prefix) (e : Encodes parsed.reach_nlri ps)
      → 0 < parsed.attr.basic_attrlen
      → (r : Rib) (bmf : Option Bmf) → IsValid r
      → length r.prefixes + length ps ≤ 2 ^ 16
      → length r.attributes + 1 < 2 ^ 32
      → Stage
          (apply_reach ts parsed)
          (announce_routes r.attribute_table.table_size c ps)
          (length ps)
          1
          r
          bmf
  unfolding apply_reach
  apply_reach_lem [] e some_basic r bmf v few few' = (
    r,
    rw e.whole refl,
    record {
      valid = v;
      view = refl;
      few_prefixes = omega arith;
      few_attributes = omega arith;
      same_size = refl;
    },
  )
  apply_reach_lem (p ∷ ps) e some_basic r bmf v few few' =
      let (r', run, follows) =
        announce_all_lem ts parsed.as_path parsed.attr parsed.reach_nlri (p ∷ ps) e r bmf v few
          few' in
      (
        r',
        rw
            (
              eq_ne parsed.reach_nlri.nlri_len 0 (λ z. absurd (omega (arith, z, e.whole))),
              eq_ne parsed.attr.basic_attrlen 0 (λ z. absurd (omega (arith, z, some_basic))),
            )
            run,
        follows,
      )
