-- ===== src/Labeling/Inv/Withdraw.antt =====
-- A withdrawn prefix (applyUnreachablePrefix in Labeling/rtable.c).

use bgpmon.Base.{
  ℕ, ◌+◌, ◌≤◌, ◌<◌, ◌≡◌, ◌≢◌, refl, sym, ap, subst, ◌∙◌, Option, none, some, arith, ◌==◌, length,
  inl, inr, ok,
}
use bgpmon.Labeling.Heap.{Heap, one, load, free}
use bgpmon.Labeling.Heaps.{
  load-store_self, load-free_back, load-free_ne, length-store, length-free, count_if-length,
  count_if-one, eq_self,
}
use bgpmon.Labeling.State.{
  Prefix, PrefixNode, AttrNode, Rib, minus, unused, prefix_size, size_prefix_node, prefix_bytes,
}
use bgpmon.Labeling.Hash.{prefix_hash}
use bgpmon.Labeling.Table.{unlink}
use bgpmon.Labeling.Prefixes.{
  Bmf, Label, withdraw, withdraw_duplicate, labelled, noted, collect, forget_prefix, withdraw_found,
  apply_unreachable_prefix,
}
use bgpmon.Labeling.View.{rib_view, content, noted_view, withdraw_label}
use bgpmon.Labeling.Inv.{AttrSide, IsValid, IsSmall, users}
use bgpmon.Labeling.Inv.Walk.{find_prefix_lem, find_prefix_at}
use bgpmon.Labeling.Inv.Prefixes.{freed-PrefixSide}
use bgpmon.Labeling.Inv.Detach.{
  detached, left, release_lem, remove_prefix_from_attr_lem, detached-AttrSide, fewer_users,
}
use bgpmon.Labeling.Inv.Unused.{Kept, collect_lem}
use bgpmon.Labeling.Inv.Views.{
  rib_view_at, rib_view_absent, rib_view_same, content_live, content_store, content-Kept,
}

-- The prefix is gone, and nothing else has changed.
pub record Withdrawn (p : Prefix) (r r' : Rib) : Type 0 where
  pub valid : IsValid r'
  pub gone : rib_view r' p ≡ none
  pub others : (q : Prefix) → q ≢ p → rib_view r' q ≡ rib_view r q
  pub few_prefixes : length r'.prefixes ≤ length r.prefixes
  pub few_attributes : length r'.attributes ≤ length r.attributes
  pub same_size : r'.attribute_table.table_size ≡ r.attribute_table.table_size

module _ (r : Rib) (v : IsValid r) (small : IsSmall r) (x : ℕ) (m : PrefixNode)
    (get : load r.prefixes x ≡ some m) (n : AttrNode)
    (at : load r.attributes m.data_attr ≡ some n) where
  abbrev a : ℕ
  a = m.data_attr

  abbrev pub rest : Heap PrefixNode
  rest = free r.prefixes x

  abbrev pub det : Rib
  det = detached r v x m get n at

  pub collected : (r' : Rib) × (collect a det ≡ ok r') × Kept rest det a r'
  collected =
      collect_lem rest det (detached-AttrSide r v x m get n at)
        (omega (arith, length-store r.attributes a (left r v x m get n at), small.few_attributes)) a
        (left r v x m get n at) (load-store_self r.attributes a n (left r v x m get n at) at)
        (omega (
          arith,
          fewer_users r v x m get n at,
          count_if-length (λ k. k.data_attr == a) r.prefixes,
          small.few_prefixes,
        ))

  pub content-det : (b : ℕ) → content det b ≡ content r b
  content-det b =
      content_store r.paths r.attributes a b n (left r v x m get n at).ref_count
        (left r v x m get n at).prefix_ref_node at

  -- The contents of a prefix that is left are left.
  pub content_left :
      (rc : Rib)
      → Kept rest det a rc
      → (y : ℕ) (k : PrefixNode) → load rest y ≡ some k
      → content rc k.data_attr ≡ content r k.data_attr
  content_left rc kept y k there =
      let used : 0 < users rest k.data_attr = omega (
        arith,
        count_if-one (λ z. z.data_attr == k.data_attr) rest y k there,
        ap one (eq_self k.data_attr),
      ) in
      content-Kept rest det a rc kept k.data_attr (kept.used_nodes k.data_attr used)
      ∙ content-det k.data_attr

  abbrev i : ℕ
  i = prefix_hash (prefix_bytes m.key_prefix) r.prefix_table.table_size

  -- The RIB after the removal, from what the collection of the attribute node left.
  abbrev without : Rib → Rib
  without rc = unused (size_prefix_node + prefix_size m.key_prefix.p_len) (record rc {
    prefixes = free rc.prefixes x;
    prefix_table = unlink i x rc.prefix_table;
    stats = record rc.stats { prefix_count = minus 32 rc.stats.prefix_count 1 };
  })

  forget_prefix_run : (rc : Rib) → collect a det ≡ ok rc → forget_prefix x m i r ≡ ok (without rc)
  unfolding forget_prefix
  forget_prefix_run rc run =
      rw (release_lem r v x m get n at, remove_prefix_from_attr_lem r v x m get n at, run) refl

  without-IsValid : (rc : Rib) → Kept rest det a rc → IsValid (without rc)
  without-IsValid rc kept = record {
    by_prefix =
        rw (kept.same_prefixes, kept.same_table, kept.same_next)
          (freed-PrefixSide r.next_address r.prefixes r.prefix_table v.by_prefix x m get);
    by_attr =
        subst (λ h. AttrSide h rc.next_address rc.attributes rc.paths rc.attribute_table)
          (ap (λ h. free h x) (sym kept.same_prefixes)) kept.side;
  }

  back :
      (rc : Rib)
      → Kept rest det a rc
      → (y : ℕ) (k : PrefixNode) → load (without rc).prefixes y ≡ some k
      → (y ≢ x) × (load r.prefixes y ≡ some k)
  back rc kept y k there =
      load-free_back r.prefixes x y k v.by_prefix.unique_prefix
        (ap (λ h. load (free h x) y) (sym kept.same_prefixes) ∙ there)

  forth :
      (rc : Rib)
      → Kept rest det a rc
      → (y : ℕ) (k : PrefixNode) → y ≢ x
      → load r.prefixes y ≡ some k
      → load (without rc).prefixes y ≡ some k
  forth rc kept y k ne was =
      ap (λ h. load (free h x) y) kept.same_prefixes ∙ load-free_ne r.prefixes x y ne ∙ was

  without-Withdrawn : (rc : Rib) → Kept rest det a rc → Withdrawn m.key_prefix r (without rc)
  without-Withdrawn rc kept =
      let valid = without-IsValid rc kept in
      record {
        valid = valid;
        gone = rib_view_absent (without rc) valid m.key_prefix (λ y k there same.
            let (ne, was) = back rc kept y k there in ne (v.by_prefix.keys y x k m was get same));
        others = λ q ne.
            rib_view_same r (without rc) q v valid
              (λ y k was e.
                let ne' : y ≢ x = λ same. absurd (
                  let k_is : k ≡ m = let both = ap (load r.prefixes) same in cc in
                  ne (sym e ∙ ap (λ z. z.key_prefix) k_is)) in
                (
                  k,
                  forth rc kept y k ne' was,
                  e,
                  content_left rc kept y k (load-free_ne r.prefixes x y ne' ∙ was),
                ))
              (λ y k there e. (k, (back rc kept y k there).1, e));
        few_prefixes =
            omega (arith, ap (λ h. length (free h x)) kept.same_prefixes, length-free r.prefixes x);
        few_attributes =
            omega (arith, kept.fewer, length-store r.attributes a (left r v x m get n at));
        same_size = kept.same_size;
      }

  pub forget_prefix_lem : (r' : Rib) × (forget_prefix x m i r ≡ ok r') × Withdrawn m.key_prefix r r'
  forget_prefix_lem =
      let (rc, run, kept) = collected in
      (without rc, forget_prefix_run rc run, without-Withdrawn rc kept)

pub noted-IsValid : (l : Label) (r : Rib) → IsValid r → IsValid (noted l r)
noted-IsValid l r v = record { by_prefix = v.by_prefix; by_attr = v.by_attr }

pub noted-IsSmall : (l : Label) (r : Rib) → IsSmall r → IsSmall (noted l r)
noted-IsSmall l r s = record { few_prefixes = s.few_prefixes; few_attributes = s.few_attributes }

abbrev pub WithdrawGoal : Rib → Option Bmf → Prefix → Type 0
WithdrawGoal r bmf p =
    (r' : Rib) × (apply_unreachable_prefix p r bmf
      ≡ ok (r', labelled bmf (withdraw_label (rib_view r p))))
    × Withdrawn p r r'

withdraw_at :
    (r : Rib) (bmf : Option Bmf)
    → IsValid r
    → IsSmall r
    → (x : ℕ) (m : PrefixNode) → load r.prefixes x ≡ some m
    → WithdrawGoal r bmf m.key_prefix
unfolding apply_unreachable_prefix withdraw_found
withdraw_at r bmf v small x m get =
    let (n, at) = v.by_attr.live x m get in
    let (c, has) = content_live r v x m get in
    let view : rib_view r m.key_prefix ≡ some c = rib_view_at r v m.key_prefix x m get refl ∙ has in
    let found =
      find_prefix_at r.next_address r.prefixes r.prefix_table v.by_prefix m.key_prefix x m get
        refl in
    let (r', run, done) =
      forget_prefix_lem (noted withdraw r) (noted-IsValid withdraw r v)
        (noted-IsSmall withdraw r small) x m get n at in
    (
      r',
      rw (found, get, view, run) refl,
      record {
        valid = done.valid;
        gone = done.gone;
        others = λ q ne. done.others q ne ∙ noted_view withdraw r q;
        few_prefixes = done.few_prefixes;
        few_attributes = done.few_attributes;
        same_size = done.same_size;
      },
    )

-- On a valid RIB of fewer than 2 ^ 16 prefixes and 2 ^ 32 attribute nodes a withdrawal succeeds:
-- the prefix has no route afterwards, every other prefix has the route that it had, the RIB stays
-- valid, and the label is a duplicate withdrawal exactly where there was no route.
pub apply_unreachable_prefix_lem :
    (p : Prefix) (r : Rib) (bmf : Option Bmf)
    → IsValid r
    → IsSmall r
    → (r' : Rib) × (apply_unreachable_prefix p r bmf
        ≡ ok (r', labelled bmf (withdraw_label (rib_view r p))))
      × Withdrawn p r r'
unfolding apply_unreachable_prefix withdraw_found
apply_unreachable_prefix_lem p r bmf v small =
    elim (find_prefix_lem r.next_address r.prefixes r.prefix_table v.by_prefix p) [
      | inr (missing, none_of) ↦
          let r' : Rib = noted withdraw_duplicate r in
          let view : rib_view r p ≡ none = rib_view_absent r v p none_of in
          (
            r',
            rw (missing, view) refl,
            record {
              valid = noted-IsValid withdraw_duplicate r v;
              gone = noted_view withdraw_duplicate r p ∙ view;
              others = λ q ne. noted_view withdraw_duplicate r q;
              few_prefixes = omega arith;
              few_attributes = omega arith;
              same_size = refl;
            },
          )
      | inl (x, m, found, get, e) ↦ subst (WithdrawGoal r bmf) e (withdraw_at r bmf v small x m get)
    ]
