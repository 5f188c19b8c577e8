-- ===== src/Labeling/Inv/Fresh.antt =====
-- The announcement of a prefix that is not in the table (applyReachablePrefix in Labeling/rtable.c).

use bgpmon.Base.{
  ℕ, ◌+◌, ◌≤◌, ◌≡◌, ◌≢◌, refl, sym, ap, ◌∙◌, ◌∷◌, none, some, arith, length, inl, inr, ok,
}
use bgpmon.Labeling.Heap.{Heap, load}
use bgpmon.Labeling.Heaps.{load-new_self, load-new_ne, load-new_back, length-store}
use bgpmon.Labeling.State.{
  Prefix, PrefixNode, AsPath, AttrNode, Rib, Table, plus, used, prefix_size, size_prefix_node,
  prefix_bytes,
}
use bgpmon.Labeling.Hash.{prefix_hash}
use bgpmon.Labeling.Table.{link}
use bgpmon.Labeling.Prefixes.{announce_unknown}
use bgpmon.Labeling.View.{rib_view, content, Content}
use bgpmon.Labeling.Inv.{AttrSide, IsValid}
use bgpmon.Labeling.Inv.Prefixes.{more-PrefixSide}
use bgpmon.Labeling.Inv.Views.{rib_view_at, rib_view_same, content_store}
use bgpmon.Labeling.Inv.Attach.{attach_lem, attached, attached-AttrSide}

-- The prefix has the contents c, which are those of the node at a, and nothing else has changed.
pub record Announced (p : Prefix) (a : ℕ) (c : Content) (r r' : Rib) : Type 0 where
  pub valid : IsValid r'
  pub says : rib_view r' p ≡ some c
  pub keeps : content r' a ≡ some c
  pub others : (q : Prefix) → q ≢ p → rib_view r' q ≡ rib_view r q
  pub few_prefixes : length r'.prefixes ≤ length r.prefixes + 1
  pub few_attributes : length r'.attributes ≤ length r.attributes
  pub same_size : r'.attribute_table.table_size ≡ r.attribute_table.table_size

pub AttrSide-mono :
    (h : Heap PrefixNode) (next next' : ℕ) (attrs : Heap AttrNode) (paths : Heap AsPath) (t : Table)
    → next ≤ next'
    → AttrSide h next attrs paths t
    → AttrSide h next' attrs paths t
AttrSide-mono h next next' attrs paths t le v = record {
  next_attr = λ a le'. v.next_attr a (omega (arith, le, le'));
  next_path = λ s le'. v.next_path s (omega (arith, le, le'));
  unique_attr = v.unique_attr;
  unique_path = v.unique_path;
  chain = v.chain;
  refs = v.refs;
  counts = v.counts;
  idle = v.idle;
  live = v.live;
  bucket = v.bucket;
  path_count = v.path_count;
  ids = v.ids;
  sized = v.sized;
  distinct = v.distinct;
}

module _ (r : Rib) (v : IsValid r) (p : Prefix) (a ts : ℕ) (n : AttrNode)
    (at : load r.attributes a ≡ some n)
    (fresh : (y : ℕ) (k : PrefixNode) → load r.prefixes y ≡ some k → k.key_prefix ≢ p) where
  abbrev x : ℕ
  x = r.next_address

  abbrev node : PrefixNode
  node = record { data_attr = a; originated_ts = ts; key_prefix = p }

  abbrev i : ℕ
  i = prefix_hash (prefix_bytes p) r.prefix_table.table_size

  abbrev allocated : Rib
  allocated =
      used (size_prefix_node + prefix_size p.p_len)
        (record r { next_address = x + 1; prefixes = (x, node) ∷ r.prefixes })

  side : AttrSide r.prefixes (x + 1) r.attributes r.paths r.attribute_table
  side =
      AttrSide-mono r.prefixes x (x + 1) r.attributes r.paths r.attribute_table (omega arith)
        v.by_attr

  absent : load r.prefixes x ≡ none
  absent = v.by_prefix.next_prefix x (omega arith)

  abbrev after : Rib
  after =
      attached r.prefixes ((x, node) ∷ r.prefixes) allocated side x node n at absent
        (load-new_self r.prefixes x node) (λ y ne. load-new_ne r.prefixes x y node ne) (λ b. refl)

  abbrev entered : Rib
  entered = record after {
    prefix_table = link i x after.prefix_table;
    stats = record after.stats { prefix_count = plus 32 after.stats.prefix_count 1 };
  }

  announce_unknown_run : announce_unknown p a ts i r ≡ ok entered
  unfolding announce_unknown
  announce_unknown_run =
      rw
        (attach_lem r.prefixes ((x, node) ∷ r.prefixes) allocated side x node n at absent
          (load-new_self r.prefixes x node) (λ y ne. load-new_ne r.prefixes x y node ne)
          (λ b. refl))
        refl

  entered-IsValid : IsValid entered
  entered-IsValid = record {
    by_prefix = more-PrefixSide x r.prefixes r.prefix_table v.by_prefix node fresh;
    by_attr =
        attached-AttrSide r.prefixes ((x, node) ∷ r.prefixes) allocated side x node n at absent
          (load-new_self r.prefixes x node) (λ y ne. load-new_ne r.prefixes x y node ne)
          (λ b. refl);
  }

  same_content : (b : ℕ) → content entered b ≡ content r b
  same_content b =
      content_store r.paths r.attributes a b n (plus 16 n.ref_count 1) (x ∷ n.prefix_ref_node) at

  pub announce_unknown_lem :
      (c : Content)
      → content r a ≡ some c
      → (r' : Rib) × (announce_unknown p a ts i r ≡ ok r') × Announced p a c r r'
  announce_unknown_lem c has = (
    entered,
    announce_unknown_run,
    record {
      valid = entered-IsValid;
      says =
          rib_view_at entered entered-IsValid p x node (load-new_self r.prefixes x node) refl
          ∙ same_content a
          ∙ has;
      keeps = same_content a ∙ has;
      others = λ q ne.
          rib_view_same r entered q v entered-IsValid
            (λ y k get e.
              let ne' : y ≢ x =
                λ same. absurd (let both = ap (load r.prefixes) same in let gone = absent in cc) in
              (k, load-new_ne r.prefixes x y node ne' ∙ get, e, same_content k.data_attr))
            (λ y k get e. elim (load-new_back r.prefixes x y node k get) [
              | inl (same, is_node) ↦ absurd (ne (sym e ∙ ap (λ z. z.key_prefix) is_node))
              | inr (ne', old) ↦ (k, old, e)
            ]);
      few_prefixes = omega arith;
      few_attributes = omega (
        arith,
        length-store r.attributes a (record n {
          ref_count = plus 16 n.ref_count 1;
          prefix_ref_node = x ∷ n.prefix_ref_node;
        }),
      );
      same_size = refl;
    },
  )
