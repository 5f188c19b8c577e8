-- ===== src/Labeling/Inv/Made.antt =====
-- The RIB with a new attribute node (createAttrNode in Labeling/rtable.c).

use bgpmon.Base.{
  ℕ, ◌+◌, ◌≤◌, ◌≡◌, ◌≢◌, refl, sym, ap, ◌∙◌, List, ◌∷◌, some, arith, length, inl, inr, Option-cases,
}
use bgpmon.Labeling.Heap.{Heap, load}
use bgpmon.Labeling.Heaps.{load-new_self, load-new_ne, load-store_self}
use bgpmon.Labeling.Hash.{attr_hash}
use bgpmon.Labeling.Table.{link}
use bgpmon.Labeling.State.{PrefixNode, AsPath, AttrNode, Rib, plus}
use bgpmon.Labeling.Attributes.{Attribute, create_attr_node}
use bgpmon.Labeling.View.{content, node_content, path_content, Content}
use bgpmon.Labeling.Inv.{AttrSide}
use bgpmon.Labeling.Inv.Create.{more_attrs-AttrSide, new_node, paths', new_path}

-- What holds of the node at a and of the RIB after the search: the node has the contents of the
-- update, and the other nodes have theirs.
pub record Searched (h : Heap PrefixNode) (r : Rib) (path bytes : List ℕ) (a : ℕ) (r' : Rib)
    : Type 0 where
  pub side : AttrSide h r'.next_address r'.attributes r'.paths r'.attribute_table
  pub grows : r.next_address ≤ r'.next_address
  pub same_prefixes : r'.prefixes ≡ r.prefixes
  pub same_table : r'.prefix_table ≡ r.prefix_table
  pub has : content r' a ≡ some (path, bytes)
  pub kept : (b : ℕ) (n : AttrNode) → load r.attributes b ≡ some n → load r'.attributes b ≡ some n
  pub kept_content : (b : ℕ) (c : Content) → content r b ≡ some c → content r' b ≡ some c
  pub same_size : r'.attribute_table.table_size ≡ r.attribute_table.table_size
  pub fewer : length r'.attributes ≤ length r.attributes + 1

module _ (h : Heap PrefixNode) (r : Rib)
    (v : AttrSide h r.next_address r.attributes r.paths r.attribute_table) (q : ℕ) (p : AsPath)
    (there : load r.paths q ≡ some p) (attribute : Attribute)
    (fresh : (b : ℕ) (m : AttrNode) (u : AsPath)
      → load r.attributes b ≡ some m
      → load r.paths m.as_path ≡ some u
      → u.as_path_data ≡ p.as_path_data
      → m.attr ≢ attribute.bytes) where
  abbrev made : ℕ × Rib
  made = create_attr_node (attr_hash p.as_path_data r.attribute_table.table_size) q p attribute r

  abbrev next : ℕ
  next = r.next_address

  abbrev node : AttrNode
  node = new_node h next r.attributes r.paths r.attribute_table v q p there attribute fresh

  old_node :
      (b : ℕ) (n : AttrNode)
      → load r.attributes b ≡ some n
      → load ((next, node) ∷ r.attributes) b ≡ some n
  old_node b n get =
      let ne : b ≢ next = λ e. absurd (let gone = v.next_attr b (omega (arith, e)) in cc) in
      load-new_ne r.attributes next b node ne ∙ get

  paths_content :
      (n : AttrNode) (c : Content)
      → path_content (load r.paths n.as_path) n.attr ≡ some c
      → path_content
          (load
            (paths' h next r.attributes r.paths r.attribute_table v q p there attribute fresh)
            n.as_path)
          n.attr
        ≡ some c
  paths_content n c same = elim (Option-cases (load r.paths n.as_path)) [
    | inl gone ↦ absurd (let wrong = ap (λ o. path_content o n.attr) gone in cc)
    | inr (w, get) ↦
        let (u, got, alike) =
          new_path h next r.attributes r.paths r.attribute_table v q p there attribute fresh
            n.as_path w get in
        ap (λ o. path_content o n.attr) got
        ∙ ap (λ z. path_content (some z) n.attr) alike
        ∙ sym (ap (λ o. path_content o n.attr) get)
        ∙ same
  ]

  abbrev ps : Heap AsPath
  ps = paths' h next r.attributes r.paths r.attribute_table v q p there attribute fresh

  same_content :
      (b : ℕ) (c : Content)
      → content r b ≡ some c
      → node_content ps (load ((next, node) ∷ r.attributes) b) ≡ some c
  same_content b c same = elim (Option-cases (load r.attributes b)) [
    | inl gone ↦ absurd (let wrong = ap (node_content r.paths) gone in cc)
    | inr (n, get) ↦
        ap (node_content ps) (old_node b n get)
        ∙ paths_content n c (ap (node_content r.paths) (sym get) ∙ same)
  ]

  pub create_attr_node_lem : Searched h r p.as_path_data attribute.bytes made.0 made.1
  unfolding create_attr_node link
  create_attr_node_lem = record {
    side =
        more_attrs-AttrSide h next r.attributes r.paths r.attribute_table v q p there attribute
          fresh;
    grows = omega arith;
    same_prefixes = refl;
    same_table = refl;
    has =
        ap (node_content ps) (load-new_self r.attributes next node)
        ∙ ap (λ o. path_content o attribute.bytes)
            (load-store_self r.paths q p (record p { ref_count = plus 32 p.ref_count 1 }) there);
    kept = old_node;
    kept_content = same_content;
    same_size = refl;
    fewer = omega arith;
  }
