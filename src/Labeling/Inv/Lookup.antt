-- ===== src/Labeling/Inv/Lookup.antt =====
-- The attribute node of an update, found or made (searchAttrNode in Labeling/rtable.c).

use bgpmon.Base.{
  ℕ, ◌+◌, ◌<◌, ◌≡◌, ◌≢◌, refl, ap, subst, ◌∙◌, List, ◌∷◌, none, some, arith, ◌==◌, Result, ok,
}
use bgpmon.Labeling.Heap.{Heap, one, load, occurs}
use bgpmon.Labeling.Heaps.{eq_self, load-new_self}
use bgpmon.Labeling.Hash.{attr_hash}
use bgpmon.Labeling.State.{PrefixNode, AsPath, AttrNode, Rib}
use bgpmon.Labeling.Attributes.{
  Attribute, Search, hit, miss, after_search, create_attr_node, search_attr_node,
}
use bgpmon.Labeling.View.{content, node_content, path_content, content_back, Content}
use bgpmon.Labeling.Inv.{AttrSide, attr_home}
use bgpmon.Labeling.Inv.Search.{search_from_lem, Answers}
use bgpmon.Labeling.Inv.NewPath.{more_paths-AttrSide, older, same_data}
use bgpmon.Labeling.Inv.Made.{Searched, create_attr_node_lem}

module _ (h : Heap PrefixNode) (r : Rib)
    (v : AttrSide h r.next_address r.attributes r.paths r.attribute_table) (path : List ℕ)
    (attribute : Attribute) where
  abbrev bucket : ℕ
  bucket = attr_hash path r.attribute_table.table_size

  abbrev Done : Result (ℕ × Rib) → Type 0
  Done s = (a : ℕ) × (r' : Rib) × (s ≡ ok (a, r')) × Searched h r path attribute.bytes a r'

  -- A node with these contents would stand in the bucket that was searched.
  in_bucket :
      (b : ℕ)
      → content r b ≡ some (path, attribute.bytes)
      → 0 < occurs b (r.attribute_table.entries bucket).node
  in_bucket b same =
      let (n, get, p, get_p, is_path, is_attr) =
        content_back r.paths (load r.attributes b) path attribute.bytes same in
      let (q, get_q, home) = v.bucket b n get in
      let same_path : q ≡ p = cc in
      let here : n.bucket_index ≡ bucket =
        home
        ∙ ap (λ z. attr_hash z.as_path_data r.attribute_table.table_size) same_path
        ∙ ap (λ z. attr_hash z r.attribute_table.table_size) is_path in
      let counted : attr_home (load r.attributes b) bucket ≡ 1 =
        ap (λ o. attr_home o bucket) get ∙ ap one (ap (λ i. i == bucket) here ∙ eq_self bucket) in
      omega (arith, v.chain bucket b, counted)

  live : (b : ℕ) → 0 < occurs b (r.attribute_table.entries bucket).node → load r.attributes b ≢ none
  live b there gone =
      absurd (omega (arith, there, v.chain bucket b, ap (λ o. attr_home o bucket) gone))

  made_new :
      (q : ℕ) (p : AsPath)
      → load r.paths q ≡ some p
      → p.as_path_data ≡ path
      → ((a : ℕ) → content r a ≢ some (path, attribute.bytes))
      → Done (ok (create_attr_node bucket q p attribute r))
  made_new q p there is_path no_match =
      let fresh : (b : ℕ) (m : AttrNode) (u : AsPath)
          → load r.attributes b ≡ some m
          → load r.paths m.as_path ≡ some u
          → u.as_path_data ≡ p.as_path_data
          → m.attr ≢ attribute.bytes =
        λ b m u get_m get_u same_path same_attr.
          let is_u = same_path ∙ is_path in
          no_match b (
            ap (node_content r.paths) get_m
            ∙ ap (λ o. path_content o m.attr) get_u
            ∙ rw (is_u, same_attr) refl) in
      let create : List ℕ → ℕ × Rib =
        λ d. create_attr_node (attr_hash d r.attribute_table.table_size) q p attribute r in
      (
        (create path).0,
        (create path).1,
        refl,
        subst (λ d. Searched h r d attribute.bytes (create d).0 (create d).1) is_path
            (create_attr_node_lem h r v q p there attribute fresh),
      )

module _ (h : Heap PrefixNode) (r : Rib)
    (v : AttrSide h r.next_address r.attributes r.paths r.attribute_table) (path : List ℕ)
    (attribute : Attribute) where
  abbrev fresh_path : AsPath
  fresh_path = record { as_path_data = path; as_path_id = 0; ref_count = 0 }

  abbrev with_path : Rib
  with_path = record r {
    next_address = r.next_address + 1;
    paths = (r.next_address, fresh_path) ∷ r.paths;
  }

  with_path-AttrSide :
      AttrSide h with_path.next_address with_path.attributes with_path.paths
        with_path.attribute_table
  with_path-AttrSide =
      more_paths-AttrSide h r.next_address r.attributes r.paths r.attribute_table v path

  content_older : (b : ℕ) (c : Content) → content r b ≡ some c → content with_path b ≡ some c
  content_older b c same =
      let (n, get, p, get_p, is_path, is_attr) =
        content_back r.paths (load r.attributes b) c.0 c.1 same in
      let still =
        older h r.next_address r.attributes r.paths r.attribute_table v path n.as_path p get_p in
      ap (node_content with_path.paths) get
      ∙ ap (λ o. path_content o n.attr) still
      ∙ rw (is_path, is_attr) refl

  content_newer : (b : ℕ) (c : Content) → content with_path b ≡ some c → content r b ≡ some c
  content_newer b c same =
      let (n, get, p, get_p, is_path, is_attr) =
        content_back with_path.paths (load r.attributes b) c.0 c.1 same in
      let was =
        same_data h r.next_address r.attributes r.paths r.attribute_table v path b n p get get_p in
      ap (node_content r.paths) get
      ∙ ap (λ o. path_content o n.attr) was
      ∙ rw (is_path, is_attr) refl

  from_path :
      (a : ℕ) (r' : Rib)
      → Searched h with_path path attribute.bytes a r'
      → Searched h r path attribute.bytes a r'
  from_path a r' s = record {
    side = s.side;
    grows = omega (arith, s.grows);
    same_prefixes = s.same_prefixes;
    same_table = s.same_table;
    has = s.has;
    kept = s.kept;
    kept_content = λ b c same. s.kept_content b c (content_older b c same);
    same_size = s.same_size;
    fewer = s.fewer;
  }

  unchanged :
      (a : ℕ) → content r a ≡ some (path, attribute.bytes) → Searched h r path attribute.bytes a r
  unchanged a has = record {
    side = v;
    grows = omega arith;
    same_prefixes = refl;
    same_table = refl;
    has = has;
    kept = λ b n get. get;
    kept_content = λ b c same. same;
    same_size = refl;
    fewer = omega arith;
  }

  after :
      (o : Search)
      → Answers h r v path attribute.bytes
          (r.attribute_table.entries (bucket h r v path attribute)).node
          o
      → Done h r v path attribute (after_search (bucket h r v path attribute) path attribute r o)
  unfolding after_search
  after (hit a) has = (a, r, refl, unchanged a has)
  after (miss (some b) i) (z, c, none_of) =
      let (n, get, p, get_p, is_path) = c in
      rw (get, get_p)
        (made_new h r v path attribute n.as_path p get_p is_path
          (λ a same. none_of a (in_bucket h r v path attribute a same) same))
  after (miss none i) (z, c, none_of) = rw z (
      let (a, r', e, s) =
        made_new h with_path with_path-AttrSide path attribute r.next_address fresh_path
          (load-new_self r.paths r.next_address fresh_path) refl
          (λ a same.
            let old = content_newer a (path, attribute.bytes) same in
            none_of a (in_bucket h r v path attribute a old) old) in
      (a, r', e, from_path a r' s))

  -- On a valid attribute table searchAttrNode returns a node with the AS path and attributes that
  -- are looked for, the one that has them or a new one; the table stays valid, with no two nodes
  -- alike, and all other nodes keep their contents.
  pub search_attr_node_lem :
      (a : ℕ) × (r' : Rib) × (search_attr_node path attribute r ≡ ok (a, r'))
      × Searched h r path attribute.bytes a r'
  unfolding search_attr_node
  search_attr_node_lem =
      let i = bucket h r v path attribute in
      let (o, e, answers) =
        search_from_lem h r v path attribute.bytes (r.attribute_table.entries i).node none
          (live h r v path attribute) tt in
      rw e (after o answers)
