-- ===== src/Labeling/Inv/Create.antt =====
-- A new attribute node (createAttrNode in Labeling/rtable.c).
use native.Mathlib.Decide.{ℕ_discrete}
use bgpmon.Base.{
  ℕ, ◌+◌, ◌≡◌, ◌≢◌, ◌%◌, ◌^◌, refl, sym, ap, subst, ◌∙◌, [], ◌∷◌, none, some, arith, length, inl,
  inr, Option-cases,
}
use bgpmon.Labeling.Heap.{Heap, one, load, store, occurs}
use bgpmon.Labeling.Hash.{attr_hash}
use bgpmon.Labeling.Heaps.{
  eq_self, eq_ne, load-new_self, load-new_ne, load-new_back, load-store_self, load-store_ne,
  load-store_back, store-Unique,
}
use bgpmon.Labeling.State.{PrefixNode, AsPath, AttrNode, Table, plus}
use bgpmon.Labeling.Table.{link}
use bgpmon.Labeling.Attributes.{Attribute}
use bgpmon.Labeling.Inv.{AttrSide, points, sharers, attr_home}
use bgpmon.Labeling.Inv.Buckets.{link_here, link_there}

module _ (h : Heap PrefixNode) (next : ℕ) (attrs : Heap AttrNode) (paths : Heap AsPath) (t : Table)
    (v : AttrSide h next attrs paths t) (path : ℕ) (p : AsPath) (there : load paths path ≡ some p)
    (attribute : Attribute)
    (fresh : (b : ℕ) (m : AttrNode) (q : AsPath)
      → load attrs b ≡ some m
      → load paths m.as_path ≡ some q
      → q.as_path_data ≡ p.as_path_data
      → m.attr ≢ attribute.bytes) where
  abbrev bucket : ℕ
  bucket = attr_hash p.as_path_data t.table_size

  abbrev pub new_node : AttrNode
  new_node = record {
    ref_count = 0;
    prefix_ref_node = [];
    as_path = path;
    bucket_index = bucket;
    basic_attr_len = attribute.basic_attrlen;
    total_attr_len = length attribute.bytes;
    attr = attribute.bytes;
  }

  abbrev pub more_attrs : Heap AttrNode
  more_attrs = (next, new_node) ∷ attrs

  abbrev shared : AsPath
  shared = record p { ref_count = plus 32 p.ref_count 1 }

  abbrev pub paths' : Heap AsPath
  paths' = store paths path shared

  pub absent : load attrs next ≡ none
  absent = v.next_attr next (omega arith)

  old_path :
      (s : ℕ) (u : AsPath)
      → load paths' s ≡ some u
      → (w : AsPath) × (load paths s ≡ some w) × (u ≡ record w { ref_count = u.ref_count })
  old_path s u get = elim (load-store_back paths path s p shared u there get) [
    | inl (e, same) ↦ (p, rw e there, rw same refl)
    | inr (ne, old) ↦ (u, old, refl)
  ]

  pub new_path :
      (s : ℕ) (w : AsPath)
      → load paths s ≡ some w
      → (u : AsPath) × (load paths' s ≡ some u) × (u ≡ record w { ref_count = u.ref_count })
  new_path s w get = elim (ℕ_discrete s path) [
    | yes e ↦
        let same : w ≡ p = let both = ap (load paths) e in cc in
        (
          shared,
          ap (load paths') e ∙ load-store_self paths path p shared there,
          ap {A = AsPath} (λ z. record z { ref_count = shared.ref_count }) (sym same),
        )
    | no ne ↦ (w, load-store_ne paths path s shared ne ∙ get, refl)
  ]

  nobody : (x : ℕ) → points (load h x) next ≡ 0
  nobody x = elim (Option-cases (load h x)) [
    | inl gone ↦ ap (λ o. points o next) gone
    | inr (m, get) ↦
        let (n, used) = v.live x m get in
        let ne : m.data_attr ≢ next =
          λ e. absurd (let both = ap (load attrs) e in let none_there = absent in cc) in
        ap (λ o. points o next) get ∙ ap one (eq_ne m.data_attr next ne)
  ]

  old_home : (i : ℕ) → occurs next (t.entries i).node ≡ 0
  old_home i = v.chain i next ∙ ap (λ o. attr_home o i) absent

  new_chain :
      (i b : ℕ) → occurs b ((link bucket next t).entries i).node ≡ attr_home (load more_attrs b) i
  new_chain i b = elim (ℕ_discrete b next) [
    | yes e ↦
        rw (e, load-new_self attrs next new_node)
          (elim (ℕ_discrete i bucket) [
            | yes q ↦ rw q (
                omega (
                  arith,
                  link_here bucket next t next,
                  old_home bucket,
                  ap one (eq_self next),
                  ap one (eq_self bucket),
                ))
            | no ne ↦ omega (
              arith,
              link_there bucket next t i next ne,
              old_home i,
              ap one (eq_ne bucket i (λ q. ne (sym q))),
            )
          ])
    | no ne ↦ rw (load-new_ne attrs next b new_node ne) (elim (ℕ_discrete i bucket) [
      | yes q ↦
          rw q
            (omega (arith, link_here bucket next t b, v.chain bucket b, ap one (eq_ne b next ne)))
      | no ne' ↦ link_there bucket next t i b ne' ∙ v.chain i b
    ])
  ]

  new_count : shared.ref_count ≡ sharers more_attrs path % 2 ^ 32
  new_count = omega (arith, v.path_count path p there, ap one (eq_self path))

  -- No node that was there has the contents of the new one.
  clash :
      (b : ℕ) (m : AttrNode) (q u : AsPath)
      → load attrs b ≡ some m
      → load paths' m.as_path ≡ some q
      → load paths' path ≡ some u
      → q.as_path_data ≡ u.as_path_data
      → m.attr ≢ attribute.bytes
  clash b m q u get_m get_q get_u same_data same_attr =
      let (w, was, alike) = old_path m.as_path q get_q in
      let (z, is_p, alike') = old_path path u get_u in
      let p_is : z ≡ p = cc in
      fresh b m w get_m was
        (ap (λ y. y.as_path_data) (sym alike)
          ∙ same_data
          ∙ ap (λ y. y.as_path_data) alike'
          ∙ ap (λ y. y.as_path_data) p_is)
        same_attr

  new_distinct :
      (a b : ℕ) (n m : AttrNode) (q w : AsPath)
      → load more_attrs a ≡ some n
      → load more_attrs b ≡ some m
      → load paths' n.as_path ≡ some q
      → load paths' m.as_path ≡ some w
      → q.as_path_data ≡ w.as_path_data
      → n.attr ≡ m.attr
      → a ≡ b
  new_distinct a b n m q w get_n get_m get_q get_w same_data same_attr =
      elim (load-new_back attrs next a new_node n get_n) [
        | inl (e, same) ↦ elim (load-new_back attrs next b new_node m get_m) [
          | inl (e', same') ↦ e ∙ sym e'
          | inr (ne, old) ↦ absurd (
              clash b m w q old get_w (ap (λ z. load paths' z.as_path) (sym same) ∙ get_q)
                (sym same_data) (sym same_attr ∙ ap (λ z. z.attr) same))
        ]
        | inr (ne, old) ↦ elim (load-new_back attrs next b new_node m get_m) [
          | inl (e, same) ↦ absurd (
              clash a n q w old get_q (ap (λ z. load paths' z.as_path) (sym same) ∙ get_w) same_data
                (same_attr ∙ ap (λ z. z.attr) same))
          | inr (ne', old') ↦
              let (q', was_q, alike_q) = old_path n.as_path q get_q in
              let (w', was_w, alike_w) = old_path m.as_path w get_w in
              v.distinct a b n m q' w' old old' was_q was_w
                (ap (λ y. y.as_path_data) (sym alike_q)
                  ∙ same_data
                  ∙ ap (λ y. y.as_path_data) alike_w)
                same_attr
        ]
      ]

  pub more_attrs-AttrSide : AttrSide h (next + 1) more_attrs paths' (link bucket next t)
  unfolding link
  more_attrs-AttrSide = record {
    next_attr = λ a le.
        load-new_ne attrs next a new_node (λ e. absurd (omega (arith, e)))
        ∙ v.next_attr a (omega arith);
    next_path = λ s le.
        let gone = v.next_path s (omega arith) in
        let ne : s ≢ path = λ e. absurd (let both = ap (load paths) e in cc) in
        load-store_ne paths path s shared ne ∙ gone;
    unique_attr = (absent, v.unique_attr);
    unique_path = store-Unique paths path shared v.unique_path;
    chain = new_chain;
    refs = λ a n get. elim (load-new_back attrs next a new_node n get) [
      | inl (e, same) ↦ rw (same, e) (λ x. sym (nobody x))
      | inr (ne, old) ↦ v.refs a n old
    ];
    counts = λ a n get. elim (load-new_back attrs next a new_node n get) [
      | inl (e, same) ↦ rw (same, e) (omega (arith, v.idle next absent))
      | inr (ne, old) ↦ v.counts a n old
    ];
    idle = λ a gone. elim (ℕ_discrete a next) [
      | yes e ↦ rw e (v.idle next absent)
      | no ne ↦ v.idle a (sym (load-new_ne attrs next a new_node ne) ∙ gone)
    ];
    live = λ x m get.
        let (n, old) = v.live x m get in
        (
          n,
          load-new_ne attrs next m.data_attr new_node
                (λ e. absurd (let both = ap (load attrs) e in let gone = absent in cc))
              ∙ old,
        );
    bucket = λ a n get. elim (load-new_back attrs next a new_node n get) [
      | inl (e, same) ↦ rw same (
          let (u, got, alike) = new_path path p there in
          (u, got, ap (λ z. attr_hash z.as_path_data t.table_size) (sym alike)))
      | inr (ne, old) ↦
          let (w, was, home) = v.bucket a n old in
          let (u, got, alike) = new_path n.as_path w was in
          (u, got, home ∙ ap (λ z. attr_hash z.as_path_data t.table_size) (sym alike))
    ];
    path_count = λ s u get. elim (load-store_back paths path s p shared u there get) [
      | inl (e, same) ↦
          subst (λ z. u.ref_count ≡ sharers more_attrs z % 2 ^ 32) (sym e)
            (ap (λ z. z.ref_count) same ∙ new_count)
      | inr (ne, old) ↦ omega (arith, v.path_count s u old, ap one (eq_ne path s (λ e. ne (sym e))))
    ];
    ids = λ s u get.
        let (w, was, same) = old_path s u get in ap (λ z. z.as_path_id) same ∙ v.ids s w was;
    sized = λ a n get. elim (load-new_back attrs next a new_node n get) [
      | inl (e, same) ↦ rw same refl
      | inr (ne, old) ↦ v.sized a n old
    ];
    distinct = new_distinct;
  }
