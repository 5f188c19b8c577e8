-- ===== src/Labeling/Inv/Collect.antt =====
-- An attribute node that no prefix has is removed (removeAttrNode in Labeling/rtable.c).
use native.Mathlib.Decide.{ℕ_discrete}
use bgpmon.Base.{
  ℕ, ◌+◌, ◌<◌, ◌≡◌, ◌≢◌, ◌%◌, ◌^◌, refl, sym, ap, ◌∙◌, none, some, arith, if◌then◌else◌, ◌==◌,
  length, if_elim,
}
use bgpmon.Labeling.Heap.{Heap, one, load, store, free, Unique, occurs}
use bgpmon.Labeling.Heaps.{
  load-store_self, load-store_ne, load-free_self, load-free_ne, load-free_back, count_if-free,
  count_if-one, eq_self, eq_ne, store-Unique, free-Unique, count_if-length,
}
use bgpmon.Labeling.Hash.{attr_hash}
use bgpmon.Labeling.State.{PrefixNode, AsPath, AttrNode, Table, minus}
use bgpmon.Labeling.Table.{unlink}
use bgpmon.Labeling.Inv.{AttrSide, users, sharers, attr_home}
use bgpmon.Labeling.Inv.Buckets.{unlink_self, unlink_ne}

module _ (h : Heap PrefixNode) (next : ℕ) (attrs : Heap AttrNode) (paths : Heap AsPath) (t : Table)
    (v : AttrSide h next attrs paths t) (few : length attrs < 2 ^ 32) (a : ℕ) (n : AttrNode)
    (at : load attrs a ≡ some n) (unused : users h a ≡ 0) (p : AsPath)
    (path : load paths n.as_path ≡ some p) where
  abbrev c : ℕ
  c = minus 32 p.ref_count 1

  abbrev pub old_bucket : ℕ
  old_bucket = attr_hash p.as_path_data t.table_size

  abbrev pub attrs_left : Heap AttrNode
  attrs_left = free attrs a

  abbrev pub paths_left : Heap AsPath
  paths_left =
      if c == 0 then free paths n.as_path else store paths n.as_path (record p { ref_count = c })

  abbrev pub table_left : Table
  table_left = unlink old_bucket a t

  fewer : sharers attrs_left n.as_path + 1 ≡ sharers attrs n.as_path
  fewer =
      omega (
        arith,
        count_if-free (λ k. k.as_path == n.as_path) attrs a n at,
        ap one (eq_self n.as_path),
      )

  c_counts : c ≡ sharers attrs_left n.as_path
  c_counts = omega (
    arith,
    v.path_count n.as_path p path,
    fewer,
    few,
    count_if-length (λ k. k.as_path == n.as_path) attrs,
  )

  path_kept : (s : ℕ) → s ≢ n.as_path → load paths_left s ≡ load paths s
  path_kept s ne =
      if_elim (λ ps. load ps s ≡ load paths s) (c == 0) (λ _. load-free_ne paths n.as_path s ne)
        (λ _. load-store_ne paths n.as_path s (record p { ref_count = c }) ne)

  path_shared : c ≢ 0 → load paths_left n.as_path ≡ some (record p { ref_count = c })
  path_shared pos =
      rw (eq_ne c 0 pos) (load-store_self paths n.as_path p (record p { ref_count = c }) path)

  path_gone : c ≡ 0 → load paths_left n.as_path ≡ none
  path_gone e = rw e (load-free_self paths n.as_path v.unique_path)

  -- An AS path that is left was there, with the same bytes and number.
  pub path_before :
      (s : ℕ) (u : AsPath)
      → load paths_left s ≡ some u
      → (w : AsPath) × (load paths s ≡ some w) × (u ≡ record w { ref_count = u.ref_count })
  path_before s u get = elim (ℕ_discrete s n.as_path) [
    | no ne ↦ (u, sym (path_kept s ne) ∙ get, refl)
    | yes e ↦ elim (ℕ_discrete c 0) [
      | yes z ↦ absurd (let gone = path_gone z in cc)
      | no pos ↦
          let same : u ≡ record p { ref_count = c } = let here = path_shared pos in cc in
          (p, ap (load paths) e ∙ path, rw same refl)
    ]
  ]

  -- The AS path of a node that is left is left.
  pub path_after :
      (b : ℕ) (m : AttrNode) (w : AsPath)
      → load attrs_left b ≡ some m
      → load paths m.as_path ≡ some w
      → (u : AsPath) × (load paths_left m.as_path ≡ some u)
        × (u ≡ record w { ref_count = u.ref_count })
  path_after b m w left get = elim (ℕ_discrete m.as_path n.as_path) [
    | no ne ↦ (w, path_kept m.as_path ne ∙ get, refl)
    | yes e ↦
        let still : 0 < sharers attrs_left n.as_path = omega (
          arith,
          count_if-one (λ k. k.as_path == n.as_path) attrs_left b m left,
          ap one (ap (λ q. q == n.as_path) e ∙ eq_self n.as_path),
        ) in
        let pos : c ≢ 0 = λ z. absurd (omega (arith, z, still, c_counts)) in
        let same : w ≡ p = let both = ap (load paths) e in cc in
        (
          record p { ref_count = c },
          ap (load paths_left) e ∙ path_shared pos,
          ap {A = AsPath} (λ q. record q { ref_count = c }) (sym same),
        )
  ]

  was : (b : ℕ) (m : AttrNode) → load attrs_left b ≡ some m → (b ≢ a) × (load attrs b ≡ some m)
  was b m left = load-free_back attrs a b m v.unique_attr left

  home : n.bucket_index ≡ old_bucket
  home =
      let (q, get, e) = v.bucket a n at in
      let same : q ≡ p = cc in e ∙ ap (λ w. attr_hash w.as_path_data t.table_size) same

  pub once : occurs a (t.entries old_bucket).node ≡ 1
  once =
      v.chain old_bucket a
      ∙ ap (λ o. attr_home o old_bucket) at
      ∙ ap one (ap (λ i. i == old_bucket) home ∙ eq_self old_bucket)

  new_chain : (i b : ℕ) → occurs b (table_left.entries i).node ≡ attr_home (load attrs_left b) i
  new_chain i b = elim (ℕ_discrete b a) [
    | yes e ↦
        rw (e, load-free_self attrs a v.unique_attr)
          (unlink_self old_bucket a t i once (λ ne.
            v.chain i a
            ∙ ap (λ o. attr_home o i) at
            ∙ ap one (eq_ne n.bucket_index i (λ q. ne (sym q ∙ home)))))
    | no ne ↦ rw (load-free_ne attrs a b ne) (unlink_ne old_bucket a t i b ne ∙ v.chain i b)
  ]

  attr_none : (b : ℕ) → load attrs b ≡ none → load attrs_left b ≡ none
  attr_none b gone = let ne : b ≢ a = λ e. cc in load-free_ne attrs a b ne ∙ gone

  path_none : (s : ℕ) → load paths s ≡ none → load paths_left s ≡ none
  path_none s gone = let ne : s ≢ n.as_path = λ e. cc in path_kept s ne ∙ gone

  new_idle : (b : ℕ) → load attrs_left b ≡ none → users h b ≡ 0
  new_idle b gone = elim (ℕ_discrete b a) [
    | yes e ↦ rw e unused
    | no ne ↦ v.idle b (sym (load-free_ne attrs a b ne) ∙ gone)
  ]

  pub in_use : (x : ℕ) (m : PrefixNode) → load h x ≡ some m → m.data_attr ≢ a
  in_use x m get e = absurd (
      omega (
        arith,
        count_if-one (λ k. k.data_attr == a) h x m get,
        ap one (ap (λ b. b == a) e ∙ eq_self a),
        unused,
      ))

  new_live :
      (x : ℕ) (m : PrefixNode)
      → load h x ≡ some m
      → (k : AttrNode) × (load attrs_left m.data_attr ≡ some k)
  new_live x m get =
      let (k, old) = v.live x m get in (k, load-free_ne attrs a m.data_attr (in_use x m get) ∙ old)

  new_bucket :
      (b : ℕ) (m : AttrNode)
      → load attrs_left b ≡ some m
      → (u : AsPath) × (load paths_left m.as_path ≡ some u)
        × (m.bucket_index ≡ attr_hash u.as_path_data t.table_size)
  new_bucket b m left =
      let (w, get, e) = v.bucket b m (was b m left).1 in
      let (u, got, same) = path_after b m w left get in
      (u, got, e ∙ ap (λ q. attr_hash q.as_path_data t.table_size) (sym same))

  new_path_count :
      (s : ℕ) (u : AsPath)
      → load paths_left s ≡ some u
      → u.ref_count ≡ sharers attrs_left s % 2 ^ 32
  new_path_count s u get = elim (ℕ_discrete s n.as_path) [
    | yes e ↦ elim (ℕ_discrete c 0) [
      | yes z ↦ absurd (let gone = path_gone z in cc)
      | no pos ↦
          let same : u ≡ record p { ref_count = c } = let here = path_shared pos in cc in
          rw (same, e) (omega (arith, c_counts))
    ]
    | no ne ↦ omega (
      arith,
      v.path_count s u (sym (path_kept s ne) ∙ get),
      count_if-free (λ k. k.as_path == s) attrs a n at,
      ap one (eq_ne n.as_path s (λ e. ne (sym e))),
    )
  ]

  new_distinct :
      (b d : ℕ) (m k : AttrNode) (q w : AsPath)
      → load attrs_left b ≡ some m
      → load attrs_left d ≡ some k
      → load paths_left m.as_path ≡ some q
      → load paths_left k.as_path ≡ some w
      → q.as_path_data ≡ w.as_path_data
      → m.attr ≡ k.attr
      → b ≡ d
  new_distinct b d m k q w get_m get_k get_q get_w same_path same_attr =
      let (q', old_q, same_q) = path_before m.as_path q get_q in
      let (w', old_w, same_w) = path_before k.as_path w get_w in
      v.distinct b d m k q' w' (was b m get_m).1 (was d k get_k).1 old_q old_w
        (ap (λ z. z.as_path_data) (sym same_q) ∙ same_path ∙ ap (λ z. z.as_path_data) same_w)
        same_attr

  pub left-AttrSide : AttrSide h next attrs_left paths_left table_left
  unfolding unlink
  left-AttrSide = record {
    next_attr = λ b le. attr_none b (v.next_attr b le);
    next_path = λ s le. path_none s (v.next_path s le);
    unique_attr = free-Unique attrs a v.unique_attr;
    unique_path =
        if_elim Unique (c == 0) (λ _. free-Unique paths n.as_path v.unique_path)
          (λ _. store-Unique paths n.as_path (record p { ref_count = c }) v.unique_path);
    chain = new_chain;
    refs = λ b m left. v.refs b m (was b m left).1;
    counts = λ b m left. v.counts b m (was b m left).1;
    idle = new_idle;
    live = new_live;
    bucket = new_bucket;
    path_count = new_path_count;
    ids = λ s u get.
        let (w, old, same) = path_before s u get in ap (λ z. z.as_path_id) same ∙ v.ids s w old;
    sized = λ b m left. v.sized b m (was b m left).1;
    distinct = new_distinct;
  }
