-- ===== src/Labeling/Inv/NewPath.antt =====
-- A new AS path, before an attribute node has it (searchAttrNode in Labeling/rtable.c).

use bgpmon.Base.{ℕ, ◌+◌, ◌≡◌, ◌≢◌, refl, ap, ◌∙◌, List, ◌∷◌, none, some, arith, ◌==◌, inl, inr}
use bgpmon.Labeling.Heap.{Heap, load}
use bgpmon.Labeling.Heaps.{eq_ne, load-new_ne, load-new_back, count_if-none}
use bgpmon.Labeling.State.{PrefixNode, AsPath, AttrNode, Table}
use bgpmon.Labeling.Inv.{AttrSide, sharers}

module _ (h : Heap PrefixNode) (next : ℕ) (attrs : Heap AttrNode) (paths : Heap AsPath) (t : Table)
    (v : AttrSide h next attrs paths t) (path : List ℕ) where
  abbrev pub new_path : AsPath
  new_path = record { as_path_data = path; as_path_id = 0; ref_count = 0 }

  abbrev pub more_paths : Heap AsPath
  more_paths = (next, new_path) ∷ paths

  unused : sharers attrs next ≡ 0
  unused =
      count_if-none (λ n. n.as_path == next) attrs v.unique_attr
        (λ a n get.
          let (p, old, home) = v.bucket a n get in
          let gone : load paths next ≡ none = v.next_path next (omega arith) in
          eq_ne n.as_path next (λ e. absurd (let same = ap (load paths) e in cc)))

  pub older : (s : ℕ) (p : AsPath) → load paths s ≡ some p → load more_paths s ≡ some p
  older s p get =
      let gone : load paths next ≡ none = v.next_path next (omega arith) in
      let ne : s ≢ next = λ e. absurd (let same = ap (load paths) e in cc) in
      load-new_ne paths next s new_path ne ∙ get

  pub same_data :
      (b : ℕ) (m : AttrNode) (p : AsPath)
      → load attrs b ≡ some m
      → load more_paths m.as_path ≡ some p
      → load paths m.as_path ≡ some p
  same_data b m p get found =
      let (q, old, home) = v.bucket b m get in let new = older m.as_path q old in cc

  pub more_paths-AttrSide : AttrSide h (next + 1) attrs more_paths t
  more_paths-AttrSide = record {
    next_attr = λ a le. v.next_attr a (omega arith);
    next_path = λ s le.
        load-new_ne paths next s new_path (λ e. absurd (omega (arith, e)))
        ∙ v.next_path s (omega arith);
    unique_attr = v.unique_attr;
    unique_path = (v.next_path next (omega arith), v.unique_path);
    chain = v.chain;
    refs = v.refs;
    counts = v.counts;
    idle = v.idle;
    live = v.live;
    bucket = λ a n get. let (p, old, home) = v.bucket a n get in (p, older n.as_path p old, home);
    path_count = λ s p get. elim (load-new_back paths next s new_path p get) [
      | inl (e, same) ↦ rw (same, e) (omega (arith, unused))
      | inr (ne, old) ↦ v.path_count s p old
    ];
    ids = λ s p get. elim (load-new_back paths next s new_path p get) [
      | inl (e, same) ↦ rw same refl
      | inr (ne, old) ↦ v.ids s p old
    ];
    sized = v.sized;
    distinct = λ a b n m p q get_n get_m get_p get_q.
        v.distinct a b n m p q get_n get_m (same_data a n p get_n get_p)
          (same_data b m q get_m get_q);
  }
