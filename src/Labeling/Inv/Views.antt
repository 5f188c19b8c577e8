-- ===== src/Labeling/Inv/Views.antt =====
-- The view of a valid RIB: what a walk finds, and when two RIBs say the same of a prefix.
use native.Mathlib.Decide.{ℕ_discrete}
use bgpmon.Base.{ℕ, ◌≡◌, ◌≢◌, refl, sym, ap, ◌∙◌, List, none, some, inl, inr, Option-cases}
use bgpmon.Labeling.Heap.{Heap, load, store}
use bgpmon.Labeling.Heaps.{load-store_self, load-store_ne}
use bgpmon.Labeling.State.{Prefix, PrefixNode, AsPath, AttrNode, Rib}
use bgpmon.Labeling.View.{
  rib_view, content, node_content, path_content, prefix_content, found_content, Content,
}
use bgpmon.Labeling.Inv.{IsValid}
use bgpmon.Labeling.Inv.Walk.{find_prefix_lem, find_prefix_at, find_prefix_absent}
use bgpmon.Labeling.Inv.Unused.{Kept}

module _ (r : Rib) (v : IsValid r) (p : Prefix) where
  pub rib_view_at :
      (x : ℕ) (m : PrefixNode)
      → load r.prefixes x ≡ some m
      → m.key_prefix ≡ p
      → rib_view r p ≡ content r m.data_attr
  unfolding rib_view
  rib_view_at x m get e =
      ap (found_content r)
        (find_prefix_at r.next_address r.prefixes r.prefix_table v.by_prefix p x m get e)
      ∙ ap (prefix_content r) get

  pub rib_view_absent :
      ((x : ℕ) (m : PrefixNode) → load r.prefixes x ≡ some m → m.key_prefix ≢ p)
      → rib_view r p ≡ none
  unfolding rib_view
  rib_view_absent none_of =
      ap (found_content r)
        (find_prefix_absent r.next_address r.prefixes r.prefix_table v.by_prefix p none_of)

-- The attribute node of a prefix has contents.
pub content_live :
    (r : Rib) (v : IsValid r) (x : ℕ) (m : PrefixNode)
    → load r.prefixes x ≡ some m
    → (c : Content) × (content r m.data_attr ≡ some c)
content_live r v x m get =
    let (n, at) = v.by_attr.live x m get in
    let (p, path, home) = v.by_attr.bucket m.data_attr n at in
    ((p.as_path_data, n.attr), ap (node_content r.paths) at ∙ ap (λ o. path_content o n.attr) path)

-- Two RIBs whose nodes for a prefix correspond say the same of it.
pub rib_view_same :
    (r r' : Rib) (p : Prefix)
    → IsValid r
    → IsValid r'
    → ((y : ℕ) (k : PrefixNode)
        → load r.prefixes y ≡ some k
        → k.key_prefix ≡ p
        → (k' : PrefixNode) × (load r'.prefixes y ≡ some k')
          × (k'.key_prefix ≡ p)
          × (content r' k'.data_attr ≡ content r k.data_attr))
    → ((y : ℕ) (k : PrefixNode)
        → load r'.prefixes y ≡ some k
        → k.key_prefix ≡ p
        → (k' : PrefixNode) × (load r.prefixes y ≡ some k') × (k'.key_prefix ≡ p))
    → rib_view r' p ≡ rib_view r p
rib_view_same r r' p v v' there back =
    elim (find_prefix_lem r.next_address r.prefixes r.prefix_table v.by_prefix p) [
      | inl (y, k, found, get, e) ↦
          let (k', get', e', same) = there y k get e in
          rib_view_at r' v' p y k' get' e' ∙ same ∙ sym (rib_view_at r v p y k get e)
      | inr (missing, none_of) ↦
          rib_view_absent r' v' p
            (λ y k get e. let (k', get', e') = back y k get e in none_of y k' get' e')
          ∙ sym (rib_view_absent r v p none_of)
    ]

-- A change of the references of a node leaves the contents of all.
pub content_store :
    (paths : Heap AsPath) (attrs : Heap AttrNode) (a b : ℕ) (n : AttrNode) (c : ℕ) (l : List ℕ)
    → load attrs a ≡ some n
    → node_content paths (load (store attrs a (record n { ref_count = c; prefix_ref_node = l })) b)
      ≡ node_content paths (load attrs b)
content_store paths attrs a b n c l at = elim (ℕ_discrete b a) [
  | yes e ↦
      rw (e, load-store_self attrs a n (record n { ref_count = c; prefix_ref_node = l }) at, at)
        refl
  | no ne ↦ rw (load-store_ne attrs a b (record n { ref_count = c; prefix_ref_node = l }) ne) refl
]

-- A node that is kept keeps its contents.
pub content-Kept :
    (h : Heap PrefixNode) (r : Rib) (a : ℕ) (r' : Rib)
    → Kept h r a r'
    → (b : ℕ) → load r'.attributes b ≡ load r.attributes b
    → content r' b ≡ content r b
content-Kept h r a r' k b same = elim (Option-cases (load r'.attributes b)) [
  | inl gone ↦ rw (gone, sym same ∙ gone) refl
  | inr (n, get) ↦
      let (u, got, home) = k.side.bucket b n get in
      let (w, was, alike) = k.same_paths n.as_path u got in
      rw (get, sym same ∙ get, got, was, alike) refl
]
