-- ===== src/Labeling/Inv/Moved.antt =====
-- The announcement of new attributes for a prefix of the table (applyReachablePrefix in
-- Labeling/rtable.c).

use bgpmon.Base.{
  ℕ, ◌+◌, ◌≡◌, ◌≢◌, refl, sym, ap, subst, ◌∙◌, ◌∷◌, Option, none, some, arith, ◌==◌, length, inl,
  inr, ok,
}
use bgpmon.Labeling.Heap.{Heap, one, load, store}
use bgpmon.Labeling.Heaps.{
  load-store_self, load-store_ne, load-store_back, load-free_ne, load-free_self, length-store,
  count_if-store, count_if-free,
}
use bgpmon.Labeling.State.{PrefixNode, AttrNode, Rib, plus}
use bgpmon.Labeling.Prefixes.{collect, move_prefix}
use bgpmon.Labeling.View.{content, Content}
use bgpmon.Labeling.Inv.{AttrSide, IsValid, IsSmall, users}
use bgpmon.Labeling.Inv.Prefixes.{stored-PrefixSide}
use bgpmon.Labeling.Inv.Views.{rib_view_at, rib_view_same, content_store, content-Kept}
use bgpmon.Labeling.Inv.Fresh.{Announced}
use bgpmon.Labeling.Inv.Attach.{attach_lem, attached, attached-AttrSide}
use bgpmon.Labeling.Inv.Detach.{left, release_lem, remove_prefix_from_attr_lem}
use bgpmon.Labeling.Inv.Unused.{Kept}
use bgpmon.Labeling.Inv.Withdraw.{rest, det, collected, content-det, content_left}

module _ (r : Rib) (v : IsValid r) (small : IsSmall r) (x : ℕ) (m : PrefixNode)
    (get : load r.prefixes x ≡ some m) (n : AttrNode) (at : load r.attributes m.data_attr ≡ some n)
    (a ts : ℕ) (k : AttrNode) (at' : load r.attributes a ≡ some k) (ne : a ≢ m.data_attr) where
  abbrev old : ℕ
  old = m.data_attr

  abbrev m' : PrefixNode
  m' = record m { data_attr = a; originated_ts = ts }

  abbrev h : Heap PrefixNode
  h = rest r v small x m get n at

  abbrev h' : Heap PrefixNode
  h' = store r.prefixes x m'

  abbrev d : Rib
  d = det r v small x m get n at

  module _ (rc : Rib) (run : collect old d ≡ ok rc) (kept : Kept h d old rc) where
    -- What is left of the RIB, with the prefix node pointing to its new attribute node.
    abbrev pointed : Rib
    pointed = record rc { prefixes = store rc.prefixes x m' }

    there : load rc.attributes a ≡ some k
    there = kept.same_nodes a ne ∙ load-store_ne r.attributes old a (left r v x m get n at) ne ∙ at'

    absent : load h x ≡ none
    absent = load-free_self r.prefixes x v.by_prefix.unique_prefix

    present : load h' x ≡ some m'
    present = load-store_self r.prefixes x m m' get

    others_in : (y : ℕ) → y ≢ x → load h' y ≡ load h y
    others_in y ne' = load-store_ne r.prefixes x y m' ne' ∙ sym (load-free_ne r.prefixes x y ne')

    more : (b : ℕ) → users h' b ≡ one (a == b) + users h b
    more b = omega (
      arith,
      count_if-store (λ z. z.data_attr == b) r.prefixes x m m' get,
      count_if-free (λ z. z.data_attr == b) r.prefixes x m get,
    )

    abbrev moved : Rib
    moved = attached h h' pointed kept.side x m' k there absent present others_in more

    move_prefix_run : move_prefix x m a ts r ≡ ok moved
    unfolding move_prefix
    move_prefix_run =
        rw (release_lem r v x m get n at, remove_prefix_from_attr_lem r v x m get n at, run)
          (attach_lem h h' pointed kept.side x m' k there absent present others_in more)

    same_heap : h' ≡ moved.prefixes
    same_heap = ap (λ z. store z x m') (sym kept.same_prefixes)

    moved-IsValid : IsValid moved
    moved-IsValid = record {
      by_prefix =
          rw (kept.same_prefixes, kept.same_table, kept.same_next)
            (stored-PrefixSide r.next_address r.prefixes r.prefix_table v.by_prefix x m get a ts);
      by_attr =
          subst
            (λ z. AttrSide z moved.next_address moved.attributes moved.paths moved.attribute_table)
            same_heap
            (attached-AttrSide h h' pointed kept.side x m' k there absent present others_in more);
    }

    content-moved : (b : ℕ) → content moved b ≡ content rc b
    content-moved b =
        content_store rc.paths rc.attributes a b k (plus 16 k.ref_count 1) (x ∷ k.prefix_ref_node)
          there

    in_moved : (y : ℕ) (o : Option PrefixNode) → load h' y ≡ o → load moved.prefixes y ≡ o
    in_moved y o e = ap (λ z. load z y) (sym same_heap) ∙ e

    content-a : (c : Content) → content r a ≡ some c → content moved a ≡ some c
    content-a c has =
        content-moved a
        ∙ content-Kept h d old rc kept a (kept.same_nodes a ne)
        ∙ content-det r v small x m get n at a
        ∙ has

    moved-Announced : (c : Content) → content r a ≡ some c → Announced m.key_prefix a c r moved
    moved-Announced c has = record {
      valid = moved-IsValid;
      says =
          rib_view_at moved moved-IsValid m.key_prefix x m' (in_moved x (some m') present) refl
          ∙ content-a c has;
      keeps = content-a c has;
      others = λ q other.
          rib_view_same r moved q v moved-IsValid
            (λ y l was e.
              let ne' : y ≢ x = λ same. absurd (
                let l_is : l ≡ m = let both = ap (load r.prefixes) same in cc in
                other (sym e ∙ ap (λ z. z.key_prefix) l_is)) in
              (
                l,
                in_moved y (some l) (load-store_ne r.prefixes x y m' ne' ∙ was),
                e,
                content-moved l.data_attr
                    ∙ content_left r v small x m get n at rc kept y l
                        (load-free_ne r.prefixes x y ne' ∙ was),
              ))
            (λ y l now e.
              elim (load-store_back r.prefixes x y m m' l get
                (ap (λ z. load z y) same_heap ∙ now)) [
                  | inl (same, is_m) ↦ absurd (other (sym e ∙ ap (λ z. z.key_prefix) is_m))
                  | inr (ne', was) ↦ (l, was, e)
                ]);
      few_prefixes =
          omega (
            arith,
            ap (λ z. length (store z x m')) kept.same_prefixes,
            length-store r.prefixes x m',
          );
      few_attributes = omega (
        arith,
        kept.fewer,
        length-store r.attributes old (left r v x m get n at),
        length-store rc.attributes a (record k {
          ref_count = plus 16 k.ref_count 1;
          prefix_ref_node = x ∷ k.prefix_ref_node;
        }),
      );
      same_size = kept.same_size;
    }

  pub move_prefix_lem :
      (c : Content)
      → content r a ≡ some c
      → (r' : Rib) × (move_prefix x m a ts r ≡ ok r') × Announced m.key_prefix a c r r'
  move_prefix_lem c has =
      let (rc, run, kept) = collected r v small x m get n at in
      (moved rc run kept, move_prefix_run rc run kept, moved-Announced rc run kept c has)
