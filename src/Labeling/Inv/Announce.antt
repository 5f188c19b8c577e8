-- ===== src/Labeling/Inv/Announce.antt =====
-- The announcement of a prefix (applyReachablePrefix in Labeling/rtable.c).
use native.Mathlib.Decide.{ℕ_discrete}
use bgpmon.Base.{
  ℕ, ◌≡◌, ◌≢◌, refl, sym, ap, subst, ◌∙◌, true, false, Option, none, some, ◌==◌, ◌&&◌, if_elim, inl,
  inr, ok, Bool-cases, ==_iff,
}
use bgpmon.Labeling.Heap.{load}
use bgpmon.Labeling.Heaps.{eq_ne}
use bgpmon.Labeling.State.{Prefix, PrefixNode, AttrNode, Rib, same_bytes}
use bgpmon.Labeling.Hash.{attr_hash}
use bgpmon.Labeling.Prefixes.{
  Bmf, Label, announce_new, announce_duplicate, announce_spath, announce_dpath, labelled, noted,
  announce, announce_known, same_path, apply_reachable_prefix, bucket_of, find_prefix,
}
use bgpmon.Labeling.View.{
  rib_view, content, content_back, Content, noted_view, announce_label, same_bytes_self,
  same_bytes_sound,
}
use bgpmon.Labeling.Inv.{IsValid, IsSmall}
use bgpmon.Labeling.Inv.Walk.{find_prefix_lem, find_prefix_at}
use bgpmon.Labeling.Inv.Views.{rib_view_at, rib_view_absent, content_live}
use bgpmon.Labeling.Inv.Fresh.{Announced, announce_unknown_lem}
use bgpmon.Labeling.Inv.Again.{dated, dated_lem}
use bgpmon.Labeling.Inv.Moved.{move_prefix_lem}
use bgpmon.Labeling.Inv.Withdraw.{noted-IsValid, noted-IsSmall}

abbrev pub AnnounceGoal : Rib → Option Bmf → ℕ → ℕ → Content → Prefix → Type 0
AnnounceGoal r bmf a ts c p =
    (r' : Rib) × (apply_reachable_prefix p a ts r bmf
      ≡ ok (r', labelled bmf (announce_label r.attribute_table.table_size c (rib_view r p))))
    × Announced p a c r r'

from_noted :
    (l : Label) (r : Rib) (p : Prefix) (a : ℕ) (c : Content) (r' : Rib)
    → Announced p a c (noted l r) r'
    → Announced p a c r r'
from_noted l r p a c r' d = record {
  valid = d.valid;
  says = d.says;
  keeps = d.keeps;
  others = λ q ne. d.others q ne ∙ noted_view l r q;
  few_prefixes = d.few_prefixes;
  few_attributes = d.few_attributes;
  same_size = d.same_size;
}

module _ (r : Rib) (bmf : Option Bmf) (v : IsValid r) (small : IsSmall r) (a ts : ℕ) (n : AttrNode)
    (at : load r.attributes a ≡ some n) (c : Content) (has : content r a ≡ some c) where
  announce_fresh :
      (p : Prefix)
      → find_prefix r.prefixes (r.prefix_table.entries (bucket_of p r)).node p ≡ ok none
      → ((y : ℕ) (k : PrefixNode) → load r.prefixes y ≡ some k → k.key_prefix ≢ p)
      → AnnounceGoal r bmf a ts c p
  unfolding apply_reachable_prefix announce
  announce_fresh p missing none_of =
      let (r', run, done) =
        announce_unknown_lem (noted announce_new r) (noted-IsValid announce_new r v) p a ts n at
          none_of c has in
      (
        r',
        rw (missing, run, rib_view_absent r v p none_of) refl,
        from_noted announce_new r p a c r' done,
      )

  module _ (x : ℕ) (m : PrefixNode) (get : load r.prefixes x ≡ some m) where
    found :
        find_prefix r.prefixes (r.prefix_table.entries (bucket_of m.key_prefix r)).node m.key_prefix
        ≡ ok (some x)
    found =
        find_prefix_at r.next_address r.prefixes r.prefix_table v.by_prefix m.key_prefix x m get
          refl

    view : rib_view r m.key_prefix ≡ content r m.data_attr
    view = rib_view_at r v m.key_prefix x m get refl

    announce_same : m.data_attr ≡ a → AnnounceGoal r bmf a ts c m.key_prefix
    unfolding apply_reachable_prefix announce announce_known
    announce_same e =
        let says : rib_view r m.key_prefix ≡ some c = view ∙ ap (content r) e ∙ has in
        let same : (same_bytes c.0 c.0 && same_bytes c.1 c.1) ≡ true =
          rw (same_bytes_self c.0) (same_bytes_self c.1) in
        let is_a : (m.data_attr == a) ≡ true = (==_iff m.data_attr a).1 e in
        let r0 : Rib = noted announce_duplicate r in
        (
          dated r0 (noted-IsValid announce_duplicate r v) x m get ts,
          rw (found, get, is_a, says, same) refl,
          subst
              (λ b.
                Announced m.key_prefix b c r
                  (dated r0 (noted-IsValid announce_duplicate r v) x m get ts))
              e
              (from_noted announce_duplicate r m.key_prefix m.data_attr c _ (
                dated_lem r0 (noted-IsValid announce_duplicate r v) x m get ts c
                  (ap (content r) e ∙ has))),
        )

    module _ (o : AttrNode) (at_o : load r.attributes m.data_attr ≡ some o)
        (ne : a ≢ m.data_attr) where
      abbrev size : ℕ
      size = r.attribute_table.table_size

      -- What same_path compares, from the contents of the two nodes.
      same_path_lem :
          (d : Content)
          → content r m.data_attr ≡ some d
          → same_path m.data_attr a r ≡ ok (attr_hash d.0 size == attr_hash c.0 size)
      unfolding same_path
      same_path_lem d was =
          let (o', get_o, p, get_p, is_d, _) =
            content_back r.paths (load r.attributes m.data_attr) d.0 d.1 was in
          let (n', get_n, q, get_q, is_c, _) =
            content_back r.paths (load r.attributes a) c.0 c.1 has in
          let (p', get_p', home_p) = v.by_attr.bucket m.data_attr o' get_o in
          let (q', get_q', home_q) = v.by_attr.bucket a n' get_n in
          let same_p : p' ≡ p = cc in
          let same_q : q' ≡ q = cc in
          let left : o'.bucket_index ≡ attr_hash d.0 size =
            home_p
            ∙ ap (λ z. attr_hash z.as_path_data size) same_p
            ∙ ap (λ z. attr_hash z size) is_d in
          let right : n'.bucket_index ≡ attr_hash c.0 size =
            home_q
            ∙ ap (λ z. attr_hash z.as_path_data size) same_q
            ∙ ap (λ z. attr_hash z size) is_c in
          rw
            (
              get_o,
              get_n,
              get_p,
              get_q,
              v.by_attr.ids o'.as_path p get_p,
              v.by_attr.ids n'.as_path q get_q,
              left,
              right,
            )
            (if_elim (λ z. z ≡ ok (attr_hash d.0 size == attr_hash c.0 size))
              (attr_hash d.0 size == attr_hash c.0 size) (λ t. ap ok (sym t)) (λ f. ap ok (sym f)))

      differ :
          (d : Content)
          → content r m.data_attr ≡ some d
          → (same_bytes c.0 d.0 && same_bytes c.1 d.1) ≡ false
      differ d was = elim (Bool-cases (same_bytes c.0 d.0)) [
        | inr f ↦ rw f refl
        | inl t ↦ elim (Bool-cases (same_bytes c.1 d.1)) [
          | inr f ↦ rw (t, f) refl
          | inl t' ↦
              let (o', get_o, p, get_p, is_d, at_d) =
                content_back r.paths (load r.attributes m.data_attr) d.0 d.1 was in
              let (n', get_n, q, get_q, is_c, at_c) =
                content_back r.paths (load r.attributes a) c.0 c.1 has in
              absurd (
                ne (
                  v.by_attr.distinct a m.data_attr n' o' q p get_n get_o get_q get_p
                    (is_c ∙ same_bytes_sound c.0 d.0 t ∙ sym is_d)
                    (at_c ∙ same_bytes_sound c.1 d.1 t' ∙ sym at_d)))
        ]
      ]

      announce_other : AnnounceGoal r bmf a ts c m.key_prefix
      unfolding apply_reachable_prefix announce announce_known
      announce_other =
          let (d, was) = content_live r v x m get in
          let says : rib_view r m.key_prefix ≡ some d = view ∙ was in
          let not_a : (m.data_attr == a) ≡ false = eq_ne m.data_attr a (λ e. ne (sym e)) in
          elim (Bool-cases (attr_hash d.0 size == attr_hash c.0 size)) [
            | inl t ↦
                let (r', run, done) =
                  move_prefix_lem (noted announce_spath r) (noted-IsValid announce_spath r v)
                    (noted-IsSmall announce_spath r small) x m get o at_o a ts n at ne c has in
                (
                  r',
                  rw (found, get, not_a, same_path_lem d was, says, differ d was, t, run) refl,
                  from_noted announce_spath r m.key_prefix a c r' done,
                )
            | inr f ↦
                let (r', run, done) =
                  move_prefix_lem (noted announce_dpath r) (noted-IsValid announce_dpath r v)
                    (noted-IsSmall announce_dpath r small) x m get o at_o a ts n at ne c has in
                (
                  r',
                  rw (found, get, not_a, same_path_lem d was, says, differ d was, f, run) refl,
                  from_noted announce_dpath r m.key_prefix a c r' done,
                )
          ]

-- On a valid RIB of fewer than 2 ^ 16 prefixes and 2 ^ 32 attribute nodes, announcing a prefix with
-- a live attribute node succeeds: the prefix has the AS path and attributes of that node
-- afterwards, every other prefix has what it had, the RIB stays valid, and the label is new,
-- duplicate, or else SPATH or DPATH as the hashes of the old and the new AS path are the same or
-- not.
pub apply_reachable_prefix_lem :
    (p : Prefix) (a ts : ℕ) (r : Rib) (bmf : Option Bmf) (c : Content)
    → IsValid r
    → IsSmall r
    → content r a ≡ some c
    → AnnounceGoal r bmf a ts c p
apply_reachable_prefix_lem p a ts r bmf c v small has =
    let (n, at, _, _, _, _) = content_back r.paths (load r.attributes a) c.0 c.1 has in
    elim (find_prefix_lem r.next_address r.prefixes r.prefix_table v.by_prefix p) [
      | inr (missing, none_of) ↦ announce_fresh r bmf v small a ts n at c has p missing none_of
      | inl (x, m, found_x, get, e) ↦
          subst (AnnounceGoal r bmf a ts c) e (elim (ℕ_discrete a m.data_attr) [
            | yes same ↦ announce_same r bmf v small a ts n at c has x m get (sym same)
            | no ne ↦
                let (o, at_o) = v.by_attr.live x m get in
                announce_other r bmf v small a ts n at c has x m get o at_o ne
          ])
    ]
