-- ===== src/Labeling/Inv/Again.antt =====
-- The announcement of what the RIB already says (applyReachablePrefix in Labeling/rtable.c).
use native.Mathlib.Decide.{ℕ_discrete}
use bgpmon.Base.{ℕ, ◌≡◌, ◌%◌, ◌^◌, refl, sym, ap, ◌∙◌, some, arith, ◌==◌, inl, inr}
use bgpmon.Labeling.Heap.{Heap, load, store}
use bgpmon.Labeling.Heaps.{
  load-store_self, load-store_ne, load-store_back, length-store, count_if-store,
}
use bgpmon.Labeling.State.{PrefixNode, AsPath, AttrNode, Rib, Table}
use bgpmon.Labeling.View.{content, Content}
use bgpmon.Labeling.Inv.{AttrSide, IsValid, users, points}
use bgpmon.Labeling.Inv.Prefixes.{stored-PrefixSide}
use bgpmon.Labeling.Inv.Views.{rib_view_at, rib_view_same}
use bgpmon.Labeling.Inv.Fresh.{Announced}

-- The attribute table sees of the prefix nodes only which attribute nodes they have.
pub AttrSide-ext :
    (h h' : Heap PrefixNode) (next : ℕ) (attrs : Heap AttrNode) (paths : Heap AsPath) (t : Table)
    → AttrSide h next attrs paths t
    → ((x a : ℕ) → points (load h' x) a ≡ points (load h x) a)
    → ((a : ℕ) → users h' a ≡ users h a)
    → ((x : ℕ) (m : PrefixNode)
        → load h' x ≡ some m
        → (k : AttrNode) × (load attrs m.data_attr ≡ some k))
    → AttrSide h' next attrs paths t
AttrSide-ext h h' next attrs paths t v same_points same_users live = record {
  next_attr = v.next_attr;
  next_path = v.next_path;
  unique_attr = v.unique_attr;
  unique_path = v.unique_path;
  chain = v.chain;
  refs = λ a n get x. v.refs a n get x ∙ sym (same_points x a);
  counts = λ a n get. v.counts a n get ∙ ap (λ u. u % 2 ^ 16) (sym (same_users a));
  idle = λ a gone. same_users a ∙ v.idle a gone;
  live = live;
  bucket = v.bucket;
  path_count = v.path_count;
  ids = v.ids;
  sized = v.sized;
  distinct = v.distinct;
}

module _ (r : Rib) (v : IsValid r) (x : ℕ) (m : PrefixNode) (get : load r.prefixes x ≡ some m)
    (ts : ℕ) where
  abbrev touched : PrefixNode
  touched = record m { originated_ts = ts }

  abbrev pub dated : Rib
  dated = record r { prefixes = store r.prefixes x touched }

  before :
      (y : ℕ) (k : PrefixNode)
      → load dated.prefixes y ≡ some k
      → (l : PrefixNode) × (load r.prefixes y ≡ some l)
        × (k.data_attr ≡ l.data_attr)
        × (k.key_prefix ≡ l.key_prefix)
  before y k after = elim (load-store_back r.prefixes x y m touched k get after) [
    | inl (e, same) ↦
        (m, ap (load r.prefixes) e ∙ get, ap (λ z. z.data_attr) same, ap (λ z. z.key_prefix) same)
    | inr (ne, old) ↦ (k, old, refl, refl)
  ]

  after :
      (y : ℕ) (k : PrefixNode)
      → load r.prefixes y ≡ some k
      → (l : PrefixNode) × (load dated.prefixes y ≡ some l)
        × (l.data_attr ≡ k.data_attr)
        × (l.key_prefix ≡ k.key_prefix)
  after y k was = elim (ℕ_discrete y x) [
    | yes e ↦
        let same : k ≡ m = let both = ap (load r.prefixes) e in cc in
        (
          touched,
          ap (load dated.prefixes) e ∙ load-store_self r.prefixes x m touched get,
          ap (λ z. z.data_attr) (sym same),
          ap (λ z. z.key_prefix) (sym same),
        )
    | no ne ↦ (k, load-store_ne r.prefixes x y touched ne ∙ was, refl, refl)
  ]

  pointed : (y a : ℕ) → points (load dated.prefixes y) a ≡ points (load r.prefixes y) a
  pointed y a = elim (ℕ_discrete y x) [
    | yes e ↦ rw (e, load-store_self r.prefixes x m touched get, get) refl
    | no ne ↦ rw (load-store_ne r.prefixes x y touched ne) refl
  ]

  dated-IsValid : IsValid dated
  dated-IsValid = record {
    by_prefix =
        stored-PrefixSide r.next_address r.prefixes r.prefix_table v.by_prefix x m get m.data_attr
          ts;
    by_attr =
        AttrSide-ext r.prefixes dated.prefixes r.next_address r.attributes r.paths r.attribute_table
          v.by_attr pointed
          (λ a. omega (arith, count_if-store (λ k. k.data_attr == a) r.prefixes x m touched get))
          (λ y k there.
            let (l, old, same, _) = before y k there in
            let (n, at) = v.by_attr.live y l old in (n, ap (load r.attributes) same ∙ at));
  }

  pub dated_lem :
      (c : Content) → content r m.data_attr ≡ some c → Announced m.key_prefix m.data_attr c r dated
  dated_lem c has = record {
    valid = dated-IsValid;
    says =
        rib_view_at dated dated-IsValid m.key_prefix x touched
          (load-store_self r.prefixes x m touched get) refl
        ∙ has;
    keeps = has;
    others = λ q ne.
        rib_view_same r dated q v dated-IsValid
          (λ y k was e.
            let (l, there, same_attr, same_key) = after y k was in
            (l, there, same_key ∙ e, ap (content r) same_attr))
          (λ y k there e.
            let (l, old, _, same_key) = before y k there in (l, old, sym same_key ∙ e));
    few_prefixes = omega (arith, length-store r.prefixes x touched);
    few_attributes = omega arith;
    same_size = refl;
  }
