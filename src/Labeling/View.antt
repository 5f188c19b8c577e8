-- ===== src/Labeling/View.antt =====
-- What a RIB says: the AS path and the attributes of a prefix.
use bgpmon.Base.{
  if◌then◌else◌, ℕ, ◌≡◌, refl, ap, ◌∙◌, true, false, List, [], ◌∷◌, Option, none, some, ◌&&◌, ◌==◌,
  ==_iff, Result, ok, err, Option-cases, Bool-cases, inl, inr, sym,
}
use bgpmon.Labeling.Heap.{Heap, load}
use bgpmon.Labeling.State.{Prefix, PrefixNode, AsPath, AttrNode, Rib, same_bytes}
use bgpmon.Labeling.Hash.{attr_hash}
use bgpmon.Labeling.Prefixes.{
  find_prefix, bucket_of, noted, Label, withdraw, withdraw_duplicate, announce_new,
  announce_duplicate, announce_spath, announce_dpath,
}

abbrev pub Content : Type 0
Content = List ℕ × List ℕ

abbrev pub path_content : Option AsPath → List ℕ → Option Content
path_content none bytes = none
path_content (some p) bytes = some (p.as_path_data, bytes)

abbrev pub node_content : Heap AsPath → Option AttrNode → Option Content
node_content paths none = none
node_content paths (some n) = path_content (load paths n.as_path) n.attr

abbrev pub content : Rib → ℕ → Option Content
content r a = node_content r.paths (load r.attributes a)

abbrev pub prefix_content : Rib → Option PrefixNode → Option Content
prefix_content r none = none
prefix_content r (some n) = content r n.data_attr

abbrev pub found_content : Rib → Result (Option ℕ) → Option Content
found_content r (ok (some x)) = prefix_content r (load r.prefixes x)
found_content r (ok none) = none
found_content r (err e) = none

-- The walk along the bucket of the prefix, then to its attribute node.
unfoldable pub rib_view : Rib → Prefix → Option Content
rib_view r p =
    found_content r (find_prefix r.prefixes (r.prefix_table.entries (bucket_of p r)).node p)

pub content_back :
    (paths : Heap AsPath) (o : Option AttrNode) (d bytes : List ℕ)
    → node_content paths o ≡ some (d, bytes)
    → (n : AttrNode) × (o ≡ some n)
      × (p : AsPath) × (load paths n.as_path ≡ some p)
      × (p.as_path_data ≡ d)
      × (n.attr ≡ bytes)
content_back paths none d bytes e = absurd (cc)
content_back paths (some n) d bytes e = elim (Option-cases (load paths n.as_path)) [
  | inl gone ↦ absurd (
      let no : path_content none n.attr ≡ some (d, bytes) =
        ap (λ o. path_content o n.attr) (sym gone) ∙ e in
      cc)
  | inr (p, get) ↦
      let both : path_content (some p) n.attr ≡ some (d, bytes) =
        ap (λ o. path_content o n.attr) (sym get) ∙ e in
      let pair : ◌≡◌ {A = Content} (p.as_path_data, n.attr) (d, bytes) = cc in
      (n, refl, p, get, ap (λ c. c.0) pair, ap (λ c. c.1) pair)
]

pub same_bytes_self : (xs : List ℕ) → same_bytes xs xs ≡ true
same_bytes_self [] = refl
same_bytes_self (x ∷ xs) = rw ((==_iff x x).1 refl) (same_bytes_self xs)

pub same_bytes_sound : (xs ys : List ℕ) → same_bytes xs ys ≡ true → xs ≡ ys
same_bytes_sound [] [] e = refl
same_bytes_sound [] (y ∷ ys) e = absurd (cc)
same_bytes_sound (x ∷ xs) [] e = absurd (cc)
same_bytes_sound (x ∷ xs) (y ∷ ys) e = elim (Bool-cases (x == y)) [
  | inl t ↦
      let rest : same_bytes xs ys ≡ true = ap (λ b. b && same_bytes xs ys) (sym t) ∙ e in
      let first = (==_iff x y).0 t in
      let tail = same_bytes_sound xs ys rest in rw (first, tail) refl
  | inr f ↦ absurd (let no : false ≡ true = ap (λ b. b && same_bytes xs ys) (sym f) ∙ e in cc)
]

-- The label of a withdrawal, from what the RIB said of the prefix before.
abbrev pub withdraw_label : Option Content → Label
withdraw_label none = withdraw_duplicate
withdraw_label (some c) = withdraw

-- The label of an announcement. The code takes two AS paths for the same if their hashes are.
abbrev pub announce_label : ℕ → Content → Option Content → Label
announce_label size (path, bytes) none = announce_new
announce_label size (path, bytes) (some (path', bytes')) =
    if same_bytes path path' && same_bytes bytes bytes'
    then announce_duplicate
    else if attr_hash path' size == attr_hash path size
    then announce_spath
    else announce_dpath

pub noted_view : (l : Label) (r : Rib) (p : Prefix) → rib_view (noted l r) p ≡ rib_view r p
unfolding rib_view
noted_view l r p =
    elim (find_prefix r.prefixes (r.prefix_table.entries (bucket_of p r)).node p)
      as (λ s. found_content (noted l r) s ≡ found_content r s) [
        | ok o ↦ elim o as (λ z. found_content (noted l r) (ok z) ≡ found_content r (ok z)) [
          | none ↦ refl
          | some x ↦ prefix_same (load r.prefixes x)
        ]
        | err e ↦ refl
      ]
  where
    prefix_same : (o : Option PrefixNode) → prefix_content (noted l r) o ≡ prefix_content r o
    prefix_same none = refl
    prefix_same (some n) = refl
