-- ===== src/Labeling/Inv/Search.antt =====
-- What the loop of searchAttrNode finds in a bucket (Labeling/rtable.c).
use native.Mathlib.Decide.{ℕ_discrete}
use bgpmon.Base.{
  ℕ, ◌<◌, ◌≡◌, ◌≢◌, refl, sym, ap, ◌∙◌, true, false, List, [], ◌∷◌, Option, none, some, arith, ◌==◌,
  ◌&&◌, ==_iff, length, if_elim, inl, inr, ◌⊎◌, Result, ok, Option-cases, Bool-cases,
}
use bgpmon.Labeling.Heap.{Heap, one, load, occurs}
use bgpmon.Labeling.Heaps.{eq_self, eq_ne}
use bgpmon.Labeling.State.{PrefixNode, AsPath, AttrNode, Rib, same_bytes}
use bgpmon.Labeling.Attributes.{Search, hit, miss, search_from}
use bgpmon.Labeling.View.{
  content, node_content, path_content, same_bytes_self, same_bytes_sound, Content,
}
use bgpmon.Labeling.Inv.{AttrSide}

module _ (h : Heap PrefixNode) (r : Rib)
    (v : AttrSide h r.next_address r.attributes r.paths r.attribute_table)
    (path bytes : List ℕ) where
  -- A node whose AS path is the one that is looked for.
  abbrev pub Candidate : Option ℕ → Type 0
  Candidate none = Unit {0}
  Candidate (some b) =
      (n : AttrNode) × (load r.attributes b ≡ some n)
      × (p : AsPath) × (load r.paths n.as_path ≡ some p)
      × (p.as_path_data ≡ path)

  -- A hit has the contents that are looked for; after a miss no node of the bucket has them.
  abbrev pub Answers : List ℕ → Search → Type 0
  Answers xs (hit a) = content r a ≡ some (path, bytes)
  Answers xs (miss tmp i) =
      (i ≡ 0) × Candidate tmp × ((a : ℕ) → 0 < occurs a xs → content r a ≢ some (path, bytes))

  abbrev pub Found : List ℕ → Result Search → Type 0
  Found xs s = (o : Search) × (s ≡ ok o) × Answers xs o

  content_at :
      (a : ℕ) (n : AttrNode) (p : AsPath)
      → load r.attributes a ≡ some n
      → load r.paths n.as_path ≡ some p
      → content r a ≡ some (p.as_path_data, n.attr)
  content_at a n p get_n get_p =
      ap (node_content r.paths) get_n ∙ ap (λ o. path_content o n.attr) get_p

  extend-Answers :
      (a : ℕ) (xs : List ℕ) (o : Search)
      → content r a ≢ some (path, bytes)
      → Answers xs o
      → Answers (a ∷ xs) o
  extend-Answers a xs (hit b) no_match found = found
  extend-Answers a xs (miss tmp i) no_match (z, c, none_of) = (
    z,
    c,
    λ b there. elim (ℕ_discrete b a) [
      | yes q ↦ λ same. no_match (ap (content r) (sym q) ∙ same)
      | no ne ↦ none_of b (omega (arith, there, ap one (eq_ne b a ne)))
    ],
  )

  extend :
      (a : ℕ) (xs : List ℕ) (s : Result Search)
      → content r a ≢ some (path, bytes)
      → Found xs s
      → Found (a ∷ xs) s
  extend a xs s no_match (o, e, answers) = (o, e, extend-Answers a xs o no_match answers)

  differs :
      (a : ℕ) (n : AttrNode) (p : AsPath)
      → load r.attributes a ≡ some n
      → load r.paths n.as_path ≡ some p
      → (n.attr ≢ bytes) ⊎ (p.as_path_data ≢ path)
      → content r a ≢ some (path, bytes)
  differs a n p get_n get_p other same =
      let pair : ◌≡◌ {A = Option Content} (some (p.as_path_data, n.attr)) (some (path, bytes)) =
        sym (content_at a n p get_n get_p) ∙ same in
      let both : ◌≡◌ {A = Content} (p.as_path_data, n.attr) (path, bytes) = cc in
      elim other [ inl ne ↦ ne (ap (λ c. c.1) both) | inr ne ↦ ne (ap (λ c. c.0) both) ]

  -- The test of the loop on the attributes.
  same_attr :
      (n : AttrNode)
      → n.total_attr_len ≡ length n.attr
      → ((length bytes == n.total_attr_len) && same_bytes n.attr bytes) ≡ true
      → n.attr ≡ bytes
  same_attr n size t = elim (Bool-cases (length bytes == n.total_attr_len)) [
    | inl e ↦ same_bytes_sound n.attr bytes (ap (λ b. b && same_bytes n.attr bytes) (sym e) ∙ t)
    | inr e ↦
        absurd (let wrong : false ≡ true = ap (λ b. b && same_bytes n.attr bytes) (sym e) ∙ t in cc)
  ]

  other_attr :
      (n : AttrNode)
      → n.total_attr_len ≡ length n.attr
      → ((length bytes == n.total_attr_len) && same_bytes n.attr bytes) ≡ false
      → n.attr ≢ bytes
  other_attr n size f same =
      let len = (==_iff (length bytes) n.total_attr_len).1 (sym (size ∙ ap length same)) in
      let all : same_bytes n.attr bytes ≡ true =
        ap (λ z. same_bytes n.attr z) (sym same) ∙ same_bytes_self n.attr in
      absurd (
        let right : true ≡ false = sym all ∙ ap (λ b. b && same_bytes n.attr bytes) (sym len) ∙ f in
        cc)

  pub search_from_lem :
      (xs : List ℕ) (tmp : Option ℕ)
      → ((b : ℕ) → 0 < occurs b xs → load r.attributes b ≢ none)
      → Candidate tmp
      → Found xs (search_from r path bytes xs tmp 0)
  unfolding search_from
  search_from_lem [] tmp live c =
      (miss tmp 0, refl, (refl, c, λ a there. absurd (omega (arith, there))))
  search_from_lem (a ∷ xs) tmp live c = elim (Option-cases (load r.attributes a)) [
    | inl gone ↦ absurd (live a (omega (arith, ap one (eq_self a))) gone)
    | inr (n, get) ↦
        let (p, get_p, home) = v.bucket a n get in
        let later : (b : ℕ) → 0 < occurs b xs → load r.attributes b ≢ none =
          λ b more. live b (omega (arith, more)) in
        rw (get, get_p, v.ids n.as_path p get_p)
          (if_elim (Found (a ∷ xs)) (same_bytes p.as_path_data path)
            (λ t.
              let is_path = same_bytes_sound p.as_path_data path t in
              if_elim (Found (a ∷ xs))
                ((length bytes == n.total_attr_len) && same_bytes n.attr bytes)
                (λ t'.
                  let is_attr = same_attr n (v.sized a n get) t' in
                  (hit a, refl, content_at a n p get get_p ∙ rw (is_path, is_attr) refl))
                (λ f.
                  extend a xs (search_from r path bytes xs (some a) 0)
                    (differs a n p get get_p (inl (other_attr n (v.sized a n get) f)))
                    (search_from_lem xs (some a) later (n, get, p, get_p, is_path))))
            (λ f.
              let other : p.as_path_data ≢ path = λ e. absurd (
                let wrong : true ≡ false =
                  sym (same_bytes_self p.as_path_data) ∙ ap (same_bytes p.as_path_data) e ∙ f in
                cc) in
              extend a xs (search_from r path bytes xs tmp 0) (differs a n p get get_p (inr other))
                (search_from_lem xs tmp later c)))
  ]
