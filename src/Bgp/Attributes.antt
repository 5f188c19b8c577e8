-- ===== src/Bgp/Attributes.antt =====
-- The order of the attributes of an update, and the attribute of each code (Util/bgp.c).
use bgpmon.Base.{
  ℕ, ◌≤◌, ◌<◌, ◌≡◌, ◌≢◌, refl, ap, ◌∙◌, List, [], ◌∷◌, Option, none, some, true, ltb, ◌==◌,
  if◌then◌else◌, ok, arith, if_elim, ltb→lt, ltb→le, ==_iff,
}
use bgpmon.Labeling.Stream.{bytes_of}
use bgpmon.Labeling.Heaps.{eq_ne}
use bgpmon.Bgp.Build.{
  PathAttribute, BgpUpdate, BgpMessage, bgp_update, insert_attribute, add_path_attribute_to_update,
}

-- All codes are above k, and the codes increase.
abbrev pub Above : ℕ → List PathAttribute → Type 0
Above k [] = Unit {0}
Above k (a ∷ l) = (k < a.code) × Above k l

abbrev pub Increasing : List PathAttribute → Type 0
Increasing [] = Unit {0}
Increasing (a ∷ l) = Above a.code l × Increasing l

-- The attribute with a code.
unfoldable pub attribute_of : ℕ → List PathAttribute → Option PathAttribute
attribute_of c [] = none
attribute_of c (a ∷ l) = let rest = attribute_of c l in if a.code == c then some a else rest

lower : (j k : ℕ) (l : List PathAttribute) → j ≤ k → Above k l → Above j l
lower j k [] le h = tt
lower j k (a ∷ l) le (lt, h) = (omega (arith, le, lt), lower j k l le h)

insert_attribute-Above :
    (a : PathAttribute) (k : ℕ) (l : List PathAttribute)
    → k < a.code
    → Above k l
    → Above k (insert_attribute a l)
unfolding insert_attribute
insert_attribute-Above a k [] lt h = (lt, tt)
insert_attribute-Above a k (b ∷ l) lt (lt', h) =
    if_elim (Above k) (ltb b.code a.code) (λ _. (lt', insert_attribute-Above a k l lt h))
      (λ _. if_elim (Above k) (ltb a.code b.code) (λ _. (lt, (lt', h))) (λ _. (lt, h)))

insert_attribute-Increasing :
    (a : PathAttribute) (l : List PathAttribute) → Increasing l → Increasing (insert_attribute a l)
unfolding insert_attribute
insert_attribute-Increasing a [] h = (tt, tt)
insert_attribute-Increasing a (b ∷ l) (above, h) =
    if_elim Increasing (ltb b.code a.code)
      (λ e. (
        insert_attribute-Above a b.code l (ltb→lt b.code a.code e) above,
        insert_attribute-Increasing a l h,
      ))
      (λ f.
        if_elim Increasing (ltb a.code b.code)
          (λ e.
            let lt : a.code < b.code = ltb→lt a.code b.code e in
            ((lt, lower a.code b.code l (omega (arith, lt)) above), (above, h)))
          (λ g. (lower a.code b.code l (omega (arith, ltb→le b.code a.code f)) above, h)))

attribute_of-insert :
    (a : PathAttribute) (l : List PathAttribute)
    → attribute_of a.code (insert_attribute a l) ≡ some a
unfolding insert_attribute attribute_of
attribute_of-insert a [] = rw ((==_iff a.code a.code).1 refl) refl
attribute_of-insert a (b ∷ l) =
    if_elim (λ z. attribute_of a.code z ≡ some a) (ltb b.code a.code)
      (λ e.
        rw (eq_ne b.code a.code (λ z. absurd (omega (arith, z, ltb→lt b.code a.code e))))
          (attribute_of-insert a l))
      (λ f.
        if_elim (λ z. attribute_of a.code z ≡ some a) (ltb a.code b.code)
          (λ _. rw ((==_iff a.code a.code).1 refl) refl)
          (λ _. rw ((==_iff a.code a.code).1 refl) refl))

attribute_of-insert_ne :
    (c : ℕ) (a : PathAttribute) (l : List PathAttribute)
    → a.code ≢ c
    → attribute_of c (insert_attribute a l) ≡ attribute_of c l
unfolding insert_attribute attribute_of
attribute_of-insert_ne c a [] ne = rw (eq_ne a.code c ne) refl
attribute_of-insert_ne c a (b ∷ l) ne =
    let goal : List PathAttribute → Type 0 = λ z. attribute_of c z ≡ attribute_of c (b ∷ l) in
    if_elim goal (ltb b.code a.code)
      (λ _. ap (λ z. if b.code == c then some b else z) (attribute_of-insert_ne c a l ne))
      (λ f.
        if_elim goal (ltb a.code b.code) (λ _. rw (eq_ne a.code c ne) refl)
          (λ g.
            let same : a.code ≡ b.code =
              omega (arith, ltb→le b.code a.code f, ltb→le a.code b.code g) in
            rw (eq_ne a.code c ne, eq_ne b.code c (λ e. ne (same ∙ e))) refl))

-- What adding an attribute does to an update.
pub record AttributeAdded (a : PathAttribute) (u u' : BgpUpdate) : Type 0 where
  pub ordered : Increasing u'.path_atts
  pub here : attribute_of a.code u'.path_atts ≡ some a
  pub others : (c : ℕ) → a.code ≢ c → attribute_of c u'.path_atts ≡ attribute_of c u.path_atts
  pub same_withdrawn : u'.withdrawn_routes ≡ u.withdrawn_routes
  pub same_nlris : u'.nlris ≡ u.nlris

-- Adding an attribute whose value is not empty to an update with increasing codes succeeds: the
-- codes increase afterwards, so that none comes twice, the attribute of the new code is the new
-- one, all other codes have the attributes that they had, and the routes are untouched.
pub add_path_attribute_to_update_lem :
    (flags code n : ℕ) (memory bytes : List ℕ) (msg : BgpMessage) (u : BgpUpdate)
    → msg.type ≡ bgp_update
    → msg.type_specific ≡ some u
    → Increasing u.path_atts
    → 0 < n
    → bytes_of memory n ≡ some bytes
    → (u' : BgpUpdate) × (add_path_attribute_to_update flags code n (some memory) msg
        ≡ ok (record msg { type_specific = some u' }, true))
      × AttributeAdded (record { flags = flags; code = code; length = n; value = bytes }) u u'
unfolding add_path_attribute_to_update
add_path_attribute_to_update_lem flags code n memory bytes msg u type specific ordered some_length
      read =
    let a : PathAttribute = record { flags = flags; code = code; length = n; value = bytes } in
    (
      record u { path_atts = insert_attribute a u.path_atts },
      rw (type, specific, eq_ne n 0 (λ z. absurd (omega (arith, z, some_length))), read) refl,
      record {
        ordered = insert_attribute-Increasing a u.path_atts ordered;
        here = attribute_of-insert a u.path_atts;
        others = λ c ne. attribute_of-insert_ne c a u.path_atts ne;
        same_withdrawn = refl;
        same_nlris = refl;
      },
    )
