-- ===== src/Sessions/Find.antt =====
-- What findSession finds (Peering/peersession.c).
use bgpmon.Base.{
  ℕ, zero, suc, ◌<◌, ◌≡◌, ◌≢◌, refl, sym, ap, ◌∙◌, List, [], ◌∷◌, Option, none, some, Bool, true,
  false, ◌&&◌, ◌==◌, get_elem?, arith, Bool-cases, inl, inr, ==_iff,
}
use bgpmon.Labeling.State.{same_bytes}
use bgpmon.Labeling.View.{same_bytes_self, same_bytes_sound}
use bgpmon.Sessions.Store.{Tuple, MrtSession, same_tuple, has_tuple, find_from}

both_true : (a b : Bool) → (a && b) ≡ true → (a ≡ true) × (b ≡ true)
both_true true b e = (refl, e)
both_true false b e = absurd (cc)

pub same_tuple_sound : (s t : Tuple) → same_tuple s t ≡ true → s ≡ t
same_tuple_sound s t e =
    let (as_numbers, more) =
      both_true ((s.local_as2 == t.local_as2) && (s.remote_as2 == t.remote_as2)) _ e in
    let (ports, addresses) =
      both_true ((s.local_port == t.local_port) && (s.remote_port == t.remote_port)) _ more in
    let (a1, a2) = both_true (s.local_as2 == t.local_as2) _ as_numbers in
    let (p1, p2) = both_true (s.local_port == t.local_port) _ ports in
    let (b1, b2) = both_true (same_bytes s.local_addr t.local_addr) _ addresses in
    λ i. record {
      local_addr = same_bytes_sound s.local_addr t.local_addr b1 i;
      local_port = (==_iff s.local_port t.local_port).0 p1 i;
      local_as2 = (==_iff s.local_as2 t.local_as2).0 a1 i;
      remote_addr = same_bytes_sound s.remote_addr t.remote_addr b2 i;
      remote_port = (==_iff s.remote_port t.remote_port).0 p2 i;
      remote_as2 = (==_iff s.remote_as2 t.remote_as2).0 a2 i;
    }

pub same_tuple_self : (t : Tuple) → same_tuple t t ≡ true
same_tuple_self t =
    rw
      (
        (==_iff t.local_as2 t.local_as2).1 refl,
        (==_iff t.remote_as2 t.remote_as2).1 refl,
        (==_iff t.local_port t.local_port).1 refl,
        (==_iff t.remote_port t.remote_port).1 refl,
        same_bytes_self t.local_addr,
      )
      (same_bytes_self t.remote_addr)

-- No session of the list has these ends.
abbrev pub Lacks : Tuple → List (Option MrtSession) → Type 0
Lacks t l = (j : ℕ) (s : MrtSession) → get_elem? l j ≡ some (some s) → s.config_in_use ≢ t

-- The first session with these ends, if there is one.
abbrev pub Finds : Tuple → List (Option MrtSession) → Option ℕ → Type 0
Finds t l none = Lacks t l
Finds t l (some i) =
    (s : MrtSession) × (get_elem? l i ≡ some (some s))
    × (s.config_in_use ≡ t)
    × ((j : ℕ) (s' : MrtSession) → j < i → get_elem? l j ≡ some (some s') → s'.config_in_use ≢ t)

head_of :
    (t : Tuple) (o : Option MrtSession) (s : MrtSession)
    → has_tuple t o ≡ false
    → some o ≡ some (some s)
    → s.config_in_use ≢ t
head_of t none s f e = absurd (cc)
head_of t (some s') s f e = λ same. absurd (
    let one : some s' ≡ some s = (cc) in
    let wrong : true ≡ false =
      sym (same_tuple_self t)
      ∙ ap (λ z. same_tuple z t) (sym same)
      ∙ ap (has_tuple t) (sym one)
      ∙ f in
    cc)

further :
    (t : Tuple) (o : Option MrtSession) (l : List (Option MrtSession)) (found : Option ℕ)
    → has_tuple t o ≡ false
    → Finds t l found
    → Finds t (o ∷ l) (elim found [ none ↦ none | some i ↦ some (suc i) ])
further t o l none f h = go
  where
    go : Lacks t (o ∷ l)
    go zero s e = head_of t o s f e
    go (suc j) s e = h j s e
further t o l (some i) f (s, at, same, before) = (s, at, same, go)
  where
    go :
        (j : ℕ) (s' : MrtSession)
        → j < suc i
        → get_elem? (o ∷ l) j ≡ some (some s')
        → s'.config_in_use ≢ t
    go zero s' lt e = head_of t o s' f e
    go (suc j) s' lt e = before j s' (omega (arith, lt)) e

here :
    (t : Tuple) (o : Option MrtSession) (l : List (Option MrtSession))
    → has_tuple t o ≡ true
    → Finds t (o ∷ l) (some 0)
here t none l e = absurd (cc)
here t (some s) l e =
    (s, refl, same_tuple_sound s.config_in_use t e, λ j s' lt. absurd (omega (arith, lt)))

pub find_from_lem : (t : Tuple) (l : List (Option MrtSession)) → Finds t l (find_from t l)
unfolding find_from
find_from_lem t [] = λ j s e. absurd (cc)
find_from_lem t (o ∷ l) = elim (Bool-cases (has_tuple t o)) [
  | inl e ↦ rw e (here t o l e)
  | inr f ↦ rw f (further t o l (find_from t l) f (find_from_lem t l))
]
