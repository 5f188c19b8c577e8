-- ===== src/Session/RoundTrip.antt =====
-- The capabilities of an OPEN message, written and read (Peering/bgppacket.c).

use mathlib.Core.Path.{ap₂}
use mathlib.Core.List.{append-nil, append_assoc}
use bgpmon.Base.{
  ℕ, zero, suc, ◌+◌, ◌%◌, ◌≤◌, ◌<◌, ◌≡◌, refl, sym, ap, ◌∙◌, List, [], ◌∷◌, ◌++◌, ok, err,
  out_of_bounds, ◌>>=◌, if◌then◌else◌, leb, ◌==◌, false, arith, length, get_or, length-append,
}
use bgpmon.Session.State.{Capability}
use bgpmon.Session.Encoding.{
  buffer_length, max_num_of_capabilities, parameter, add_one_bgp_new_capability, add_all, drop,
  copy, extract_from, extract_bgp_capabilities,
}

abbrev pub parameters : List Capability → List ℕ
parameters [] = []
parameters (c ∷ cs) = parameter c ++ parameters cs

-- Each value is short enough for the length of its parameter, which is a byte.
abbrev pub AllShort : List Capability → Type 0
AllShort [] = Unit {0}
AllShort (c ∷ cs) = (length c.value < 254) × AllShort cs

length-drop : (n : ℕ) (l : List ℕ) → length (drop n l) ≤ length l
length-drop zero l = omega arith
length-drop (suc n) [] = omega arith
length-drop (suc n) (b ∷ l) = omega (arith, length-drop n l)

drop-append : (v l : List ℕ) → drop (length v) (v ++ l) ≡ l
drop-append [] l = refl
drop-append (b ∷ v) l = drop-append v l

copy-append : (v l : List ℕ) → copy (length v) (v ++ l) ≡ v
copy-append [] l = refl
copy-append (b ∷ v) l = ap (◌∷◌ b) (copy-append v l)

same_fuel :
    (f g count : ℕ) (l : List ℕ)
    → length l ≤ f
    → length l ≤ g
    → extract_from f count l ≡ extract_from g count l
unfolding extract_from
same_fuel zero zero count l a b = refl
same_fuel zero (suc g) count [] a b = refl
same_fuel zero (suc g) count (x ∷ l) a b = absurd (omega arith)
same_fuel (suc f) zero count [] a b = refl
same_fuel (suc f) zero count (x ∷ l) a b = absurd (omega arith)
same_fuel (suc f) (suc g) count [] a b = refl
same_fuel (suc f) (suc g) count (x ∷ l) a b =
    let short = length-drop (suc (get_or l 0 0)) l in
    let count' : ℕ = if x == 2 then suc count else count in
    rw (same_fuel f g count' (drop (suc (get_or l 0 0)) l) (omega arith) (omega arith)) refl

-- The bytes that are there are fuel enough for the loop of extractBgpCapabilities: more of it
-- changes nothing.
pub extract_from_enough :
    (fuel : ℕ) (l : List ℕ) → length l ≤ fuel → extract_from fuel 0 l ≡ extract_bgp_capabilities l
unfolding extract_bgp_capabilities
extract_from_enough fuel l le = same_fuel fuel (length l) 0 l le (omega arith)

added :
    (prm : List ℕ) (c : Capability)
    → length prm + 8 < buffer_length
    → length prm + 4 + length c.value ≤ buffer_length
    → add_one_bgp_new_capability prm c ≡ ok (prm ++ parameter c)
unfolding add_one_bgp_new_capability
added prm c small fits = ground arith

-- What the loop writes, if it all fits.
add_all-parameters :
    (cs : List Capability) (prm : List ℕ)
    → length prm + length (parameters cs) + 8 < buffer_length
    → add_all prm cs ≡ ok (prm ++ parameters cs)
unfolding add_all
add_all-parameters [] prm fit = ap ok (sym (append-nil prm))
add_all-parameters (c ∷ cs) prm fit =
    let one = length-append (parameter c) (parameters cs) in
    let two = length-append prm (parameter c) in
    rw (added prm c (omega arith) (omega arith)) (
      add_all-parameters cs (prm ++ parameter c) (omega arith)
      ∙ ap ok (append_assoc prm (parameter c) (parameters cs)))

-- One turn of the loop, on a parameter that was written.
read_one :
    (c : Capability) (rest : List ℕ) (fuel count : ℕ)
    → length c.value < 254
    → extract_from (suc fuel) count (parameter c ++ rest) ≡ (
        if leb max_num_of_capabilities count
        then err out_of_bounds
        else (extract_from fuel (suc count) rest >>= λ more. ok (c ∷ more)))
unfolding extract_from
read_one c rest fuel count short =
    let size : (2 + length c.value) % 256 ≡ suc (suc (length c.value)) = omega (arith, short) in
    let bytes = (2 + length c.value) % 256 ∷ c.code ∷ length c.value ∷ c.value ++ rest in
    ap₂
      (λ v m.
        if leb max_num_of_capabilities count
        then err out_of_bounds
        else (extract_from fuel (suc count) m >>= λ more.
            ok (record { code = c.code; value = v } ∷ more)))
      (copy-append c.value rest) (ap (λ k. drop (suc k) bytes) size ∙ drop-append c.value rest)

read_back :
    (cs : List Capability) (fuel count : ℕ)
    → AllShort cs
    → count + length cs ≤ max_num_of_capabilities
    → length (parameters cs) ≤ fuel
    → extract_from fuel count (parameters cs) ≡ ok cs
unfolding extract_from
read_back [] zero count short room le = refl
read_back [] (suc fuel) count short room le = refl
read_back (c ∷ cs) zero count short room le = absurd (omega arith)
read_back (c ∷ cs) (suc fuel) count short room le =
    let one = length-append (parameter c) (parameters cs) in
    let left : leb max_num_of_capabilities count ≡ false = ground (arith, room) in
    read_one c (parameters cs) fuel count short.0
    ∙ rw (left, read_back cs fuel (suc count) short.1 (omega arith) (omega arith)) refl

-- At most 256 capabilities that fit the buffer, each with a value of at most 253 bytes, are read
-- back by extractBgpCapabilities as addOneBGPNewCapability wrote them.
pub extract-add_all :
    (cs : List Capability)
    → AllShort cs
    → length cs ≤ max_num_of_capabilities
    → length (parameters cs) + 8 < buffer_length
    → (prm : List ℕ) × (add_all [] cs ≡ ok prm) × (extract_bgp_capabilities prm ≡ ok cs)
unfolding extract_bgp_capabilities
extract-add_all cs short few fit = (
  parameters cs,
  add_all-parameters cs [] (omega arith),
  read_back cs _ 0 short (omega (arith, few)) (omega arith),
)
