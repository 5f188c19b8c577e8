-- ===== src/Acl/Range.antt =====
-- Which addresses a rule covers (isAddressInRange and isRuleApplicable of Util/acl.c).
use Prim.Native.Nat.{bit_or}
use mathlib.Core.Path.{ap₂}
use bgpmon.Base.{
  ℕ, zero, suc, ◌≡◌, ◌<◌, refl, ◌↔◌, Bool, true, false, ◌&&◌, List, [], ◌∷◌, arith, if◌then◌else◌,
  ◌==◌, ==_iff, length, replicate,
}
use bgpmon.Address.{inet, inet6}
use bgpmon.Acl.Match.{is_address_in_range, in_rule, widen}

abbrev pub AllBytes : List ℕ → Type 0
AllBytes [] = Unit {0}
AllBytes (b ∷ bs) = (b < 256) × AllBytes bs

-- A test that every byte passes is decided by trying them.
bytes_pass : (ℕ → Bool) → ℕ → Bool
bytes_pass test zero = true
bytes_pass test (suc n) = if test n then bytes_pass test n else false

byte_passes :
    (test : ℕ → Bool) (bound byte : ℕ)
    → byte < bound
    → bytes_pass test bound ≡ true
    → test byte ≡ true
unfolding bytes_pass
byte_passes test zero byte lt pass = elim lt [ ]
byte_passes test (suc n) byte lt pass = grind (arith, byte_passes test n byte)

-- What 0 and 255 do to a byte.
or_law : ℕ → Bool
or_law x = bit_or x 0 == x && bit_or x 255 == 255

or_laws : bytes_pass or_law 256 ≡ true
unfolding bytes_pass or_law
or_laws = refl

or_zero : (x : ℕ) → x < 256 → bit_or x 0 ≡ x
unfolding or_law
or_zero x h =
    let law = byte_passes or_law 256 x h or_laws in (==_iff (bit_or x 0) x).0 (ground arith)

or_ones : (x : ℕ) → x < 256 → bit_or x 255 ≡ 255
unfolding or_law
or_ones x h =
    let law = byte_passes or_law 256 x h or_laws in (==_iff (bit_or x 255) 255).0 (ground arith)

same_head : (c r : ℕ) (b : Bool) → (if c == r then b else false) ≡ true → (c ≡ r) × (b ≡ true)
same_head c r b e = ground arith

cons_iff :
    (c r : ℕ) (cs rs : List ℕ) (b : Bool)
    → (b ≡ true) ↔ (cs ≡ rs)
    → ((if c == r then b else false) ≡ true) ↔ (c ∷ cs ≡ r ∷ rs)
cons_iff c r cs rs b i = (
  λ e. let (h, t) = same_head c r b e in ap₂ ◌∷◌ h (i.0 t),
  λ e. let h : c ≡ r = cc in let t : b ≡ true = i.1 (cc) in rw (h, t) (ground arith),
)

-- Under a mask of zeros only the address itself is in range.
in_range_exact :
    (n : ℕ) (c r : List ℕ)
    → length c ≡ n
    → length r ≡ n
    → AllBytes c
    → AllBytes r
    → (is_address_in_range c r (replicate n 0) ≡ true) ↔ (c ≡ r)
unfolding is_address_in_range
in_range_exact zero [] [] a b p q = (λ _. refl, λ _. refl)
in_range_exact (suc n) (c ∷ cs) (r ∷ rs) a b p q =
    rw (or_zero c p.0, or_zero r q.0)
      (cons_iff c r cs rs _ (in_range_exact n cs rs (omega arith) (omega arith) p.1 q.1))
in_range_exact zero (c ∷ cs) r a b p q = absurd (omega arith)
in_range_exact zero [] (r ∷ rs) a b p q = absurd (omega arith)
in_range_exact (suc n) [] r a b p q = absurd (omega arith)
in_range_exact (suc n) (c ∷ cs) [] a b p q = absurd (omega arith)

-- Under a mask of ones every address is.
in_range_all :
    (n : ℕ) (c r : List ℕ)
    → AllBytes c
    → AllBytes r
    → is_address_in_range c r (replicate n 255) ≡ true
unfolding is_address_in_range
in_range_all (suc n) (c ∷ cs) (r ∷ rs) p q =
    rw (or_ones c p.0, or_ones r q.0) (in_range_all n cs rs p.1 q.1)
in_range_all zero (c ∷ cs) (r ∷ rs) p q = refl
in_range_all zero [] r p q = refl
in_range_all zero (c ∷ cs) [] p q = refl
in_range_all (suc n) [] r p q = refl
in_range_all (suc n) (c ∷ cs) [] p q = refl

-- For IPv4 addresses of four bytes, a rule with the mask 0.0.0.0 applies to its own address and to
-- no other, and one with the mask 255.255.255.255 applies to every client.
pub ipv4_masks :
    (client address : List ℕ)
    → length client ≡ 4
    → length address ≡ 4
    → AllBytes client
    → AllBytes address
    → ((in_rule (widen inet client) inet address (replicate 4 0) ≡ true) ↔ (client ≡ address))
      × (in_rule (widen inet client) inet address (replicate 4 255) ≡ true)
unfolding in_rule is_address_in_range
ipv4_masks client address lc la bc ba =
    (in_range_exact 4 client address lc la bc ba, in_range_all 4 client address bc ba)

-- An IPv6 rule ignores its address: whatever that is, the rule applies to the one client whose
-- address is the rule's mask.
pub ipv6_rule_ignores_address :
    (client address mask : List ℕ)
    → length client ≡ 16
    → length mask ≡ 16
    → AllBytes client
    → AllBytes mask
    → (in_rule (widen inet6 client) inet6 address mask ≡ true) ↔ (client ≡ mask)
unfolding in_rule
ipv6_rule_ignores_address client address mask lc lm bc bm =
    in_range_exact 16 client mask lc lm bc bm
