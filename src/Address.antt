-- ===== src/Address.antt =====
-- Util/address.c: from an address string to a socket address. getaddrinfo of the C library is a
-- parameter; its result is a list of which NULL is the empty one.
use Prim.Native.String.{String}
use text.Mathlib.Text.{◌==◌ as str_eq}
use bgpmon.Base.{
  ℕ, Bool, true, false, ◌||◌, List, [], ◌∷◌, Option, none, some, Result, ok, err, log_fatal,
  if◌then◌else◌,
}

pub data Family : Type 0 where
  inet inet6 other : Family

-- A struct sockaddr: the family and the bytes of the address, 4 or 16 of them.
pub record SockAddr : Type 0 where
  pub family : Family
  pub bytes : List ℕ

abbrev pub same_family : Family → Family → Bool
same_family inet inet = true
same_family inet6 inet6 = true
same_family other other = true
same_family _ _ = false

abbrev pub is_special : String → Bool
is_special a =
    (str_eq a "ipv4loopback" || str_eq a "ipv6loopback")
    || (str_eq a "ipv4any" || str_eq a "ipv6any")

abbrev pub is_ipv4_name : String → Bool
is_ipv4_name a = str_eq a "ipv4loopback" || str_eq a "ipv4any"

unfoldable pub first_of_family : Family → List SockAddr → Option SockAddr
first_of_family f [] = none
first_of_family f (a ∷ as') = if same_family a.family f then some a else first_of_family f as'

abbrev pub first : List SockAddr → Option SockAddr
first [] = none
first (a ∷ _) = some a

-- getaddrinfo's arguments here are the host, NULL for the four special names, and AI_PASSIVE.
pub record Resolver : Type 0 where
  pub getaddrinfo : Option String → Bool → List SockAddr

module _ (rs : Resolver) where
  -- createAddrInfo; the port does not change the address.
  unfoldable pub create_addr_info : String → Result (Option SockAddr)
  create_addr_info addr =
      let passive = str_eq addr "ipv4any" || str_eq addr "ipv6any" in
      if is_special addr
      then elim (first_of_family (if is_ipv4_name addr then inet else inet6)
          (rs.getaddrinfo none passive)) [ none ↦ err log_fatal | some a ↦ ok (some a) ]
      else ok (first (rs.getaddrinfo (some addr) passive))
