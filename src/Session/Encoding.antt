-- ===== src/Session/Encoding.antt =====
-- Peering/bgppacket.c: capabilities as the optional parameters of an OPEN message, one in each.
-- Parameters are the bytes of the list up to its length; the rest of the list is 0.
use bgpmon.Base.{
  ℕ, zero, suc, ◌+◌, ◌%◌, List, [], ◌∷◌, ◌++◌, Result, ok, err, out_of_bounds, ◌>>=◌, if◌then◌else◌,
  ltb, leb, ◌==◌, length, get_or,
}
use bgpmon.Session.State.{Capability}

abbrev pub buffer_length : ℕ
buffer_length = 4096

-- What addOneBGPNewCapability writes; capabilityParameter is 2, and bytes wrap.
abbrev pub parameter : Capability → List ℕ
parameter c = 2 ∷ (2 + length c.value) % 256 ∷ c.code ∷ length c.value ∷ c.value

-- With less than 9 bytes left nothing is added. The check does not look at the capability's length.
unfoldable pub add_one_bgp_new_capability : List ℕ → Capability → Result (List ℕ)
add_one_bgp_new_capability prm c =
    if ltb (length prm + 8) buffer_length
    then if leb (length prm + 4 + length c.value) buffer_length
      then ok (prm ++ parameter c)
      else err out_of_bounds
    else ok prm

-- The loop of sendOpenMessage over the capabilities to announce.
unfoldable pub add_all : List ℕ → List Capability → Result (List ℕ)
add_all prm [] = ok prm
add_all prm (c ∷ cs) = add_one_bgp_new_capability prm c >>= λ prm'. add_all prm' cs

abbrev pub drop : ℕ → List ℕ → List ℕ
drop zero l = l
drop (suc n) [] = []
drop (suc n) (b ∷ l) = drop n l

-- memcpy of n bytes.
abbrev pub copy : ℕ → List ℕ → List ℕ
copy zero l = []
copy (suc n) [] = 0 ∷ copy n []
copy (suc n) (b ∷ l) = b ∷ copy n l

abbrev pub max_num_of_capabilities : ℕ
max_num_of_capabilities = 256

-- The loop of extractBgpCapabilities, from the bytes at i on, with the capabilities found so far. The
-- array of the result has 256 places, and the loop does not look at its end.
unfoldable pub extract_from : ℕ → ℕ → List ℕ → Result (List Capability)
extract_from zero count l = ok []
extract_from (suc fuel) count [] = ok []
extract_from (suc fuel) count (b ∷ l) =
    let rest =
      extract_from fuel (if b == 2 then suc count else count) (drop (suc (get_or l 0 0)) l) in
    let one : Capability = record { code = get_or l 1 0; value = copy (get_or l 2 0) (drop 3 l) } in
    let all = rest >>= λ more. ok (one ∷ more) in
    if b == 2 then if leb max_num_of_capabilities count then err out_of_bounds else all else rest

-- Each turn of the loop passes two bytes or more.
unfoldable pub extract_bgp_capabilities : List ℕ → Result (List Capability)
extract_bgp_capabilities prm = extract_from (length prm) 0 prm
