-- ===== src/Labeling/Updates.antt =====
-- How a parsed BGP update changes the RIB (applyBGPUpdate in Labeling/rtable.c).
use bgpmon.Base.{
  ℕ, List, [], ◌∷◌, Option, Bool, true, false, ◌==◌, if◌then◌else◌, length, Result, ok, ◌>>=◌,
}
use bgpmon.Labeling.State.{Rib}
use bgpmon.Labeling.Attributes.{Attribute, search_attr_node}
use bgpmon.Labeling.Prefixes.{Bmf}
use bgpmon.Labeling.Nlri.{BgpNlri, nlri_check, apply_reachable_nlri, apply_unreachable_nlri}

-- The flag of an mp NLRI, 0 for reachable and 1 for unreachable prefixes.
pub data MpFlag : Type 0 where
  reach unreach : MpFlag

pub record ParsedBgpUpdate : Type 0 where
  pub unreach_nlri : BgpNlri
  pub reach_nlri : BgpNlri
  pub mp_nlri : List (MpFlag × BgpNlri)
  pub as_path : List ℕ
  pub attr : Attribute

-- The RIB and the message after an update, and whether 0 or -1 is returned.
pub record Applied : Type 0 where
  pub returned : Bool
  pub rib : Rib
  pub bmf : Option Bmf

abbrev pub success : Rib × Option Bmf → Result Applied
success (r, bmf) = ok (record { returned = true; rib = r; bmf = bmf })

abbrev pub failure : Rib → Option Bmf → Result Applied
failure r bmf = ok (record { returned = false; rib = r; bmf = bmf })

-- The rest of the function, where this part did not return -1.
abbrev pub after : Applied → (Rib → Option Bmf → Result Applied) → Result Applied
after o f = if o.returned then f o.rib o.bmf else ok o

unfoldable pub withdraw_all : BgpNlri → Rib → Option Bmf → Result Applied
withdraw_all n r bmf = nlri_check n >>= λ good.
    let applied = apply_unreachable_nlri n r bmf >>= success in
    if good then applied else failure r bmf

unfoldable pub announce_all : ℕ → List ℕ → Attribute → BgpNlri → Rib → Option Bmf → Result Applied
announce_all ts path attribute n r bmf = nlri_check n >>= λ good.
    let applied = search_attr_node path attribute r >>= λ (a, r').
    apply_reachable_nlri ts n a r' bmf >>= success in
    if good then applied else failure r bmf

unfoldable pub apply_mp : ℕ → ParsedBgpUpdate → MpFlag × BgpNlri → Rib → Option Bmf → Result Applied
apply_mp ts u (reach, n) r bmf =
    let applied = announce_all ts u.as_path u.attr n r bmf in
    if length u.attr.bytes == 0 then failure r bmf else applied
apply_mp ts u (unreach, n) r bmf = withdraw_all n r bmf

unfoldable pub apply_mps :
    ℕ → ParsedBgpUpdate → List (MpFlag × BgpNlri) → Rib → Option Bmf → Result Applied
apply_mps ts u [] r bmf = success (r, bmf)
apply_mps ts u (n ∷ ns) r bmf =
    apply_mp ts u n r bmf >>= λ o. after o (λ r' bmf'. apply_mps ts u ns r' bmf')

unfoldable pub apply_unreach : BgpNlri → Rib → Option Bmf → Result Applied
apply_unreach n r bmf =
    let applied = withdraw_all n r bmf in if n.nlri_len == 0 then success (r, bmf) else applied

unfoldable pub apply_reach : ℕ → ParsedBgpUpdate → Rib → Option Bmf → Result Applied
apply_reach ts u r bmf =
    let applied = announce_all ts u.as_path u.attr u.reach_nlri r bmf in
    if u.reach_nlri.nlri_len == 0
    then success (r, bmf)
    else if u.attr.basic_attrlen == 0
    then failure r bmf
    else applied

unfoldable pub apply_bgp_update : ℕ → ParsedBgpUpdate → Rib → Option Bmf → Result Applied
apply_bgp_update ts u r bmf =
    (apply_unreach u.unreach_nlri r bmf >>= λ o. after o (apply_mps ts u u.mp_nlri)) >>= λ o.
    after o (apply_reach ts u)
