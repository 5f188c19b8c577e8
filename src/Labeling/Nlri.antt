-- ===== src/Labeling/Nlri.antt =====
-- The loops over the prefixes of an NLRI (Labeling/rtable.c). The loops have fuel; without it they
-- stand for a loop that goes on.
use bgpmon.Base.{
  ℕ, zero, suc, ◌%◌, ◌^◌, List, Option, none, some, Bool, true, false, ltb, ◌==◌, length,
  if◌then◌else◌, Result, ok, err, out_of_bounds, hang, or_fault, ◌>>=◌,
}
use bgpmon.Labeling.State.{Prefix, Rib, prefix_size}
use bgpmon.Labeling.Stream.{
  Mstream, mstream_init, mstream_can_read, mstream_getc, mstream_current_address, bytes_of, skip,
}
use bgpmon.Labeling.Prefixes.{Bmf, apply_reachable_prefix, apply_unreachable_prefix}

-- Several prefixes of an address family: the length of the NLRI and the memory that starts with it.
pub record BgpNlri : Type 0 where
  pub nlri_len : ℕ
  pub afi : ℕ
  pub safi : ℕ
  pub nlri : List ℕ

-- What follows on the length of a prefix.
abbrev pub check_next : (Mstream → Result Bool) → Option (ℕ × Mstream) → Result Bool
check_next go none = ok false
check_next go (some (p_len, s)) = go (skip (prefix_size p_len % 2 ^ 8) s)

-- True stands for 0, false for -1.
unfoldable pub check_loop : ℕ → Mstream → Result Bool
check_loop zero s = err hang
check_loop (suc fuel) s =
    let next = mstream_getc s >>= check_next (λ s'. check_loop fuel s') in
    if mstream_can_read s == 0 then ok (if ltb s.len s.position then false else true) else next

-- Every turn reads a byte of the memory, so its length is fuel enough for all three loops.
abbrev pub nlri_check : BgpNlri → Result Bool
nlri_check n = check_loop (suc (length n.nlri)) (mstream_init n.nlri n.nlri_len)

-- The prefix at the current address of the stream, after its length was read.
abbrev pub read_prefix : BgpNlri → ℕ → Mstream → Result Prefix
read_prefix n len s =
    or_fault (bytes_of (mstream_current_address s) (prefix_size len)) out_of_bounds >>= λ paddr.
    ok (record { afi = n.afi; safi = n.safi; p_len = len; paddr = paddr })

-- Where the length cannot be read the code would go on with the last one; the loop only reads it
-- where there is a byte.
unfoldable pub reachable_loop :
    ℕ → BgpNlri → ℕ → ℕ → Mstream → Rib → Option Bmf → Result (Rib × Option Bmf)
reachable_loop zero n a ts s r bmf = err hang
reachable_loop (suc fuel) n a ts s r bmf =
    let next = mstream_getc s >>= λ got. or_fault got out_of_bounds >>= λ (len, s').
    read_prefix n len s' >>= λ p. apply_reachable_prefix p a ts r bmf >>= λ (r', bmf').
    reachable_loop fuel n a ts (skip (prefix_size len) s') r' bmf' in
    if mstream_can_read s == 0 then ok (r, bmf) else next

unfoldable pub unreachable_loop :
    ℕ → BgpNlri → Mstream → Rib → Option Bmf → Result (Rib × Option Bmf)
unreachable_loop zero n s r bmf = err hang
unreachable_loop (suc fuel) n s r bmf =
    let next = mstream_getc s >>= λ got. or_fault got out_of_bounds >>= λ (len, s').
    read_prefix n len s' >>= λ p. apply_unreachable_prefix p r bmf >>= λ (r', bmf').
    unreachable_loop fuel n (skip (prefix_size len) s') r' bmf' in
    if mstream_can_read s == 0 then ok (r, bmf) else next

abbrev pub apply_reachable_nlri : ℕ → BgpNlri → ℕ → Rib → Option Bmf → Result (Rib × Option Bmf)
apply_reachable_nlri ts n a r bmf =
    reachable_loop (suc (length n.nlri)) n a ts (mstream_init n.nlri n.nlri_len) r bmf

abbrev pub apply_unreachable_nlri : BgpNlri → Rib → Option Bmf → Result (Rib × Option Bmf)
apply_unreachable_nlri n r bmf =
    unreachable_loop (suc (length n.nlri)) n (mstream_init n.nlri n.nlri_len) r bmf
