-- ===== src/Labeling/Batch.antt =====
-- The loops over an NLRI as folds over its prefixes (Labeling/rtable.c).
use bgpmon.Base.{
  ℕ, zero, suc, ◌^◌, ◌≤◌, ◌<◌, ◌≡◌, refl, sym, ap, List, [], ◌∷◌, ◌++◌, Option, true, false, ◌==◌,
  length, Result, ok, ◌>>=◌, arith, subst, length-append,
}
use bgpmon.Labeling.Heaps.{eq_ne}
use bgpmon.Labeling.State.{Prefix, Rib, prefix_size}
use bgpmon.Labeling.Stream.{Mstream, mstream_init, mstream_can_read, skip}
use bgpmon.Labeling.Prefixes.{Bmf, apply_reachable_prefix, apply_unreachable_prefix}
use bgpmon.Labeling.Nlri.{
  BgpNlri, nlri_check, reachable_loop, unreachable_loop, apply_reachable_nlri,
  apply_unreachable_nlri, read_prefix,
}
use bgpmon.Labeling.Encoded.{
  Holds, can_read_lem, getc_lem, skip_lem, bytes_lem, encode, AllIn, IsIn,
}
use bgpmon.Labeling.Corrupt.{check_encoded}

unfoldable pub withdraw_prefixes : List Prefix → Rib → Option Bmf → Result (Rib × Option Bmf)
withdraw_prefixes [] r bmf = ok (r, bmf)
withdraw_prefixes (p ∷ ps) r bmf =
    apply_unreachable_prefix p r bmf >>= λ (r', bmf'). withdraw_prefixes ps r' bmf'

unfoldable pub announce_prefixes :
    ℕ → ℕ → List Prefix → Rib → Option Bmf → Result (Rib × Option Bmf)
announce_prefixes a ts [] r bmf = ok (r, bmf)
announce_prefixes a ts (p ∷ ps) r bmf =
    apply_reachable_prefix p a ts r bmf >>= λ (r', bmf'). announce_prefixes a ts ps r' bmf'

-- The memory of an NLRI holds these prefixes.
pub record Encodes (n : BgpNlri) (ps : List Prefix) : Type 0 where
  pub rest : List ℕ
  pub all : AllIn n.afi n.safi ps
  pub memory : n.nlri ≡ encode ps ++ rest
  pub whole : n.nlri_len ≡ length (encode ps)
  pub fits : n.nlri_len < 2 ^ 16

module _ (n : BgpNlri) (rest : List ℕ) where
  module _ (p : Prefix) (ps : List Prefix) (s : Mstream) (here : IsIn n.afi n.safi p)
      (h : Holds s (encode (p ∷ ps)) rest) where
    more : (mstream_can_read s == 0) ≡ false
    more =
        eq_ne (mstream_can_read s) 0
          (λ z. absurd (omega (arith, z, can_read_lem s (encode (p ∷ ps)) rest h)))

    after_len : Holds (skip 1 s) (p.paddr ++ encode ps) rest
    after_len = skip_lem s (p.p_len ∷ []) (p.paddr ++ encode ps) rest h

    pub after_prefix : Holds (skip (prefix_size p.p_len) (skip 1 s)) (encode ps) rest
    after_prefix =
        subst (λ k. Holds (skip k (skip 1 s)) (encode ps) rest) here.whole
          (skip_lem (skip 1 s) p.paddr (encode ps) rest after_len)

    pub read_prefix_lem : read_prefix n p.p_len (skip 1 s) ≡ ok p
    read_prefix_lem =
        rw
          (
            sym here.whole,
            bytes_lem (skip 1 s) p.paddr (encode ps) rest after_len,
            sym here.same_afi,
            sym here.same_safi,
          )
          refl

  unreachable_lem :
      (ps : List Prefix) (fuel : ℕ) (s : Mstream) (r : Rib) (bmf : Option Bmf)
      → AllIn n.afi n.safi ps
      → Holds s (encode ps) rest
      → length ps < fuel
      → unreachable_loop fuel n s r bmf ≡ withdraw_prefixes ps r bmf
  unfolding unreachable_loop withdraw_prefixes
  unreachable_lem ps zero s r bmf all h enough = absurd (omega (arith, enough))
  unreachable_lem [] (suc fuel) s r bmf all h enough = rw (can_read_lem s [] rest h) refl
  unreachable_lem (p ∷ ps) (suc fuel) s r bmf all h enough =
      rw
        (
          more p ps s all.0 h,
          getc_lem s p.p_len (p.paddr ++ encode ps) rest h,
          read_prefix_lem p ps s all.0 h,
        )
        (λ i. apply_unreachable_prefix p r bmf >>= (λ x.
          unreachable_lem ps fuel (skip (prefix_size p.p_len) (skip 1 s)) x.0 x.1 all.1
            (after_prefix p ps s all.0 h) (omega (arith, enough)) i))

  reachable_lem :
      (ps : List Prefix) (a ts fuel : ℕ) (s : Mstream) (r : Rib) (bmf : Option Bmf)
      → AllIn n.afi n.safi ps
      → Holds s (encode ps) rest
      → length ps < fuel
      → reachable_loop fuel n a ts s r bmf ≡ announce_prefixes a ts ps r bmf
  unfolding reachable_loop announce_prefixes
  reachable_lem ps a ts zero s r bmf all h enough = absurd (omega (arith, enough))
  reachable_lem [] a ts (suc fuel) s r bmf all h enough = rw (can_read_lem s [] rest h) refl
  reachable_lem (p ∷ ps) a ts (suc fuel) s r bmf all h enough =
      rw
        (
          more p ps s all.0 h,
          getc_lem s p.p_len (p.paddr ++ encode ps) rest h,
          read_prefix_lem p ps s all.0 h,
        )
        (λ i. apply_reachable_prefix p a ts r bmf >>= (λ x.
          reachable_lem ps a ts fuel (skip (prefix_size p.p_len) (skip 1 s)) x.0 x.1 all.1
            (after_prefix p ps s all.0 h) (omega (arith, enough)) i))

pub length-encode : (ps : List Prefix) → length ps ≤ length (encode ps)
length-encode [] = omega arith
length-encode (p ∷ ps) = omega (arith, length-encode ps, length-append p.paddr (encode ps))

module _ (n : BgpNlri) (ps : List Prefix) (e : Encodes n ps) where
  holds : Holds (mstream_init n.nlri n.nlri_len) (encode ps) e.rest
  holds = record { at = e.memory; ends = omega (arith, e.whole); fits = e.fits }

  enough : length ps < suc (length n.nlri)
  enough = omega (arith, length-encode ps, ap length e.memory, length-append (encode ps) e.rest)

  -- The memory of an NLRI that holds prefixes is accepted, and the loops take these prefixes.
  pub nlri_check-encode : nlri_check n ≡ ok true
  nlri_check-encode =
      check_encoded n.afi n.safi e.rest ps (suc (length n.nlri)) (mstream_init n.nlri n.nlri_len)
        e.all holds enough

  pub apply_unreachable_nlri-encode :
      (r : Rib) (bmf : Option Bmf) → apply_unreachable_nlri n r bmf ≡ withdraw_prefixes ps r bmf
  apply_unreachable_nlri-encode r bmf =
      unreachable_lem n e.rest ps (suc (length n.nlri)) (mstream_init n.nlri n.nlri_len) r bmf e.all
        holds enough

  -- applyReachableNLRI on the bytes of an encoded list of prefixes announces exactly these
  -- prefixes, in order.
  pub apply_reachable_nlri-encode :
      (a ts : ℕ) (r : Rib) (bmf : Option Bmf)
      → apply_reachable_nlri ts n a r bmf ≡ announce_prefixes a ts ps r bmf
  apply_reachable_nlri-encode a ts r bmf =
      reachable_lem n e.rest ps a ts (suc (length n.nlri)) (mstream_init n.nlri n.nlri_len) r bmf
        e.all holds enough
