-- ===== src/Labeling/Corrupt.antt =====
-- The sanity check of an NLRI (nlriCheck in Labeling/rtable.c).
use native.Mathlib.Decide.{ℕ_discrete}
use bgpmon.Base.{
  ℕ, zero, suc, ◌+◌, ◌%◌, ◌^◌, ◌≤◌, ◌<◌, ◌≡◌, ◌⊎◌, inl, inr, refl, List, [], ◌∷◌, ◌++◌, Bool, true,
  false, ltb, ◌==◌, length, Result, ok, err, out_of_bounds, arith, le→ltb,
}
use bgpmon.Labeling.Heaps.{eq_ne}
use bgpmon.Labeling.State.{Prefix, plus, prefix_size}
use bgpmon.Labeling.Stream.{Mstream, mstream_can_read, mstream_get, mstream_getc, drop, skip}
use bgpmon.Labeling.Nlri.{BgpNlri, check_loop, nlri_check}
use bgpmon.Labeling.Encoded.{Holds, can_read_lem, getc_lem, skip_lem, encode, AllIn, prefix_size_le}

pub drop_cases :
    (m : List ℕ) (n : ℕ)
    → (drop m n ≡ []) ⊎ ((b : ℕ) × (bs : List ℕ) × (drop m n ≡ b ∷ bs) × (n < length m))
drop_cases [] zero = inl refl
drop_cases [] (suc n) = inl refl
drop_cases (b ∷ m) zero = inr (b, m, refl, omega arith)
drop_cases (b ∷ m) (suc n) = elim (drop_cases m n) [
  | inl e ↦ inl e
  | inr (c, cs, e, lt) ↦ inr (c, cs, e, omega (arith, lt))
]

module _ (memory : List ℕ) (len : ℕ) (fits : len < 2 ^ 16)
    (short : length memory + 256 < 2 ^ 16) where
  abbrev stream : ℕ → Mstream
  stream position = record { start = memory; position = position; len = len }

  abbrev Verdict : Result Bool → Type 0
  Verdict s = (s ≡ ok true) ⊎ (s ≡ err out_of_bounds)

  at_end :
      (position : ℕ)
      → position < 2 ^ 16
      → mstream_can_read (stream position) ≡ 0
      → ltb len position ≡ false
  at_end position lt e = le→ltb len position (omega (arith, e, lt, fits))

  loop_lem :
      (fuel position : ℕ)
      → position ≤ length memory + 256
      → 0 < fuel
      → length memory < fuel + position
      → Verdict (check_loop fuel (stream position))
  unfolding check_loop mstream_getc mstream_get
  loop_lem zero position near pos enough = absurd (omega (arith, pos))
  loop_lem (suc fuel) position near pos enough =
      elim (ℕ_discrete (mstream_can_read (stream position)) 0) [
        | yes e ↦ inl (rw (e, at_end position (omega (arith, near, short)) e) refl)
        | no ne ↦
            let more : (mstream_can_read (stream position) == 0) ≡ false =
              eq_ne (mstream_can_read (stream position)) 0 ne in
            let room : ltb (mstream_can_read (stream position)) 1 ≡ false =
              le→ltb (mstream_can_read (stream position)) 1 (omega (arith, ne)) in
            elim (drop_cases memory position) [
              | inl gone ↦ inr (rw (more, room, gone) refl)
              | inr (b, bs, here, lt) ↦
                  let next : ℕ = plus 16 (plus 16 position 1) (prefix_size b % 2 ^ 8) in
                  let later : Verdict (check_loop fuel (stream next)) =
                    loop_lem fuel next (omega (arith, lt, short)) (omega (arith, lt, enough))
                      (omega (arith, lt, enough, short)) in
                  rw (more, room, here) later
            ]
      ]

-- Whatever an NLRI with a length of 16 bits and fewer than 2 ^ 16 - 256 bytes of memory, nlriCheck
-- never returns -1 and does not loop for ever: it returns 0 or reads past the memory.
pub nlri_check_lem :
    (n : BgpNlri)
    → n.nlri_len < 2 ^ 16
    → length n.nlri + 256 < 2 ^ 16
    → (nlri_check n ≡ ok true) ⊎ (nlri_check n ≡ err out_of_bounds)
nlri_check_lem n fits short =
    loop_lem n.nlri n.nlri_len fits short (suc (length n.nlri)) 0 (omega arith) (omega arith)
      (omega arith)

module _ (afi safi : ℕ) (rest : List ℕ) where
  pub check_encoded :
      (ps : List Prefix) (fuel : ℕ) (s : Mstream)
      → AllIn afi safi ps
      → Holds s (encode ps) rest
      → length ps < fuel
      → check_loop fuel s ≡ ok true
  unfolding check_loop
  check_encoded ps zero s all h enough = absurd (omega (arith, enough))
  check_encoded [] (suc fuel) s all h enough =
      rw (can_read_lem s [] rest h, le→ltb s.len s.position (omega (arith, h.ends))) refl
  check_encoded (p ∷ ps) (suc fuel) s all h enough =
      let more : (mstream_can_read s == 0) ≡ false =
        eq_ne (mstream_can_read s) 0
          (λ z. absurd (omega (arith, z, can_read_lem s (encode (p ∷ ps)) rest h))) in
      let after_len = skip_lem s (p.p_len ∷ []) (p.paddr ++ encode ps) rest h in
      let after_prefix = skip_lem (skip 1 s) p.paddr (encode ps) rest after_len in
      let size : prefix_size p.p_len % 2 ^ 8 ≡ length p.paddr =
        omega (arith, all.0.whole, prefix_size_le p.p_len all.0.small) in
      rw (more, getc_lem s p.p_len (p.paddr ++ encode ps) rest h, size)
        (check_encoded ps fuel (skip (length p.paddr) (skip 1 s)) all.1 after_prefix
          (omega (arith, enough)))
