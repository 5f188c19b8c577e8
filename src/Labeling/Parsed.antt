-- ===== src/Labeling/Parsed.antt =====
-- What parseBGPUpdate makes of the bytes of an update (Labeling/rtable.c).
use mathlib.Core.List.{append_assoc, append-nil}
use bgpmon.Base.{
  ℕ, suc, ◌+◌, ◌-◌, ◌*◌, ◌/◌, ◌%◌, ◌^◌, ◌≤◌, ◌<◌, ◌≡◌, refl, sym, ap, ◌∙◌, subst, List, [], ◌∷◌,
  ◌++◌, Option, some, false, ◌==◌, length, if◌then◌else◌, Result, ok, arith, length-append,
  replicate,
}
use bgpmon.Labeling.Heaps.{eq_ne}
use bgpmon.Labeling.State.{Prefix, plus, minus}
use bgpmon.Labeling.Stream.{Mstream, mstream_init, mstream_current_address, bytes_of, skip, drop}
use bgpmon.Labeling.Updates.{ParsedBgpUpdate}
use bgpmon.Labeling.Attrs.{Attrs, max_bgp_message_len}
use bgpmon.Labeling.Parse.{
  buffer_memory, ipv4_nlri, parse_mps, parse_attrs, parse_reach_nlri, parse_bgp_update, no_attrs,
}
use bgpmon.Labeling.Encoded.{Holds, skip_lem, bytes_of-append, drop-append, encode, AllIn}
use bgpmon.Labeling.Batch.{Encodes}
use bgpmon.Labeling.Attributed.{
  AttrValue, AllPlain, encode_attrs, basics, path_of, attrs_loop_lem, getw_lem,
}
use bgpmon.Labeling.Messages.{
  be16, UpdateMessage, tail_bytes, body_bytes, update_bytes, Parsed, basics_le, length-attrs,
  buffer, unreach_step, copied_step,
}

module _ (ws rs : List Prefix) (ws_in : AllIn 1 1 ws) (rs_in : AllIn 1 1 rs) where
  abbrev w : List ℕ
  w = encode ws

  abbrev e : List ℕ
  e = encode rs

  abbrev zeros : List ℕ → List ℕ
  zeros written = replicate (max_bgp_message_len - length written) 0

  -- The two NLRIs of IPv4 unicast, with anything behind them.
  ipv4_unreach :
      (more : List ℕ)
      → length w < 2 ^ 16
      → Encodes (ipv4_nlri (buffer ((w ++ e) ++ more)) (length w) 0) ws
  ipv4_unreach more lt = record {
    rest = e ++ (more ++ zeros ((w ++ e) ++ more));
    all = ws_in;
    memory =
        append_assoc (w ++ e) more (zeros ((w ++ e) ++ more))
        ∙ append_assoc w e (more ++ zeros ((w ++ e) ++ more));
    whole = refl;
    fits = lt;
  }

  ipv4_reach :
      (more : List ℕ)
      → length e < 2 ^ 16
      → Encodes (ipv4_nlri (buffer ((w ++ e) ++ more)) (length e) (length w)) rs
  ipv4_reach more lt = record {
    rest = more ++ zeros ((w ++ e) ++ more);
    all = rs_in;
    memory =
        let here : 0 + length w ≡ length w = omega arith in
        ap (drop (((w ++ e) ++ more) ++ zeros ((w ++ e) ++ more))) (sym here)
        ∙ drop-append (((w ++ e) ++ more) ++ zeros ((w ++ e) ++ more)) w
            (e ++ (more ++ zeros ((w ++ e) ++ more))) 0
            (append_assoc (w ++ e) more (zeros ((w ++ e) ++ more))
              ∙ append_assoc w e (more ++ zeros ((w ++ e) ++ more)));
    whole = refl;
    fits = lt;
  }

  abbrev message : List AttrValue → UpdateMessage
  message as' = record { withdrawn = ws; attrs = as'; announced = rs }

  abbrev ParsesTo : List AttrValue → Result (Option ParsedBgpUpdate) → Type 0
  ParsesTo as' s = (p : ParsedBgpUpdate) × (s ≡ ok (some p)) × Parsed (message as') p

  attrs_step :
      (as' : List AttrValue) (rest : List ℕ) (s : Mstream)
      → AllPlain as'
      → Holds s (encode_attrs as' ++ e) rest
      → length w + length e + length (encode_attrs as') ≤ max_bgp_message_len
      → ParsesTo as' (
          if length (encode_attrs as') == 0
          then ok (some (no_attrs (length w) (length e) (buffer (w ++ e))))
          else parse_attrs (length w) (length e) s (length (encode_attrs as')) (buffer (w ++ e)))
  unfolding parse_attrs parse_mps
  attrs_step [] rest s plain h room = (
    no_attrs (length w) (length e) (buffer (w ++ e)),
    refl,
    record {
      withdrawn =
          subst (λ z. Encodes (ipv4_nlri (buffer z) (length w) 0) ws) (append-nil (w ++ e))
            (ipv4_unreach [] (omega (arith, room)));
      announced =
          subst (λ z. Encodes (ipv4_nlri (buffer z) (length e) (length w)) rs) (append-nil (w ++ e))
            (ipv4_reach [] (omega (arith, room)));
      no_mp = refl;
      as_path = refl;
      bytes = refl;
      basic = refl;
    },
  )
  attrs_step (a ∷ as') rest s plain h room =
      let all : List AttrValue = a ∷ as' in
      let memory : List ℕ = mstream_current_address s in
      let st : Attrs = record { b = buffer (w ++ e); mp = []; as_path = [] } in
      let filled : List ℕ = (w ++ e) ++ basics all in
      let alone : Holds (mstream_init memory (length (encode_attrs all))) (encode_attrs all)
          (e ++ rest) =
        record {
          at = h.at ∙ append_assoc (encode_attrs all) e rest;
          ends = omega arith;
          fits = omega (arith, room);
        } in
      let few : length all < suc (length memory) = omega (
        arith,
        length-attrs all,
        ap length h.at,
        length-append (encode_attrs all ++ e) rest,
        length-append (encode_attrs all) e,
      ) in
      let loop =
        attrs_loop_lem all (e ++ rest) (suc (length memory))
          (mstream_init memory (length (encode_attrs all))) st plain alone
          (omega (arith, room, length-append w e, basics_le all)) few in
      let basic : (length filled - length (w ++ e)) % 2 ^ 16 ≡ length (basics all) =
        omega (arith, room, length-append (w ++ e) (basics all), basics_le all) in
      let behind : buffer_memory (buffer filled) (length (w ++ e)) ≡ basics all ++ zeros filled =
        let here : 0 + length (w ++ e) ≡ length (w ++ e) = omega arith in
        ap (drop (filled ++ zeros filled)) (sym here)
        ∙ drop-append (filled ++ zeros filled) (w ++ e) (basics all ++ zeros filled) 0
            (append_assoc (w ++ e) (basics all) (zeros filled)) in
      let bytes : bytes_of (buffer_memory (buffer filled) (length (w ++ e))) (length (basics all))
          ≡ some (basics all) =
        ap (λ z. bytes_of z (length (basics all))) behind
        ∙ bytes_of-append (basics all) (zeros filled) in
      let some_attrs : (length (encode_attrs all) == 0) ≡ false =
        eq_ne (length (encode_attrs all)) 0 (λ z. absurd (omega (arith, z))) in
      (
        record {
          unreach_nlri = ipv4_nlri (buffer filled) (length w) 0;
          reach_nlri = ipv4_nlri (buffer filled) (length e) (length w);
          mp_nlri = [];
          as_path = path_of all [];
          attr = record { basic_attrlen = length (basics all); bytes = basics all };
        },
        rw (some_attrs, loop, basic, bytes) refl,
        record {
          withdrawn = ipv4_unreach (basics all) (omega (arith, room));
          announced = ipv4_reach (basics all) (omega (arith, room));
          no_mp = refl;
          as_path = refl;
          bytes = refl;
          basic = refl;
        },
      )

  be16_value : (n : ℕ) → (0 * 256 + n / 256) * 256 + n % 256 ≡ n
  be16_value n = omega arith

  -- parseBGPUpdate, on a message of at most 4096 bytes that holds withdrawn and announced IPv4
  -- unicast prefixes and attributes with lengths of one byte, none of an mp address family, reads
  -- back the prefixes, the last AS path and the bytes of all other attributes.
  pub parse_bgp_update_lem :
      (as' : List AttrValue) (raw rest : List ℕ)
      → AllPlain as'
      → drop raw 19 ≡ update_bytes (message as') ++ rest
      → 19 + length (update_bytes (message as')) ≤ max_bgp_message_len
      → ParsesTo as' (parse_bgp_update raw (19 + length (update_bytes (message as'))))
  unfolding parse_bgp_update parse_reach_nlri
  parse_bgp_update_lem as' raw rest plain memory fits =
      let m : UpdateMessage = message as' in
      let len : ℕ = 19 + length (update_bytes m) in
      let sizes : length (update_bytes m) ≡ 4 + length w + length (encode_attrs as') + length e =
        omega (arith, length-append w (body_bytes m), length-append (encode_attrs as') e) in
      let s0 : Mstream = mstream_init (drop raw 19) (minus 32 len 19) in
      let h0 : Holds s0 (update_bytes m) rest = record {
        at = memory;
        ends = omega (arith, fits);
        fits = omega (arith, fits);
      } in
      let h1 : Holds (skip 2 s0) (w ++ body_bytes m) rest =
        skip_lem s0 (be16 (length w)) (w ++ body_bytes m) rest h0 in
      let s2 : Mstream = skip (length w) (skip 2 s0) in
      let h2 : Holds s2 (body_bytes m) rest = skip_lem (skip 2 s0) w (body_bytes m) rest h1 in
      let s3 : Mstream = skip 2 s2 in
      let h3 : Holds s3 (tail_bytes m) rest =
        skip_lem s2 (be16 (length (encode_attrs as'))) (tail_bytes m) rest h2 in
      let reach_len : minus 32 s3.len (plus 32 s3.position (length (encode_attrs as'))) % 2 ^ 16
          ≡ length e =
        omega (arith, h3.ends, h3.fits, length-append (encode_attrs as') e) in
      let here : 0 + length (encode_attrs as') ≡ length (encode_attrs as') = omega arith in
      let announced : drop (mstream_current_address s3) (length (encode_attrs as')) ≡ e ++ rest =
        ap (drop (mstream_current_address s3)) (sym here)
        ∙ drop-append (mstream_current_address s3) (encode_attrs as') (e ++ rest) 0
            (h3.at ∙ append_assoc (encode_attrs as') e rest) in
      rw
        (
          getw_lem s0 (length w / 256) (length w % 256) (w ++ body_bytes m) rest h0,
          be16_value (length w),
          unreach_step w (body_bytes m) rest (skip 2 s0) h1 (omega (arith, fits, sizes)),
          getw_lem s2 (length (encode_attrs as') / 256) (length (encode_attrs as') % 256)
              (tail_bytes m) rest h2,
          be16_value (length (encode_attrs as')),
          reach_len,
          announced,
          copied_step w e rest (omega (arith, fits, sizes)),
        )
        (attrs_step as' rest s3 plain h3 (omega (arith, fits, sizes)))
