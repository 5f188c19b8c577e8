-- ===== src/Session/Opening.antt =====
-- Which OPEN messages a session accepts, and what it takes from them (checkOpenMessage and
-- receiveOpenMessage of Peering/peersession.c).
use bgpmon.Base.{
  ℕ, ◌≤◌, ◌≡◌, refl, sym, ap, ◌∙◌, ◌↔◌, ◌⊎◌, Bool, true, false, not, ◌&&◌, ◌||◌, arith, ltb, ◌==◌,
}
use bgpmon.Session.State.{bgp_open, Session}
use bgpmon.Session.Capability.{check_capabilities, get_as_from_bgp_capability}
use bgpmon.Session.Inv.Receive.{check_open_message-Keeps}
use bgpmon.Session.Wire.{
  BgpOpen, Turn, complain, wrong_version, wrong_as, wrong_id, short_hold_time, check_open_message,
  accept_open,
}

-- What the configuration asks of an OPEN message; a value of 0 asks nothing.
pub record IsAcceptable (s : Session) (o : BgpOpen) : Type 0 where
  pub version : (s.remote_bgp_ver ≡ 0) ⊎ (s.remote_bgp_ver ≡ o.version)
  pub as_number :
      (s.remote_as2 ≡ 0) ⊎ (s.remote_as2 ≡ get_as_from_bgp_capability o.capabilities o.as')
  pub identifier : (s.remote_bgp_id ≡ 0) ⊎ (s.remote_bgp_id ≡ o.identifier)
  pub hold_time : (s.remote_min_holdtime ≡ 0) ⊎ (s.remote_min_holdtime ≤ o.hold_time)

asked : (a b : ℕ) → not (a == 0) && not (a == b) ≡ false → (a ≡ 0) ⊎ (a ≡ b)
asked a b e = ground arith

not_asked : (a b : ℕ) → (a ≡ 0) ⊎ (a ≡ b) → not (a == 0) && not (a == b) ≡ false
not_asked a b e = ground arith

long_enough : (a b : ℕ) → not (a == 0) && ltb b a ≡ false → (a ≡ 0) ⊎ (a ≤ b)
long_enough a b e = ground arith

not_short : (a b : ℕ) → (a ≡ 0) ⊎ (a ≤ b) → not (a == 0) && ltb b a ≡ false
not_short a b e = ground arith

none_of :
    (a b c d : Bool)
    → a || (b || (c || d)) ≡ false
    → (a ≡ false) × (b ≡ false) × (c ≡ false) × (d ≡ false)
none_of a b c d e = ground arith

all_of :
    (a b c d : Bool) → a ≡ false → b ≡ false → c ≡ false → d ≡ false → a || (b || (c || d)) ≡ false
all_of a b c d p q r s = ground arith

module _ (t : Turn) where
  flag_of_complain :
      (wrong : Bool) (sub : ℕ) (x : Session × Bool) → (complain t wrong sub x).1 ≡ wrong || x.1
  flag_of_complain true sub (s, e) = refl
  flag_of_complain false sub (s, e) = refl

  -- errFlag is set by any of the four checks.
  check_open_message_flag :
      (s : Session) (o : BgpOpen)
      → (check_open_message t s o).1
        ≡ short_hold_time t s o
          || (wrong_id t s o || (wrong_as t s o || (wrong_version t s o || false)))
  unfolding check_open_message
  check_open_message_flag s o =
      flag_of_complain (short_hold_time t s o) 6 _
      ∙ ap (◌||◌ (short_hold_time t s o)) (
          flag_of_complain (wrong_id t s o) 3 _
          ∙ ap (◌||◌ (wrong_id t s o)) (
              flag_of_complain (wrong_as t s o) 2 _
              ∙ ap (◌||◌ (wrong_as t s o)) (flag_of_complain (wrong_version t s o) 1 (s, false))))

  -- checkOpenMessage returns eventNone exactly for the messages that meet the configuration.
  pub check_open_message_iff :
      (s : Session) (o : BgpOpen) → ((check_open_message t s o).1 ≡ false) ↔ IsAcceptable s o
  check_open_message_iff s o = (
    λ e.
        let (d, c, b, a) = none_of _ _ _ _ (sym (check_open_message_flag s o) ∙ e) in
        record {
          version = asked s.remote_bgp_ver o.version (ground arith);
          as_number = asked s.remote_as2 (get_as_from_bgp_capability o.capabilities o.as') b;
          identifier = asked s.remote_bgp_id o.identifier c;
          hold_time = long_enough s.remote_min_holdtime o.hold_time d;
        },
    λ h.
        check_open_message_flag s o
        ∙ all_of _ _ _ _ (not_short s.remote_min_holdtime o.hold_time h.hold_time)
            (not_asked s.remote_bgp_id o.identifier h.identifier)
            (not_asked s.remote_as2 (get_as_from_bgp_capability o.capabilities o.as') h.as_number)
            (ap (λ b. b || false) (not_asked s.remote_bgp_ver o.version h.version)),
  )

  -- An OPEN message is accepted only if it meets the configuration and its capabilities pass; the
  -- hold time is then the smaller of the two.
  pub accept_open_accepts :
      (s : Session) (o : BgpOpen)
      → (accept_open t o s).1 ≡ bgp_open
      → IsAcceptable s o
        × ((check_capabilities (check_open_message t s o).0.cap_requirements o.capabilities).1
            ≡ true)
        × ((accept_open t o s).0.hold_time ≤ s.hold_time)
        × ((accept_open t o s).0.hold_time ≤ o.hold_time)
        × (((accept_open t o s).0.hold_time ≡ s.hold_time)
            ⊎ ((accept_open t o s).0.hold_time ≡ o.hold_time))
  unfolding accept_open
  accept_open_accepts s o e =
      let same = (check_open_message-Keeps t s o).hold_time in
      (
        (check_open_message_iff s o).0 (ground arith),
        ground arith,
        ground arith,
        ground arith,
        ground arith,
      )
