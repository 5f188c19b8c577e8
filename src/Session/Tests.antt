-- ===== src/Session/Tests.antt =====
-- Concrete sessions, and the theorems on them.
use bgpmon.Base.{◌≤◌, ◌≡◌, ◌≢◌, refl, ◌↔◌, ◌⊎◌, true, false, [], ◌∷◌, none, some, arith, ok}
use bgpmon.Session.State.{
  idle, connect, open_sent, open_confirm, none_event, bgp_open, Capability, require, refuse,
  PeerCapabilityRequirement, type_keepalive, to_peer, Session,
}
use bgpmon.Session.Capability.{
  match_of, raise_all, refused, check_each, misses, check_capabilities, get_as_from_bgp_capability,
}
use bgpmon.Session.Wire.{
  BgpOpen, open_header, no_socket, connected, Turn, check_open_message, accept_open,
}
use bgpmon.Session.Fsm.{bgp_finite_state_machine}
use bgpmon.Session.Inv.{IsValid}
use bgpmon.Session.Inv.Run.{Follows, bgp_finite_state_machine_lem}
use bgpmon.Session.Opening.{IsAcceptable, check_open_message_iff, accept_open_accepts}
use bgpmon.Session.Required.{IsMet, check_capabilities_requires}
use bgpmon.Session.Starving.{run_turns, open_confirm_starves}
use bgpmon.Session.Encoding.{add_all, extract_bgp_capabilities}
use bgpmon.Session.RoundTrip.{extract-add_all}
use bgpmon.Base.{List, ℕ}
use bgpmon.Base.{true, false}
use bgpmon.Session.State.{connect, idle, state_change}
use bgpmon.Session.Thread.{check_state_change_message, finish_turn}
use bgpmon.Session.Ending.{IsGivenUp, GoesOn, Ends, finish_turn_lem}

abbrev four_bytes : Capability
four_bytes = record { code = 65; value = 0 ∷ 1 ∷ 0 ∷ 0 ∷ [] }

abbrev needs_four_bytes : PeerCapabilityRequirement
needs_four_bytes = record { code = 65; action = require; check_value = none; flag = false }

abbrev no_refresh : PeerCapabilityRequirement
no_refresh = record { code = 2; action = refuse; check_value = none; flag = false }

-- A session that has sent its OPEN message at time 100.
abbrev waiting : Session
waiting = record {
  socket = some 7;
  state = open_sent;
  reason = none_event;
  connect_retry_int = 60;
  connect_retry_timer = 0;
  keepalive_int = 60;
  keepalive_timer = 0;
  large_hold_time = 540;
  hold_time = 180;
  hold_timer = 600;
  route_refresh_type = 0;
  as_num_len = 2;
  peer_capabilities = none;
  connect_retry_count = 0;
  session_down_count = 0;
  last_down_time = 0;
  message_rcvd = 0;
  establish_time = 0;
  last_route_refresh = 0;
  remote_as2 = 65536;
  remote_bgp_ver = 4;
  remote_bgp_id = 0;
  remote_min_holdtime = 0;
  announce_caps = four_bytes ∷ [];
  cap_requirements = no_refresh ∷ needs_four_bytes ∷ [];
  queued = [];
  reconnect_flag = false;
}

abbrev offer : BgpOpen
offer = record {
  version = 4;
  as' = 23456;
  hold_time = 5;
  identifier = 1;
  capabilities = four_bytes ∷ [];
}

abbrev turn : Turn
turn = record {
  now = 100;
  later = 101;
  rand = 3;
  rand2 = 9;
  connection = connected 7;
  incoming = open_header (some offer);
  write = λ _. true;
}

abbrev failed_often : Session
failed_often = record waiting {
  state = idle;
  socket = none;
  hold_timer = 0;
  connect_retry_count = 9;
}

abbrev confirming : Session
confirming = record waiting {
  state = open_confirm;
  keepalive_int = 1;
  keepalive_timer = 101;
  peer_capabilities = some (four_bytes ∷ []);
}

-- A connect-retry timer that has just run out.
abbrev connecting : Session
connecting = record waiting {
  state = connect;
  socket = none;
  connect_retry_timer = 100;
  hold_timer = 0;
}

connected_not_no_socket : connected 7 ≢ no_socket
connected_not_no_socket e = cc

run_example :
    (s' : Session) × (bgp_finite_state_machine turn connecting ≡ ok s')
    × IsValid s'
    × Follows connect s'.state
run_example =
    bgp_finite_state_machine_lem turn (omega arith) connecting (omega arith)
      (refl, omega arith, refl, refl) (connected_not_no_socket, omega arith)

check_open_example :
    ((check_open_message turn waiting offer).1 ≡ false) ↔ IsAcceptable waiting offer
check_open_example = check_open_message_iff turn waiting offer

accepted : (accept_open turn offer waiting).1 ≡ bgp_open
unfolding accept_open check_open_message check_capabilities check_each raise_all refused misses
    match_of get_as_from_bgp_capability
accepted = refl

accept_example :
    IsAcceptable waiting offer
    × ((check_capabilities
          (check_open_message turn waiting offer).0.cap_requirements
          (four_bytes ∷ [])).1
        ≡ true)
    × ((accept_open turn offer waiting).0.hold_time ≤ 180)
    × ((accept_open turn offer waiting).0.hold_time ≤ 5)
    × (((accept_open turn offer waiting).0.hold_time ≡ 180)
        ⊎ ((accept_open turn offer waiting).0.hold_time ≡ 5))
accept_example = accept_open_accepts turn waiting offer accepted

passes : (check_capabilities (no_refresh ∷ needs_four_bytes ∷ []) (four_bytes ∷ [])).1 ≡ true
unfolding check_capabilities check_each raise_all refused misses match_of
passes = refl

requires_example : IsMet (four_bytes ∷ []) needs_four_bytes
requires_example =
    check_capabilities_requires (no_refresh ∷ needs_four_bytes ∷ []) (four_bytes ∷ []) 1
      needs_four_bytes passes refl refl refl

starves_example :
    (s' : Session) × (run_turns (turn ∷ record turn { now = 101; later = 103 } ∷ []) confirming
      ≡ ok s')
    × (s'.state ≡ open_confirm)
    × (s'.queued ≡ to_peer type_keepalive ∷ to_peer type_keepalive ∷ [])
starves_example =
    open_confirm_starves (turn ∷ record turn { now = 101; later = 103 } ∷ []) 100 confirming
      (omega arith) (omega arith, omega arith, refl, (omega arith, omega arith, refl, tt))
      (record {
        state = refl;
        connect_retry = refl;
        interval = omega arith;
        running = omega arith;
        due = omega arith;
      })

abbrev refresh : Capability
refresh = record { code = 2; value = [] }

roundtrip_example :
    (prm : List ℕ) × (add_all [] (refresh ∷ four_bytes ∷ []) ≡ ok prm)
    × (extract_bgp_capabilities prm ≡ ok (refresh ∷ four_bytes ∷ []))
roundtrip_example =
    extract-add_all (refresh ∷ four_bytes ∷ []) (omega arith, (omega arith, tt)) (omega arith)
      (omega arith)

-- A session that fell from OpenSent.
abbrev fallen : Session
fallen = record waiting { state = idle; socket = none; hold_timer = 0 }

ending_example :
    let (s', ended) = finish_turn turn open_sent fallen in
    ((ended ≡ true) × IsGivenUp open_sent fallen × Ends turn fallen s')
    ⊎ ((ended ≡ false)
        × GoesOn open_sent fallen
        × (((s' ≡ fallen) × (idle ≡ open_sent))
            ⊎ ((s' ≡ record fallen { queued = state_change open_sent idle none_event ∷ [] })
                × (idle ≢ open_sent)
                × (check_state_change_message (state_change open_sent idle none_event) ≡ false))))
ending_example = finish_turn_lem turn open_sent fallen
