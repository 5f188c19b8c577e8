-- ===== src/Session/Wire.antt =====
-- Peering/peersession.c: what a session receives, sends and checks. What the network does is an
-- input: a `Turn`.
use bgpmon.Base.{
  ℕ, ◌+◌, ◌/◌, Bool, true, false, ◌&&◌, not, List, [], ◌∷◌, Option, none, some, Result, ok, err,
  log_fatal, if◌then◌else◌, ltb, ◌==◌,
}
use bgpmon.Session.State.{
  BgpEvent, tcp_connection_confirmed, tcp_connection_fails, bgp_open, bgp_header_err,
  bgp_open_msg_err, bgp_unsupported_capability, bgp_fsm_err, notification_message, keepalive_msg,
  update_msg, update_msg_err, Capability, Packet, type_open, type_keepalive, type_update,
  type_notification, Bmf, from_peer, to_peer, Session, is_none,
}
use bgpmon.Session.Timers.{check_timers}
use bgpmon.Session.Capability.{
  check_one_bgp_capability, get_as_from_bgp_capability, check_capabilities,
}

-- An OPEN message that was read whole, with the capabilities that were extracted from it.
pub record BgpOpen : Type 0 where
  pub version : ℕ
  pub as' : ℕ
  pub hold_time : ℕ
  pub identifier : ℕ
  pub capabilities : List Capability

-- The body of an update: not read, too short for its BMF, or whole.
pub data Body : Type 0 where
  lost short complete : Body

-- What readBGPHeader and the read of the body after it give.
pub data Incoming : Type 0 where
  no_header other_header : Incoming
  open_header : Option BgpOpen → Incoming
  keepalive_header : Incoming
  update_header : Body → Incoming
  notification_header : Bool → Incoming  -- whether its body is read

-- How completeConnection comes out, with the socket that it leaves, at each of its returns.
pub data Connection : Type 0 where
  no_local_address no_socket : Connection
  no_remote_address not_bound : ℕ → Connection
  refused : Connection
  no_name connected : ℕ → Connection

-- One run of the state machine: the time at its start and after its wait for the peer, two results
-- of rand(), how a connection comes out, what comes in, and whether a packet can be written.
pub record Turn : Type 0 where
  pub now : ℕ
  pub later : ℕ
  pub rand : ℕ
  pub rand2 : ℕ
  pub connection : Connection
  pub incoming : Incoming
  pub write : Packet → Bool

abbrev pub enqueue : Bmf → Session → Session
enqueue b s = record s { queued = b ∷ s.queued }

unfoldable pub complete_connection : Connection → Session → Result (Session × BgpEvent)
complete_connection no_local_address s = ok (s, tcp_connection_fails)
complete_connection no_socket s = err log_fatal
complete_connection (no_remote_address fd) s =
    ok (record s { socket = some fd }, tcp_connection_fails)
complete_connection (not_bound fd) s = ok (record s { socket = some fd }, tcp_connection_fails)
complete_connection refused s = ok (record s { socket = none }, tcp_connection_fails)
complete_connection (no_name fd) s = ok (record s { socket = some fd }, tcp_connection_fails)
complete_connection (connected fd) s = ok (record s { socket = some fd }, tcp_connection_confirmed)

module _ (t : Turn) where
  -- sendOpenMessage and sendKeepaliveMessage: the session and whether eventNone is returned.
  unfoldable pub send : Packet → Session → Session × Bool
  send p s = if t.write p then (enqueue (to_peer p) s, true) else (s, false)

  -- sendNotificationMessage; its result is not used.
  unfoldable pub send_notification : ℕ → ℕ → Session → Session
  send_notification code subcode s = elim s.socket [
    | none ↦ s
    | some _ ↦
        if t.write (type_notification code subcode)
        then enqueue (to_peer (type_notification code subcode)) s
        else s
  ]

  -- One check of checkOpenMessage: a wrong value is answered by a notification.
  abbrev pub complain : Bool → ℕ → Session × Bool → Session × Bool
  complain wrong subcode (s, err_flag) =
      if wrong then (send_notification 2 subcode s, true) else (s, err_flag)

  abbrev pub wrong_version : Session → BgpOpen → Bool
  wrong_version s o = not (s.remote_bgp_ver == 0) && not (s.remote_bgp_ver == o.version)

  abbrev pub wrong_as : Session → BgpOpen → Bool
  wrong_as s o =
      not (s.remote_as2 == 0)
      && not (s.remote_as2 == get_as_from_bgp_capability o.capabilities o.as')

  abbrev pub wrong_id : Session → BgpOpen → Bool
  wrong_id s o = not (s.remote_bgp_id == 0) && not (s.remote_bgp_id == o.identifier)

  abbrev pub short_hold_time : Session → BgpOpen → Bool
  short_hold_time s o = not (s.remote_min_holdtime == 0) && ltb o.hold_time s.remote_min_holdtime

  -- The session after the notifications, and errFlag.
  unfoldable pub check_open_message : Session → BgpOpen → Session × Bool
  check_open_message s o = complain (short_hold_time s o) 6 (
      complain (wrong_id s o) 3
        (complain (wrong_as s o) 2 (complain (wrong_version s o) 1 (s, false))))

  -- The shorter of the two hold times.
  abbrev pub negotiate : BgpOpen → Session → Session
  negotiate o s =
      if ltb o.hold_time s.hold_time
      then record s { hold_time = o.hold_time; keepalive_int = o.hold_time / 3 }
      else s

  -- routeRefreshCapability is 2, ciscoRefreshCapability 128 and fourbytesASnumber 65.
  abbrev pub adopt : BgpOpen → Session → Session
  adopt o s = record s {
    peer_capabilities = some o.capabilities;
    route_refresh_type =
        if check_one_bgp_capability o.capabilities 128 0 []
        then 128
        else if check_one_bgp_capability o.capabilities 2 0 []
        then 2
        else s.route_refresh_type;
    as_num_len =
        if check_one_bgp_capability o.capabilities 65 0 []
          && check_one_bgp_capability s.announce_caps 65 0 []
        then 4
        else 2;
  }

  -- An OPEN message that was read: the checks, then what the session takes from it.
  unfoldable pub accept_open : BgpOpen → Session → Session × BgpEvent
  accept_open o s =
      let (s1, err_flag) = check_open_message s o in
      if err_flag
      then (s1, bgp_open_msg_err)
      else let (rs, passes) = check_capabilities s1.cap_requirements o.capabilities in
        let s2 = record s1 { cap_requirements = rs } in
        if passes
        then (enqueue (from_peer type_open) (adopt o (negotiate o s2)), bgp_open)
        else (send_notification 2 7 s2, bgp_unsupported_capability)

  -- A notification, which each of the three receivers puts on the queue.
  abbrev pub take_notification : Bool → Session → Session × BgpEvent
  take_notification read s =
      if read
      then (enqueue (from_peer (type_notification 0 0)) s, notification_message)
      else (s, tcp_connection_fails)

  abbrev pub count_message : Session → Session
  count_message s = record s { message_rcvd = s.message_rcvd + 1 }

  unfoldable pub read_open : Incoming → Session → Session × BgpEvent
  read_open no_header s = (s, tcp_connection_fails)
  read_open (open_header none) s = (s, tcp_connection_fails)
  read_open (open_header (some o)) s = accept_open o s
  read_open (notification_header read) s = take_notification read s
  read_open _ s = (s, bgp_fsm_err)

  unfoldable pub read_keepalive : Incoming → Session → Session × BgpEvent
  read_keepalive no_header s = (s, tcp_connection_fails)
  read_keepalive keepalive_header s = (enqueue (from_peer type_keepalive) s, keepalive_msg)
  read_keepalive (notification_header read) s = take_notification read s
  read_keepalive _ s = (s, bgp_header_err)

  unfoldable pub read_bgp : Incoming → Session → Session × BgpEvent
  read_bgp no_header s = (s, tcp_connection_fails)
  read_bgp keepalive_header s =
      (count_message (enqueue (from_peer type_keepalive) s), keepalive_msg)
  read_bgp (update_header lost) s = (s, tcp_connection_fails)
  read_bgp (update_header short) s = (s, update_msg)
  read_bgp (update_header complete) s =
      (count_message (enqueue (from_peer type_update) s), update_msg)
  read_bgp (notification_header true) s =
      (count_message (enqueue (from_peer (type_notification 0 0)) s), notification_message)
  read_bgp (notification_header false) s = (s, tcp_connection_fails)
  read_bgp _ s = (count_message s, update_msg_err)

  -- receiveOpenMessage, receiveKeepaliveMessage and receiveBGPMessage: a timer that is due comes
  -- first, and then nothing is read.
  abbrev pub unless_due : (Incoming → Session → Session × BgpEvent) → Session → Session × BgpEvent
  unless_due read s =
      if is_none (check_timers t.now s) then read t.incoming s else (s, check_timers t.now s)

  unfoldable pub receive_open_message : Session → Session × BgpEvent
  receive_open_message s = unless_due read_open s

  unfoldable pub receive_keepalive_message : Session → Session × BgpEvent
  receive_keepalive_message s = unless_due read_keepalive s

  unfoldable pub receive_bgp_message : Session → Session × BgpEvent
  receive_bgp_message s = unless_due read_bgp s
