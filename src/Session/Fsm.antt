-- ===== src/Session/Fsm.antt =====
-- Peering/bgpfsm.c: one run of the state machine. On Connect it exits if anything but the
-- connect-retry timer is due.
use bgpmon.Base.{Bool, Result, ok, err, log_fatal, ◌>>=◌, if◌then◌else◌}
use bgpmon.Session.State.{
  BgpState, idle, connect, open_sent, open_confirm, established, BgpEvent, automatic_start,
  connect_retry_timer_expires, hold_timer_expires, keepalive_timer_expires,
  tcp_connection_confirmed, tcp_connection_fails, bgp_open, bgp_header_err, bgp_open_msg_err,
  bgp_unsupported_capability, notification_message_ver_err, notification_message, keepalive_msg,
  update_msg, update_msg_err, type_open, type_keepalive, Session,
}
use bgpmon.Session.Timers.{
  restart_session_connect_retry_timer, restart_session_keepalive_timer,
  restart_large_session_hold_timer, restart_session_hold_timer, check_timers, set_session_state,
  reset_session,
}
use bgpmon.Session.Wire.{
  Turn, complete_connection, send, send_notification, receive_open_message,
  receive_keepalive_message, receive_bgp_message,
}

module _ (t : Turn) where
  -- A message is sent, and when that fails the session is reset.
  abbrev pub or_reset : Session × Bool → BgpEvent → Session
  or_reset (s, sent) reason = if sent then s else reset_session t.later s reason

  unfoldable pub fsm_idle : Session → Session
  fsm_idle s =
      set_session_state t.now
        (record (restart_session_connect_retry_timer t.now t.rand s) {
          keepalive_timer = 0;
          hold_timer = 0;
        })
        connect automatic_start

  -- The inner switch of fsmConnect.
  unfoldable pub after_connection : Session × BgpEvent → Session
  after_connection (s, tcp_connection_confirmed) =
      let s' =
        set_session_state t.later
          (restart_large_session_hold_timer t.later t.rand
            (record s { connect_retry_timer = 0; connect_retry_count = 0 }))
          open_sent tcp_connection_confirmed in
      or_reset (send t type_open s') tcp_connection_fails
  after_connection (s, _) = reset_session t.later s tcp_connection_fails

  -- The outer switch of fsmConnect.
  unfoldable pub on_timer : BgpEvent → Session → Result Session
  on_timer connect_retry_timer_expires s =
      complete_connection t.connection s >>= λ x. ok (after_connection x)
  on_timer _ s = err log_fatal

  unfoldable pub fsm_connect : Session → Result Session
  fsm_connect s = on_timer (check_timers t.now s) s

  -- The answer to an event in OpenSent that is no valid OPEN message.
  abbrev pub answer_open_sent : BgpEvent → Session → Session
  answer_open_sent bgp_header_err s = send_notification t 1 0 s
  answer_open_sent bgp_open_msg_err s = s
  answer_open_sent bgp_unsupported_capability s = s
  answer_open_sent hold_timer_expires s = send_notification t 4 0 s
  answer_open_sent _ s = send_notification t 5 0 s

  unfoldable pub after_open : Session × BgpEvent → Session
  after_open (s, bgp_open) =
      let s' =
        set_session_state t.later
          (restart_session_hold_timer t.later t.rand2
            (restart_session_keepalive_timer t.later t.rand (record s { connect_retry_timer = 0 })))
          open_confirm bgp_open in
      or_reset (send t type_keepalive s') tcp_connection_fails
  after_open (s, event) = reset_session t.later (answer_open_sent event s) event

  unfoldable pub fsm_open_sent : Session → Session
  fsm_open_sent s = after_open (receive_open_message t s)

  abbrev pub answer_open_confirm : BgpEvent → Session → Session
  answer_open_confirm notification_message s = s
  answer_open_confirm notification_message_ver_err s = s
  answer_open_confirm bgp_header_err s = send_notification t 1 0 s
  answer_open_confirm hold_timer_expires s = send_notification t 4 0 s
  answer_open_confirm _ s = send_notification t 5 0 s

  unfoldable pub after_keepalive : Session × BgpEvent → Session
  after_keepalive (s, keepalive_msg) =
      set_session_state t.later (restart_session_hold_timer t.later t.rand s) established
        keepalive_msg
  after_keepalive (s, keepalive_timer_expires) =
      or_reset (send t type_keepalive (restart_session_keepalive_timer t.later t.rand s))
        keepalive_timer_expires
  after_keepalive (s, event) = reset_session t.later (answer_open_confirm event s) event

  unfoldable pub fsm_open_confirm : Session → Session
  fsm_open_confirm s = after_keepalive (receive_keepalive_message t s)

  abbrev pub answer_established : BgpEvent → Session → Session
  answer_established notification_message s = s
  answer_established notification_message_ver_err s = s
  answer_established bgp_header_err s = send_notification t 1 0 s
  answer_established update_msg_err s = send_notification t 3 0 s
  answer_established hold_timer_expires s = send_notification t 4 0 s
  answer_established _ s = send_notification t 5 0 s

  unfoldable pub after_message : Session × BgpEvent → Session
  after_message (s, keepalive_msg) = restart_session_hold_timer t.later t.rand s
  after_message (s, update_msg) = record (restart_session_hold_timer t.later t.rand s) {
    connect_retry_count = 0;
  }
  after_message (s, keepalive_timer_expires) =
      or_reset (send t type_keepalive (restart_session_keepalive_timer t.later t.rand s))
        tcp_connection_fails
  after_message (s, event) = reset_session t.later (answer_established event s) event

  unfoldable pub fsm_established : Session → Session
  fsm_established s = after_message (receive_bgp_message t s)

  -- The switch over the states.
  unfoldable pub run_state : BgpState → Session → Result Session
  run_state idle s = ok (fsm_idle s)
  run_state connect s = fsm_connect s
  run_state open_sent s = ok (fsm_open_sent s)
  run_state open_confirm s = ok (fsm_open_confirm s)
  run_state established s = ok (fsm_established s)
  run_state _ s = ok s

  unfoldable pub bgp_finite_state_machine : Session → Result Session
  bgp_finite_state_machine s = run_state s.state s
