-- ===== src/Session/Inv/Run.antt =====
-- The invariant of a session and the order of its states, over a run of the state machine
-- (Peering/bgpfsm.c).
use bgpmon.Base.{ℕ, ◌+◌, ◌≤◌, ◌<◌, ◌≡◌, ◌≢◌, refl, sym, ◌∙◌, subst, arith, Bool-cases, inl, inr, ok}
use bgpmon.Session.State.{
  BgpState, error, idle, connect, active, open_sent, open_confirm, established, mrt_established,
  BgpEvent, automatic_start, connect_retry_timer_expires, keepalive_timer_expires,
  tcp_connection_confirmed, tcp_connection_fails, bgp_open, keepalive_msg, update_msg, type_open,
  type_keepalive, Packet, Session,
}
use bgpmon.Session.Timers.{
  restart_session_connect_retry_timer, restart_session_keepalive_timer,
  restart_large_session_hold_timer, restart_session_hold_timer, set_session_state, reset_session,
  check_timers,
}
use bgpmon.Session.Wire.{
  Connection, no_local_address, no_socket, no_remote_address, not_bound, refused, no_name,
  connected, Turn, complete_connection, send, receive_open_message, receive_keepalive_message,
  receive_bgp_message,
}
use bgpmon.Session.Fsm.{
  or_reset, fsm_idle, after_connection, on_timer, fsm_connect, after_open, fsm_open_sent,
  after_keepalive, fsm_open_confirm, after_message, fsm_established, run_state,
  bgp_finite_state_machine,
}
use bgpmon.Session.Inv.{
  line, IsKnown, InState, IsValid, set_session_state_lem, set_session_state-IsValid,
  reset_session-IsValid,
}
use bgpmon.Session.Inv.Receive.{
  receive_open_message_lem, receive_keepalive_message-Keeps, receive_bgp_message-Keeps,
}

-- The state that each state can be followed by in one run.
pub data Follows : BgpState → BgpState → Type 0 where
  stays : {a : BgpState} → Follows a a
  starts : Follows idle connect
  connects : Follows connect open_sent
  opens : Follows open_sent open_confirm
  confirms : Follows open_confirm established
  falls : {a : BgpState} → Follows a idle

module _ (t : Turn) (later : 0 < t.later) where
  -- A valid session that follows state a.
  abbrev Good : BgpState → Session → Type 0
  Good a s = IsValid s × Follows a s.state

  Good-reset : (a : BgpState) (s : Session) (r : BgpEvent) → Good a (reset_session t.later s r)
  Good-reset a s r =
      let (v, e) = reset_session-IsValid t.later s r in (v, subst (Follows a) (sym e) falls)

  Good-send :
      (a : BgpState) (p : Packet) (s : Session) (r : BgpEvent)
      → Good a s
      → Good a (or_reset t (send t p s) r)
  unfolding send
  Good-send a p s r g = elim (Bool-cases (t.write p)) [
    | inl e ↦ rw e g
    | inr e ↦ rw e (Good-reset a s r)
  ]

  Good-state :
      (a b : BgpState) (now : ℕ) (s : Session) (r : BgpEvent)
      → InState b (line s)
      → Follows a b
      → Good a (set_session_state now s b r)
  Good-state a b now s r v f = (
    set_session_state-IsValid now s b r v,
    subst (Follows a) (sym (set_session_state_lem now s b r).0) f,
  )

  fsm_idle-Good : (s : Session) → 0 < t.now → InState idle (line s) → Good idle (fsm_idle t s)
  unfolding fsm_idle restart_session_connect_retry_timer
  fsm_idle-Good s pos v =
      Good-state idle connect t.now _ automatic_start (v.0, omega arith, refl, refl) starts

  after_connection-Good :
      (x : Session × BgpEvent)
      → (x.1 ≡ tcp_connection_confirmed → IsKnown x.0.socket × (x.0.keepalive_timer ≡ 0))
      → Good connect (after_connection t x)
  unfolding after_connection restart_large_session_hold_timer
  after_connection-Good (s, tcp_connection_confirmed) h =
      let (known, off) = h refl in
      Good-send connect type_open _ tcp_connection_fails (
        Good-state connect open_sent t.later _ tcp_connection_confirmed
          (known, refl, off, omega arith) connects)
  after_connection-Good (s, e) h = Good-reset connect s tcp_connection_fails

  after_open-Good :
      (x : Session × BgpEvent)
      → (x.1 ≡ bgp_open → IsKnown x.0.socket × IsKnown x.0.peer_capabilities)
      → Good open_sent (after_open t x)
  unfolding after_open restart_session_hold_timer restart_session_keepalive_timer
  after_open-Good (s, bgp_open) h =
      let (known, caps) = h refl in
      Good-send open_sent type_keepalive _ tcp_connection_fails (
        Good-state open_sent open_confirm t.later _ bgp_open
          (known, refl, omega arith, omega arith, caps) opens)
  after_open-Good (s, e) h = Good-reset open_sent _ e

  after_keepalive-Good :
      (x : Session × BgpEvent)
      → x.0.state ≡ open_confirm
      → InState open_confirm (line x.0)
      → Good open_confirm (after_keepalive t x)
  unfolding after_keepalive restart_session_hold_timer restart_session_keepalive_timer
  after_keepalive-Good (s, keepalive_msg) e (a, b, c, d, k) =
      Good-state open_confirm established t.later _ keepalive_msg (a, b, c, omega arith, k) confirms
  after_keepalive-Good (s, keepalive_timer_expires) e (a, b, c, d, k) =
      Good-send open_confirm type_keepalive _ keepalive_timer_expires
        (rw e (a, b, omega arith, d, k), subst (Follows open_confirm) (sym e) stays)
  after_keepalive-Good (s, e) st v = Good-reset open_confirm _ e

  after_message-Good :
      (x : Session × BgpEvent)
      → x.0.state ≡ established
      → InState established (line x.0)
      → Good established (after_message t x)
  unfolding after_message restart_session_hold_timer restart_session_keepalive_timer
  after_message-Good (s, keepalive_msg) e (a, b, c, d, k) =
      (rw e (a, b, c, omega arith, k), subst (Follows established) (sym e) stays)
  after_message-Good (s, update_msg) e (a, b, c, d, k) =
      (rw e (a, b, c, omega arith, k), subst (Follows established) (sym e) stays)
  after_message-Good (s, keepalive_timer_expires) e (a, b, c, d, k) =
      Good-send established type_keepalive _ tcp_connection_fails
        (rw e (a, b, omega arith, d, k), subst (Follows established) (sym e) stays)
  after_message-Good (s, e) st v = Good-reset established _ e

  connection_lem :
      (c : Connection) (s : Session)
      → c ≢ no_socket
      → s.keepalive_timer ≡ 0
      → (x : Session × BgpEvent) × (complete_connection c s ≡ ok x)
        × (x.1 ≡ tcp_connection_confirmed → IsKnown x.0.socket × (x.0.keepalive_timer ≡ 0))
  unfolding complete_connection
  connection_lem no_local_address s ne off = (_, refl, λ e. cc)
  connection_lem no_socket s ne off = absurd (ne refl)
  connection_lem (no_remote_address fd) s ne off = (_, refl, λ e. cc)
  connection_lem (not_bound fd) s ne off = (_, refl, λ e. cc)
  connection_lem refused s ne off = (_, refl, λ e. cc)
  connection_lem (no_name fd) s ne off = (_, refl, λ e. cc)
  connection_lem (connected fd) s ne off = (_, refl, λ e. (tt, off))

  connect_due :
      (s : Session)
      → 0 < s.connect_retry_timer
      → s.connect_retry_timer ≤ t.now + 1
      → check_timers t.now s ≡ connect_retry_timer_expires
  unfolding check_timers
  connect_due s pos due = ground arith

  fsm_connect_lem :
      (s : Session)
      → t.connection ≢ no_socket
      → InState connect (line s)
      → s.connect_retry_timer ≤ t.now + 1
      → (s' : Session) × (fsm_connect t s ≡ ok s') × Good connect s'
  unfolding fsm_connect on_timer
  fsm_connect_lem s ne (a, b, c, d) due =
      let (x, e, h) = connection_lem t.connection s ne c in
      (after_connection t x, rw (connect_due s b due) (rw e), after_connection-Good x h)

  fsm_open_sent-Good :
      (s : Session) → InState open_sent (line s) → Good open_sent (fsm_open_sent t s)
  unfolding fsm_open_sent
  fsm_open_sent-Good s (known, _, _, _) = after_open-Good (receive_open_message t s) (λ e.
      let (same, caps) = receive_open_message_lem t s e in (subst IsKnown (sym same) known, caps))

  fsm_open_confirm-Good :
      (s : Session)
      → s.state ≡ open_confirm
      → InState open_confirm (line s)
      → Good open_confirm (fsm_open_confirm t s)
  unfolding fsm_open_confirm
  fsm_open_confirm-Good s e v =
      let k = receive_keepalive_message-Keeps t s in
      after_keepalive-Good (receive_keepalive_message t s) (k.state ∙ e)
        (subst (InState open_confirm) (sym k.line) v)

  fsm_established-Good :
      (s : Session)
      → s.state ≡ established
      → InState established (line s)
      → Good established (fsm_established t s)
  unfolding fsm_established
  fsm_established-Good s e v =
      let k = receive_bgp_message-Keeps t s in
      after_message-Good (receive_bgp_message t s) (k.state ∙ e)
        (subst (InState established) (sym k.line) v)

  -- What a run from state a needs: on Connect, the connect-retry timer is due and a socket can be had.
  abbrev pub IsReady : BgpState → Session → Type 0
  IsReady connect s = (t.connection ≢ no_socket) × (s.connect_retry_timer ≤ t.now + 1)
  IsReady _ s = Unit {0}

  run_state_lem :
      (a : BgpState) (s : Session)
      → 0 < t.now
      → s.state ≡ a
      → InState a (line s)
      → IsReady a s
      → (s' : Session) × (run_state t a s ≡ ok s') × Good a s'
  unfolding run_state
  run_state_lem idle s pos e v r = (_, refl, fsm_idle-Good s pos v)
  run_state_lem connect s pos e v (ne, due) = fsm_connect_lem s ne v due
  run_state_lem open_sent s pos e v r = (_, refl, fsm_open_sent-Good s v)
  run_state_lem open_confirm s pos e v r = (_, refl, fsm_open_confirm-Good s e v)
  run_state_lem established s pos e v r = (_, refl, fsm_established-Good s e v)
  run_state_lem error s pos e v r = (s, refl, (rw e v, subst (Follows error) (sym e) stays))
  run_state_lem active s pos e v r = (s, refl, (rw e v, subst (Follows active) (sym e) stays))
  run_state_lem mrt_established s pos e v r =
      (s, refl, (rw e v, subst (Follows mrt_established) (sym e) stays))

  -- On a valid session the state machine returns, with a valid session in a state that may
  -- follow; on Connect that needs a connect-retry timer that is due and a socket.
  pub bgp_finite_state_machine_lem :
      (s : Session)
      → 0 < t.now
      → IsValid s
      → IsReady s.state s
      → (s' : Session) × (bgp_finite_state_machine t s ≡ ok s')
        × IsValid s'
        × Follows s.state s'.state
  unfolding bgp_finite_state_machine
  bgp_finite_state_machine_lem s pos v r =
      let (s', e, (v', f)) = run_state_lem s.state s pos refl v r in (s', e, v', f)
