-- ===== src/Session/Timers.antt =====
-- Peering/peersession.c: timers, states, and the end of a connection. `now` is what time(NULL)
-- returns and `rand` what rand() does.
use bgpmon.Base.{ℕ, ◌+◌, ◌*◌, ◌/◌, ◌%◌, Bool, ◌&&◌, ◌||◌, none, if◌then◌else◌, ltb, leb, ◌==◌}
use bgpmon.Session.State.{
  BgpState, idle, BgpEvent, none_event, connect_retry_timer_expires, hold_timer_expires,
  keepalive_timer_expires, Session, is_established, is_idle, same_state,
}

unfoldable pub jitter : ℕ → ℕ → ℕ
jitter rand seconds = (seconds * (75 + rand % 26)) / 100

unfoldable pub restart_session_connect_retry_timer : ℕ → ℕ → Session → Session
restart_session_connect_retry_timer now rand s =
    let backoff = s.connect_retry_int * s.connect_retry_count in
    record s { connect_retry_timer = now + jitter rand (if ltb 60 backoff then 60 else backoff) }

unfoldable pub restart_session_keepalive_timer : ℕ → ℕ → Session → Session
restart_session_keepalive_timer now rand s = record s {
  keepalive_timer = now + jitter rand s.keepalive_int;
}

unfoldable pub restart_large_session_hold_timer : ℕ → ℕ → Session → Session
restart_large_session_hold_timer now rand s = record s {
  hold_timer = now + jitter rand s.large_hold_time;
}

unfoldable pub restart_session_hold_timer : ℕ → ℕ → Session → Session
restart_session_hold_timer now rand s = record s { hold_timer = now + jitter rand s.hold_time }

-- One `if` of sessionTimer.
abbrev pub earlier : ℕ → ℕ → ℕ
earlier timer t = if ltb 0 timer && (t == 0 || ltb timer t) then timer else t

unfoldable pub session_timer : Session → ℕ
session_timer s = earlier s.keepalive_timer (earlier s.hold_timer (earlier s.connect_retry_timer 0))

-- timer > 0 && timer <= now + 1
abbrev pub is_due : ℕ → ℕ → Bool
is_due now timer = ltb 0 timer && leb timer (now + 1)

unfoldable pub check_timers : ℕ → Session → BgpEvent
check_timers now s =
    if is_due now s.connect_retry_timer
    then connect_retry_timer_expires
    else if is_due now s.keepalive_timer
    then keepalive_timer_expires
    else if is_due now s.hold_timer
    then hold_timer_expires
    else none_event

-- The first two `if`s of setSessionState.
abbrev pub enter : ℕ → Session → BgpState → BgpEvent → Session
enter now s state reason =
    let s' =
      if is_established s.state && is_idle state
      then record s { session_down_count = s.session_down_count + 1; last_down_time = now }
      else s in
    if same_state state s.state then s' else record s' { state = state; reason = reason }

unfoldable pub set_session_state : ℕ → Session → BgpState → BgpEvent → Session
set_session_state now s state reason =
    let s' = enter now s state reason in
    if is_established state
    then record s' {
      message_rcvd = 0;
      establish_time = now;
      last_route_refresh = now;
      last_down_time = 0;
    }
    else record s' { message_rcvd = 0; establish_time = 0; last_route_refresh = 0 }

-- dropConnection and releaseResources.
abbrev pub drop_connection : Session → Session
drop_connection s = record s { socket = none; peer_capabilities = none }

unfoldable pub reset_session : ℕ → Session → BgpEvent → Session
reset_session now s reason =
    set_session_state now
      (record (drop_connection s) {
        connect_retry_count = s.connect_retry_count + 1;
        connect_retry_timer = 0;
        hold_timer = 0;
        keepalive_timer = 0;
      })
      idle reason
