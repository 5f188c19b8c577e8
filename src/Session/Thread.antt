-- ===== src/Session/Thread.antt =====
-- Peering/peersession.c: how peerThreadFunction ends a turn of its main loop, and what the labeling
-- and XML threads make of the message about it.
use bgpmon.Base.{Bool, true, false, not, ◌&&◌, ◌||◌, if◌then◌else◌}
use bgpmon.Session.State.{
  BgpState, connect, manual_stop, Bmf, state_change, Session, is_idle, same_state,
}
use bgpmon.Session.Timers.{reset_session}
use bgpmon.Session.Wire.{Turn, enqueue, send_notification}

-- Called for state changes only.
unfoldable pub check_state_change_message : Bmf → Bool
check_state_change_message (state_change old new reason) =
    not (same_state old connect) && is_idle new
check_state_change_message _ = false

module _ (t : Turn) where
  unfoldable pub cleanup_session : Session → Session
  cleanup_session s =
      let s1 = record (reset_session t.later (send_notification t 6 0 s) manual_stop) {
        reconnect_flag = false;
      } in
      enqueue (state_change s.state s1.state s1.reason) s1

  -- After the state machine has run from state `old`: the session, and whether the thread gives it up
  -- for a new one.
  unfoldable pub finish_turn : BgpState → Session → Session × Bool
  finish_turn old s =
      if s.reconnect_flag || (not (same_state old connect) && is_idle s.state)
      then (cleanup_session s, true)
      else if same_state s.state old
      then (s, false)
      else (enqueue (state_change old s.state s.reason) s, false)
