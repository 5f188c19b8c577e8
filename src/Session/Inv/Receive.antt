-- ===== src/Session/Inv/Receive.antt =====
-- What sending and receiving leave of a session (Peering/peersession.c).
use bgpmon.Base.{ℕ, ◌≡◌, refl, ap, ◌∙◌, Bool, true, false, Option, none, some, arith, if_elim}
use bgpmon.Session.State.{BgpEvent, bgp_open, type_notification, Session, is_none}
use bgpmon.Session.Timers.{check_timers}
use bgpmon.Session.Wire.{
  Turn, Incoming, no_header, other_header, open_header, keepalive_header, update_header,
  notification_header, lost, short, complete, BgpOpen, send_notification, complain,
  check_open_message, accept_open, read_open, read_keepalive, read_bgp, receive_open_message,
  receive_keepalive_message, receive_bgp_message,
}
use bgpmon.Session.Inv.{line, IsKnown}

module _ (t : Turn) where
  -- Sending and receiving keep the state, the line and the hold time.
  pub record Keeps (s s' : Session) : Type 0 where
    pub state : s'.state ≡ s.state
    pub line : line s' ≡ line s
    pub hold_time : s'.hold_time ≡ s.hold_time

  if_connected :
      (socket : Option ℕ) (s s' : Session)
      → Keeps s s'
      → Keeps s (elim socket [ none ↦ s | some _ ↦ s' ])
  if_connected none s s' k = record { state = refl; line = refl; hold_time = refl }
  if_connected (some fd) s s' k = k

  send_notification-Keeps : (code sub : ℕ) (s : Session) → Keeps s (send_notification t code sub s)
  unfolding send_notification
  send_notification-Keeps code sub s = if_connected s.socket s _ (
      if_elim (Keeps s) (t.write (type_notification code sub))
        (λ _. record { state = refl; line = refl; hold_time = refl })
        (λ _. record { state = refl; line = refl; hold_time = refl }))

  complain-Keeps :
      (wrong : Bool) (sub : ℕ) (s s' : Session) (err_flag : Bool)
      → Keeps s s'
      → Keeps s (complain t wrong sub (s', err_flag)).0
  complain-Keeps true sub s s' e k =
      let n = send_notification-Keeps 2 sub s' in
      record {
        state = n.state ∙ k.state;
        line = n.line ∙ k.line;
        hold_time = n.hold_time ∙ k.hold_time;
      }
  complain-Keeps false sub s s' e k = k

  pub check_open_message-Keeps : (s : Session) (o : BgpOpen) → Keeps s (check_open_message t s o).0
  unfolding check_open_message
  check_open_message-Keeps s o = complain-Keeps _ 6 s _ _ (
      complain-Keeps _ 3 s _ _ (
        complain-Keeps _ 2 s _ _
          (complain-Keeps _ 1 s s false (record { state = refl; line = refl; hold_time = refl }))))

  -- A valid OPEN message is taken with the peer's capabilities, on the same connection.
  accept_open_lem :
      (o : BgpOpen) (s : Session)
      → (accept_open t o s).1 ≡ bgp_open
      → ((accept_open t o s).0.socket ≡ s.socket)
        × ((accept_open t o s).0.peer_capabilities ≡ some o.capabilities)
  unfolding accept_open
  accept_open_lem o s e =
      let k = ap (λ l. l.socket) (check_open_message-Keeps s o).line in ground arith

  IsTaken : Session → Session × BgpEvent → Type 0
  IsTaken s (s', e) = e ≡ bgp_open → (s'.socket ≡ s.socket) × IsKnown s'.peer_capabilities

  read_open_lem : (i : Incoming) (s : Session) → IsTaken s (read_open t i s)
  unfolding read_open IsTaken
  read_open_lem (open_header (some o)) s e = let (a, b) = accept_open_lem o s e in (a, rw b tt)
  read_open_lem (open_header none) s e = cc
  read_open_lem (notification_header true) s e = cc
  read_open_lem (notification_header false) s e = cc
  read_open_lem no_header s e = cc
  read_open_lem other_header s e = cc
  read_open_lem keepalive_header s e = cc
  read_open_lem (update_header b) s e = cc

  not_open : (s : Session) → check_timers t.now s ≡ bgp_open → ⊥
  unfolding check_timers
  not_open s e = ground arith

  pub receive_open_message_lem :
      (s : Session)
      → (receive_open_message t s).1 ≡ bgp_open
      → ((receive_open_message t s).0.socket ≡ s.socket)
        × IsKnown (receive_open_message t s).0.peer_capabilities
  unfolding receive_open_message IsTaken
  receive_open_message_lem s =
      if_elim (IsTaken s) (is_none (check_timers t.now s)) (λ _. read_open_lem t.incoming s)
        (λ due e. absurd (not_open s e))

  read_keepalive-Keeps : (i : Incoming) (s : Session) → Keeps s (read_keepalive t i s).0
  unfolding read_keepalive
  read_keepalive-Keeps (open_header o) s = record { state = refl; line = refl; hold_time = refl }
  read_keepalive-Keeps (notification_header true) s = record {
    state = refl;
    line = refl;
    hold_time = refl;
  }
  read_keepalive-Keeps (notification_header false) s = record {
    state = refl;
    line = refl;
    hold_time = refl;
  }
  read_keepalive-Keeps no_header s = record { state = refl; line = refl; hold_time = refl }
  read_keepalive-Keeps other_header s = record { state = refl; line = refl; hold_time = refl }
  read_keepalive-Keeps keepalive_header s = record { state = refl; line = refl; hold_time = refl }
  read_keepalive-Keeps (update_header b) s = record { state = refl; line = refl; hold_time = refl }

  read_bgp-Keeps : (i : Incoming) (s : Session) → Keeps s (read_bgp t i s).0
  unfolding read_bgp
  read_bgp-Keeps (open_header o) s = record { state = refl; line = refl; hold_time = refl }
  read_bgp-Keeps (notification_header true) s = record {
    state = refl;
    line = refl;
    hold_time = refl;
  }
  read_bgp-Keeps (notification_header false) s = record {
    state = refl;
    line = refl;
    hold_time = refl;
  }
  read_bgp-Keeps no_header s = record { state = refl; line = refl; hold_time = refl }
  read_bgp-Keeps other_header s = record { state = refl; line = refl; hold_time = refl }
  read_bgp-Keeps keepalive_header s = record { state = refl; line = refl; hold_time = refl }
  read_bgp-Keeps (update_header lost) s = record { state = refl; line = refl; hold_time = refl }
  read_bgp-Keeps (update_header short) s = record { state = refl; line = refl; hold_time = refl }
  read_bgp-Keeps (update_header complete) s = record { state = refl; line = refl; hold_time = refl }

  IsKept : Session → Session × BgpEvent → Type 0
  IsKept s (s', e) = Keeps s s'

  pub receive_keepalive_message-Keeps : (s : Session) → Keeps s (receive_keepalive_message t s).0
  unfolding receive_keepalive_message IsKept
  receive_keepalive_message-Keeps s =
      if_elim (IsKept s) (is_none (check_timers t.now s)) (λ _. read_keepalive-Keeps t.incoming s)
        (λ _. record { state = refl; line = refl; hold_time = refl })

  pub receive_bgp_message-Keeps : (s : Session) → Keeps s (receive_bgp_message t s).0
  unfolding receive_bgp_message IsKept
  receive_bgp_message-Keeps s =
      if_elim (IsKept s) (is_none (check_timers t.now s)) (λ _. read_bgp-Keeps t.incoming s)
        (λ _. record { state = refl; line = refl; hold_time = refl })
