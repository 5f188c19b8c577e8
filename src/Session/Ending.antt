-- ===== src/Session/Ending.antt =====
-- What a turn of a session's thread announces (peerThreadFunction, cleanupSession and
-- checkStateChangeMessage of Peering/peersession.c).
use bgpmon.Base.{
  ℕ, ◌≡◌, ◌≢◌, refl, sym, ap, ◌∙◌, ◌⊎◌, inl, inr, Bool, true, false, not, ◌&&◌, ◌||◌, List, [], ◌∷◌,
  ◌++◌, none, some, arith, if_elim, if◌then◌else◌, ◌==◌, Bool-cases, Option-cases, ==_iff,
}
use bgpmon.Session.State.{
  BgpState, error, idle, connect, active, open_sent, open_confirm, established, mrt_established,
  BgpEvent, manual_stop, Bmf, to_peer, type_notification, state_change, Session, is_idle, number_of,
  same_state,
}
use bgpmon.Session.Timers.{reset_session, set_session_state}
use bgpmon.Session.Wire.{Turn, send_notification}
use bgpmon.Session.Inv.{reset_session-IsValid}
use bgpmon.Session.Thread.{check_state_change_message, cleanup_session, finish_turn}

and_true : (b : Bool) → b && true ≡ b
and_true b = ground arith

is_idle_sound : (st : BgpState) → is_idle st ≡ true → st ≡ idle
is_idle_sound idle e = refl
is_idle_sound error e = absurd (cc)
is_idle_sound connect e = absurd (cc)
is_idle_sound active e = absurd (cc)
is_idle_sound open_sent e = absurd (cc)
is_idle_sound open_confirm e = absurd (cc)
is_idle_sound established e = absurd (cc)
is_idle_sound mrt_established e = absurd (cc)

is_idle_complete : (st : BgpState) → is_idle st ≡ false → st ≢ idle
is_idle_complete st f = λ e. absurd (let wrong : true ≡ false = ap is_idle (sym e) ∙ f in cc)

state_at : ℕ → BgpState
state_at n =
    if n == 0
    then error
    else if n == 1
    then idle
    else if n == 2
    then connect
    else if n == 3
    then active
    else if n == 4
    then open_sent
    else if n == 5
    then open_confirm
    else if n == 6
    then established
    else mrt_established

state_at-number_of : (st : BgpState) → state_at (number_of st) ≡ st
unfolding state_at
state_at-number_of error = refl
state_at-number_of idle = refl
state_at-number_of connect = refl
state_at-number_of active = refl
state_at-number_of open_sent = refl
state_at-number_of open_confirm = refl
state_at-number_of established = refl
state_at-number_of mrt_established = refl

same_state_sound : (a b : BgpState) → same_state a b ≡ true → a ≡ b
same_state_sound a b e =
    sym (state_at-number_of a)
    ∙ ap state_at ((==_iff (number_of a) (number_of b)).0 e)
    ∙ state_at-number_of b

same_state_complete : (a b : BgpState) → same_state a b ≡ false → a ≢ b
same_state_complete a b f = λ e. absurd (
    let wrong : true ≡ false = sym ((==_iff (number_of a) (number_of b)).1 (ap number_of e)) ∙ f in
    cc)

neither : (a b : Bool) → a || b ≡ false → b ≡ false
neither a b e = ground arith

-- When a session is given up.
abbrev pub IsGivenUp : BgpState → Session → Type 0
IsGivenUp old s = (s.reconnect_flag ≡ true) ⊎ ((old ≢ connect) × (s.state ≡ idle))

abbrev pub GoesOn : BgpState → Session → Type 0
GoesOn old s = (s.reconnect_flag ≡ false) × ((old ≡ connect) ⊎ (s.state ≢ idle))

gives_up :
    (old : BgpState) (s : Session)
    → s.reconnect_flag || (not (same_state old connect) && is_idle s.state) ≡ true
    → IsGivenUp old s
gives_up old s e = elim (Bool-cases s.reconnect_flag) [
  | inl r ↦ inl r
  | inr r ↦ inr (
    same_state_complete old connect (ground (arith, r, e)),
    is_idle_sound s.state (ground (arith, r, e)),
  )
]

goes_on :
    (old : BgpState) (s : Session)
    → s.reconnect_flag || (not (same_state old connect) && is_idle s.state) ≡ false
    → GoesOn old s
goes_on old s e = (
  ground arith,
  elim (Bool-cases (same_state old connect)) [
    | inl c ↦ inl (same_state_sound old connect c)
    | inr c ↦ inr (is_idle_complete s.state (ground (arith, c, e)))
  ],
)

-- The reason of a session that is reset: none of its own where it was Idle already.
abbrev pub end_reason : Session → BgpEvent
end_reason s = if is_idle s.state then s.reason else manual_stop

-- What a reset leaves of a session.
reset_session-fields :
    (now : ℕ) (s : Session) (r : BgpEvent)
    → let s' = reset_session now s r in
      (s'.socket ≡ none)
      × ((s'.connect_retry_timer ≡ 0) × (s'.hold_timer ≡ 0) × (s'.keepalive_timer ≡ 0))
      × (s'.queued ≡ s.queued)
      × (s'.reason ≡ (if is_idle s.state then s.reason else r))
unfolding reset_session set_session_state
reset_session-fields now s r = ground arith

module _ (t : Turn) where
  -- The notification with the code 6 (Cease), if it can be sent.
  abbrev pub cease : Session → List Bmf
  cease s = elim s.socket [
    | none ↦ []
    | some _ ↦ if t.write (type_notification 6 0) then to_peer (type_notification 6 0) ∷ [] else []
  ]

  -- A session that was given up, and what it has announced.
  pub record Ends (s s' : Session) : Type 0 where
    pub state : s'.state ≡ idle
    pub socket : s'.socket ≡ none
    pub no_reconnect : s'.reconnect_flag ≡ false
    pub no_timers : (s'.connect_retry_timer ≡ 0) × (s'.hold_timer ≡ 0) × (s'.keepalive_timer ≡ 0)
    pub announced : s'.queued ≡ state_change s.state idle (end_reason s) ∷ (cease s ++ s.queued)
    pub noticed :
        check_state_change_message (state_change s.state idle (end_reason s))
        ≡ not (same_state s.state connect)

  pub notified :
      (s : Session) → send_notification t 6 0 s ≡ record s { queued = cease s ++ s.queued }
  unfolding send_notification
  notified s = elim (Option-cases s.socket) [
    | inl e ↦ rw e refl
    | inr (fd, e) ↦ elim (Bool-cases (t.write (type_notification 6 0))) [
      | inl w ↦ rw (e, w) refl
      | inr w ↦ rw (e, w) refl
    ]
  ]

  cleanup_session-Ends : (s : Session) → Ends s (cleanup_session t s)
  unfolding cleanup_session check_state_change_message
  cleanup_session-Ends s =
      let x : Session = record s { queued = cease s ++ s.queued } in
      let (_, e) = reset_session-IsValid t.later x manual_stop in
      let f = reset_session-fields t.later x manual_stop in
      rw (notified s) (record {
        state = e;
        socket = f.0;
        no_reconnect = refl;
        no_timers = f.1;
        announced = λ i. state_change s.state (e i) (f.3 i) ∷ f.2 i;
        noticed = and_true (not (same_state s.state connect));
      })

  abbrev IsReported : BgpState → Session → Session × Bool → Type 0
  IsReported old s (s', ended) =
      ((ended ≡ true) × IsGivenUp old s × Ends s s')
      ⊎ ((ended ≡ false)
          × GoesOn old s
          × (((s' ≡ s) × (s.state ≡ old))
              ⊎ ((s' ≡ record s { queued = state_change old s.state s.reason ∷ s.queued })
                  × (s.state ≢ old)
                  × (check_state_change_message (state_change old s.state s.reason) ≡ false))))

  -- At the end of a turn a session is given up if its reconnect flag is set, or if it came from a
  -- state other than Connect and is in Idle now; else it goes on. One that is given up ends in
  -- Idle without a socket, timers and reconnect flag, and has sent the Cease notification if it
  -- had a socket that could be written, then the message that it went to Idle from the state that
  -- the state machine left it in, which counts as an end unless that state is Connect. One that
  -- goes on is unchanged if its state is the old one; else only the change is announced, and it
  -- does not count as an end.
  pub finish_turn_lem :
      (old : BgpState) (s : Session)
      → let (s', ended) = finish_turn t old s in
        ((ended ≡ true) × IsGivenUp old s × Ends s s')
        ⊎ ((ended ≡ false)
            × GoesOn old s
            × (((s' ≡ s) × (s.state ≡ old))
                ⊎ ((s' ≡ record s { queued = state_change old s.state s.reason ∷ s.queued })
                    × (s.state ≢ old)
                    × (check_state_change_message (state_change old s.state s.reason) ≡ false))))
  unfolding finish_turn check_state_change_message
  finish_turn_lem old s =
      if_elim (IsReported old s)
        (s.reconnect_flag || (not (same_state old connect) && is_idle s.state))
        (λ ends. inl (refl, gives_up old s ends, cleanup_session-Ends s))
        (λ stays.
          if_elim (IsReported old s) (same_state s.state old)
            (λ same. inr (refl, goes_on old s stays, inl (refl, same_state_sound s.state old same)))
            (λ differ. inr (
              refl,
              goes_on old s stays,
              inr (refl, same_state_complete s.state old differ, neither _ _ stays),
            )))
