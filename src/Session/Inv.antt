-- ===== src/Session/Inv.antt =====
-- What holds of a session in each state (Peering/bgpfsm.c): which timers run, whether there is a
-- connection, and whether the peer's capabilities are known.
pub mod Receive
pub mod Run
use bgpmon.Base.{
  ℕ, zero, suc, ◌+◌, ◌<◌, ◌≡◌, refl, sym, ap, ◌∙◌, subst, ◌⊎◌, inl, inr, Bool, true, false, Option,
  none, some, List, arith, if◌then◌else◌, ◌==◌, ==_iff, Bool-cases, if_elim,
}
use bgpmon.Session.State.{
  BgpState, error, idle, connect, active, open_sent, open_confirm, established, mrt_established,
  BgpEvent, bgp_open, Capability, Packet, Session, number_of, same_state,
}
use bgpmon.Session.Timers.{set_session_state, reset_session, enter}
use bgpmon.Session.Wire.{Turn, send}
use bgpmon.Session.Fsm.{or_reset}

-- The part of a session that the invariant is about.
pub record Line : Type 0 where
  pub socket : Option ℕ
  pub connect_retry_timer : ℕ
  pub keepalive_timer : ℕ
  pub hold_timer : ℕ
  pub peer_capabilities : Option (List Capability)

abbrev pub line : Session → Line
line s = record {
  socket = s.socket;
  connect_retry_timer = s.connect_retry_timer;
  keepalive_timer = s.keepalive_timer;
  hold_timer = s.hold_timer;
  peer_capabilities = s.peer_capabilities;
}

abbrev pub IsKnown : {A : Type 0} → Option A → Type 0
IsKnown none = ⊥
IsKnown (some a) = Unit {0}

-- No timer runs in Idle and only the connect-retry timer in Connect, where there is no socket; from
-- OpenSent on there is one and the hold timer runs, and from OpenConfirm on the keepalive timer
-- too, the peer's capabilities being known.
abbrev pub InState : BgpState → Line → Type 0
InState idle l =
    (l.socket ≡ none) × (l.connect_retry_timer ≡ 0) × (l.keepalive_timer ≡ 0) × (l.hold_timer ≡ 0)
InState connect l =
    (l.socket ≡ none) × (0 < l.connect_retry_timer) × (l.keepalive_timer ≡ 0) × (l.hold_timer ≡ 0)
InState open_sent l =
    IsKnown l.socket × (l.connect_retry_timer ≡ 0) × (l.keepalive_timer ≡ 0) × (0 < l.hold_timer)
InState open_confirm l =
    IsKnown l.socket
    × (l.connect_retry_timer ≡ 0)
    × (0 < l.keepalive_timer)
    × (0 < l.hold_timer)
    × IsKnown l.peer_capabilities
InState established l =
    IsKnown l.socket
    × (l.connect_retry_timer ≡ 0)
    × (0 < l.keepalive_timer)
    × (0 < l.hold_timer)
    × IsKnown l.peer_capabilities
InState _ l = Unit {0}

abbrev pub IsValid : Session → Type 0
IsValid s = InState s.state (line s)

of_number : ℕ → BgpState
of_number n =
    if n == 0
    then error
    else if n == 1
    then idle
    else if n == 2
    then connect
    else if n == 3
    then active
    else if n == 4
    then open_sent
    else if n == 5
    then open_confirm
    else if n == 6
    then established
    else mrt_established

of_number-number_of : (a : BgpState) → of_number (number_of a) ≡ a
unfolding of_number
of_number-number_of error = refl
of_number-number_of idle = refl
of_number-number_of connect = refl
of_number-number_of active = refl
of_number-number_of open_sent = refl
of_number-number_of open_confirm = refl
of_number-number_of established = refl
of_number-number_of mrt_established = refl

same_state_sound : (a b : BgpState) → same_state a b ≡ true → a ≡ b
same_state_sound a b e =
    sym (of_number-number_of a)
    ∙ ap of_number ((==_iff (number_of a) (number_of b)).0 e)
    ∙ of_number-number_of b

-- setSessionState reaches the state it is given and leaves the line alone.
pub set_session_state_lem :
    (now : ℕ) (s : Session) (st : BgpState) (r : BgpEvent)
    → ((set_session_state now s st r).state ≡ st) × (line (set_session_state now s st r) ≡ line s)
unfolding set_session_state
set_session_state_lem now s st r = elim (Bool-cases (same_state st s.state)) [
  | inl e ↦ let same = same_state_sound st s.state e in (ground arith, ground arith)
  | inr e ↦ (ground arith, ground arith)
]

pub set_session_state-IsValid :
    (now : ℕ) (s : Session) (st : BgpState) (r : BgpEvent)
    → InState st (line s)
    → IsValid (set_session_state now s st r)
set_session_state-IsValid now s st r v =
    let (e, l) = set_session_state_lem now s st r in rw (e, l) v

-- A reset gives a valid session in Idle, whatever was before.
pub reset_session-IsValid :
    (now : ℕ) (s : Session) (r : BgpEvent)
    → IsValid (reset_session now s r) × ((reset_session now s r).state ≡ idle)
unfolding reset_session
reset_session-IsValid now s r = (
  set_session_state-IsValid now _ idle r (refl, refl, refl, refl),
  (set_session_state_lem now _ idle r).0,
)

pub or_reset-IsValid :
    (t : Turn) (p : Packet) (s : Session) (r : BgpEvent)
    → IsValid s
    → IsValid (or_reset t (send t p s) r)
unfolding send
or_reset-IsValid t p s r v = elim (Bool-cases (t.write p)) [
  | inl e ↦ rw e v
  | inr e ↦ rw e ((reset_session-IsValid t.later s r).0)
]
