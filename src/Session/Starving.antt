-- ===== src/Session/Starving.antt =====
-- What a keepalive interval of at most 1, that of a hold time below 6 seconds, does to a session in
-- OpenConfirm (restartSessionKeepaliveTimer and checkTimers of Peering/peersession.c).
use bgpmon.Base.{
  ℕ, zero, suc, ◌+◌, ◌≤◌, ◌<◌, ◌≡◌, refl, ap, ◌∙◌, true, List, [], ◌∷◌, ◌++◌, arith, Result, ok,
  ◌>>=◌, length, replicate,
}
use bgpmon.Session.State.{
  open_confirm, keepalive_timer_expires, type_keepalive, Bmf, to_peer, Session,
}
use bgpmon.Session.Timers.{jitter, restart_session_keepalive_timer, check_timers}
use bgpmon.Session.Timing.{jitter_bounds}
use bgpmon.Session.Wire.{Turn, send, receive_keepalive_message}
use bgpmon.Session.Fsm.{after_keepalive, fsm_open_confirm, run_state, bgp_finite_state_machine}

-- At this time the keepalive timer of a session in OpenConfirm is due.
pub record IsStarved (now : ℕ) (s : Session) : Type 0 where
  pub state : s.state ≡ open_confirm
  pub connect_retry : s.connect_retry_timer ≡ 0
  pub interval : s.keepalive_int ≤ 1
  pub running : 0 < s.keepalive_timer
  pub due : s.keepalive_timer ≤ now + 1

due_first : (now : ℕ) (s : Session) → IsStarved now s → check_timers now s ≡ keepalive_timer_expires
unfolding check_timers
due_first now s h = let a = h.connect_retry in let b = h.running in let c = h.due in ground arith

-- The session after a run that only sends a keepalive message.
kept_alive : Turn → Session → Session
kept_alive t s = record s {
  keepalive_timer = t.later + jitter t.rand s.keepalive_int;
  queued = to_peer type_keepalive ∷ s.queued;
}

one_run :
    (t : Turn) (s : Session)
    → t.write type_keepalive ≡ true
    → IsStarved t.now s
    → bgp_finite_state_machine t s ≡ ok (kept_alive t s)
unfolding bgp_finite_state_machine run_state fsm_open_confirm receive_keepalive_message
    after_keepalive send restart_session_keepalive_timer kept_alive check_timers jitter
one_run t s w h = rw h.state (rw (due_first t.now s h) (rw w))

still-IsStarved :
    (t : Turn) (s : Session) → 0 < t.later → IsStarved t.now s → IsStarved t.later (kept_alive t s)
unfolding kept_alive
still-IsStarved t s pos h =
    let (_, high) = jitter_bounds t.rand s.keepalive_int in
    record {
      state = h.state;
      connect_retry = h.connect_retry;
      interval = h.interval;
      running = omega arith;
      due = omega (arith, h.interval);
    }

later-IsStarved : (a b : ℕ) (s : Session) → a ≤ b → IsStarved a s → IsStarved b s
later-IsStarved a b s le h = record {
  state = h.state;
  connect_retry = h.connect_retry;
  interval = h.interval;
  running = h.running;
  due = omega (arith, h.due);
}

replicate_shift : (n : ℕ) (b : Bmf) (l : List Bmf) → replicate n b ++ b ∷ l ≡ b ∷ replicate n b ++ l
replicate_shift zero b l = refl
replicate_shift (suc n) b l = ap (◌∷◌ b) (replicate_shift n b l)

unfoldable pub run_turns : List Turn → Session → Result Session
run_turns [] s = ok s
run_turns (t ∷ ts) s = bgp_finite_state_machine t s >>= λ s'. run_turns ts s'

-- Time does not run backwards, and every keepalive message can be written.
abbrev pub InOrder : ℕ → List Turn → Type 0
InOrder now [] = Unit {0}
InOrder now (t ∷ ts) =
    (now ≤ t.now) × (t.now ≤ t.later) × (t.write type_keepalive ≡ true) × InOrder t.later ts

-- While keepalive messages can be written, a session in OpenConfirm with a keepalive interval of at
-- most 1 whose keepalive timer is due sends one keepalive message in each run, stays in OpenConfirm
-- and puts nothing that its peer sends on the queue.
pub open_confirm_starves :
    (ts : List Turn) (now : ℕ) (s : Session)
    → 0 < now
    → InOrder now ts
    → IsStarved now s
    → (s' : Session) × (run_turns ts s ≡ ok s')
      × (s'.state ≡ open_confirm)
      × (s'.queued ≡ replicate (length ts) (to_peer type_keepalive) ++ s.queued)
unfolding run_turns kept_alive
open_confirm_starves [] now s pos o h = (s, refl, h.state, refl)
open_confirm_starves (t ∷ ts) now s pos (a, b, w, o) h =
    let h1 = later-IsStarved now t.now s a h in
    let (s', e, st, q) =
      open_confirm_starves ts t.later (kept_alive t s) (omega arith) o
        (still-IsStarved t s (omega arith) h1) in
    (
      s',
      rw (one_run t s w h1) e,
      st,
      q ∙ replicate_shift (length ts) (to_peer type_keepalive) s.queued,
    )
