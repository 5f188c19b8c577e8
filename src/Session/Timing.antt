-- ===== src/Session/Timing.antt =====
-- The timers of a session (Peering/peersession.c): their delays, and the earliest.
use bgpmon.Base.{ℕ, ◌+◌, ◌*◌, ◌/◌, ◌%◌, ◌≤◌, ◌<◌, ◌≡◌, ◌⊎◌, arith, if◌then◌else◌, ltb}
use bgpmon.Session.State.{Session}
use bgpmon.Session.Timers.{jitter, restart_session_connect_retry_timer, session_timer}

scaled_low : (s f : ℕ) → 75 ≤ f → s * 75 ≤ s * f
scaled_low s f h = grind arith

scaled_high : (s f : ℕ) → f ≤ 100 → s * f ≤ s * 100
scaled_high s f h = grind arith

-- The delay of a timer lies between three quarters of its interval and the whole.
pub jitter_bounds :
    (rand seconds : ℕ)
    → ((seconds * 75) / 100 ≤ jitter rand seconds) × (jitter rand seconds ≤ seconds)
unfolding jitter
jitter_bounds rand seconds =
    let low = scaled_low seconds (75 + rand % 26) (omega arith) in
    let high = scaled_high seconds (75 + rand % 26) (omega arith) in (omega arith, omega arith)

-- However often a connection failed, the next try is at most a minute away.
pub connect_retry_bound :
    (now rand : ℕ) (s : Session)
    → let t = (restart_session_connect_retry_timer now rand s).connect_retry_timer in
      (now ≤ t) × (t ≤ now + 60)
unfolding restart_session_connect_retry_timer
connect_retry_bound now rand s =
    let backoff = s.connect_retry_int * s.connect_retry_count in
    let b = jitter_bounds rand (if ltb 60 backoff then 60 else backoff) in
    (omega arith, ground (arith, b.1))

-- If some timer runs, sessionTimer is above 0, is at most that timer, and is one of the three.
pub session_timer_lem :
    (s : Session) (timer : ℕ)
    → (timer ≡ s.connect_retry_timer) ⊎ ((timer ≡ s.hold_timer) ⊎ (timer ≡ s.keepalive_timer))
    → 0 < timer
    → (0 < session_timer s)
      × (session_timer s ≤ timer)
      × ((session_timer s ≡ s.connect_retry_timer)
          ⊎ ((session_timer s ≡ s.hold_timer) ⊎ (session_timer s ≡ s.keepalive_timer)))
unfolding session_timer
session_timer_lem s timer which running = ground arith
