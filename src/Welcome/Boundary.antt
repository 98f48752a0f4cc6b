-- ===== src/Welcome/Boundary.antt =====
-- front-end/src/features/chat/welcomeSuggestions.js: when the greeting changes.
use moonlit_ai_agent.Prelude.{ℕ, ◌+◌, ◌%◌, ◌<◌, ◌≡◌, ◌≢◌, arith}
use moonlit_ai_agent.Welcome.{day_ms, get_welcome_period, get_welcome_period_boundary_delay}

delay_pos : (time : ℕ) → time < day_ms → 0 < get_welcome_period_boundary_delay time
unfolding get_welcome_period_boundary_delay
delay_pos time h = ground arith

kept :
    (time t : ℕ)
    → time < day_ms
    → t < get_welcome_period_boundary_delay time
    → get_welcome_period ((time + t) % day_ms) ≡ get_welcome_period time
unfolding get_welcome_period_boundary_delay get_welcome_period
kept time t h k = ground arith

changed :
    (time : ℕ)
    → time < day_ms
    → get_welcome_period ((time + get_welcome_period_boundary_delay time) % day_ms)
      ≢ get_welcome_period time
unfolding get_welcome_period_boundary_delay get_welcome_period
changed time h = ground arith

-- At any time of a day the greeting stays as it is for just as long as the delay, over midnight too:
-- the delay is not nothing, before it is over the period is the same, and when it is over it is not.
pub get_welcome_period-get_welcome_period_boundary_delay :
    (time : ℕ)
    → time < day_ms
    → (0 < get_welcome_period_boundary_delay time)
      × ((t : ℕ)
          → t < get_welcome_period_boundary_delay time
          → get_welcome_period ((time + t) % day_ms) ≡ get_welcome_period time)
      × (get_welcome_period ((time + get_welcome_period_boundary_delay time) % day_ms)
          ≢ get_welcome_period time)
get_welcome_period-get_welcome_period_boundary_delay time h =
    (delay_pos time h, λ t k. kept time t h k, changed time h)
