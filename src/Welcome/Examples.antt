-- ===== src/Welcome/Examples.antt =====
-- A late evening, and a suggestion that is chosen twice.
use moonlit_ai_agent.Prelude.{ℕ, ◌+◌, ◌%◌, ◌<◌, true, some, [], ◌∷◌, ◌≡◌, ◌≢◌, refl, codes, arith}
use moonlit_ai_agent.Welcome.{
  day_ms, get_welcome_period, get_welcome_period_boundary_delay, get_welcome_greeting, returned,
  run_guarded_welcome_activation,
}
use moonlit_ai_agent.Welcome.Boundary.{get_welcome_period-get_welcome_period_boundary_delay}
use moonlit_ai_agent.Welcome.Guarded.{activation, acts, new_guarded}

greeting :
    get_welcome_greeting 79200000 (some (codes " Ada Lovelace "))
    ≡ codes "What are we exploring tonight, Ada?"
unfolding get_welcome_greeting
greeting = refl

get_welcome_period-get_welcome_period_boundary_delay_example :
    (0 < get_welcome_period_boundary_delay 79200000)
    × ((t : ℕ)
        → t < get_welcome_period_boundary_delay 79200000
        → get_welcome_period ((79200000 + t) % day_ms) ≡ get_welcome_period 79200000)
    × (get_welcome_period ((79200000 + get_welcome_period_boundary_delay 79200000) % day_ms)
        ≢ get_welcome_period 79200000)
get_welcome_period-get_welcome_period_boundary_delay_example =
    get_welcome_period-get_welcome_period_boundary_delay 79200000 (omega arith)

began_once :
    (acts (activation (returned true) ∷ activation (returned true) ∷ []) new_guarded).begun ≡ 1
unfolding run_guarded_welcome_activation
began_once = refl
