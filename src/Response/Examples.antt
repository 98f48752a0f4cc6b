-- ===== src/Response/Examples.antt =====
-- A response whose flushes fall between its events.
use moonlit_ai_agent.Prelude.{◌≡◌, refl, Bool, true, false, none, some, List, [], ◌∷◌, codes}
use moonlit_ai_agent.Message.{MessageStatus}
use moonlit_ai_agent.Prelude.Json.{null}
use moonlit_ai_agent.Session.{StreamStatus}
use moonlit_ai_agent.Timeline.{
  Event, token, agent_interrupt, agent_step_limit_reached, error, ui_action, new_stream,
  handle_events,
}
use moonlit_ai_agent.Response.{final_write, stream_outcome, build_message_data}
use moonlit_ai_agent.Response.Batching.{
  Tick, arrives, fires, ticks, blank, IsCurrent, ticks-blank-IsCurrent, two_fires,
}
use moonlit_ai_agent.Response.Ending.{written_status, message_status, response_ending}

abbrev ticking : List Tick
ticking =
    arrives false (token (codes "a"))
    ∷ fires
    ∷ arrives true (token (codes "b"))
    ∷ fires
    ∷ arrives true (token (codes "c"))
    ∷ []

ticks-blank-IsCurrent_example : IsCurrent none (ticks none ticking (blank none))
ticks-blank-IsCurrent_example = ticks-blank-IsCurrent none ticking

two_fires_example :
    ((ticks none (fires ∷ fires ∷ []) (ticks none ticking (blank none))).shown
      ≡ build_message_data none false (ticks none ticking (blank none)).stream)
    × ((ticks none (fires ∷ fires ∷ []) (ticks none ticking (blank none))).stream.pending_status
        ≡ none)
two_fires_example = two_fires none ticking

-- The session is paused, and its message in error.
abbrev failed_at_limit : List (Bool × Event)
failed_at_limit =
    (true, token (codes "a"))
    ∷ (true, agent_step_limit_reached null)
    ∷ (false, error (codes "lost"))
    ∷ []

-- An interrupt with nothing to see but its own action.
abbrev interrupted_at_once : List (Bool × Event)
interrupted_at_once = (true, ui_action null) ∷ (true, agent_interrupt null) ∷ []

removed : message_status interrupted_at_once ≡ none
removed = refl

response_ending_example :
    (stream_outcome (handle_events failed_at_limit new_stream) ≡ StreamStatus.paused)
    × (written_status (final_write none (handle_events failed_at_limit new_stream))
        ≡ some MessageStatus.error)
response_ending_example = response_ending none failed_at_limit
