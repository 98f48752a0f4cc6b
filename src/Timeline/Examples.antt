-- ===== src/Timeline/Examples.antt =====
-- A short response, event by event.
use moonlit_ai_agent.Prelude.{◌≡◌, Bool, true, false, List, [], ◌∷◌, ◌++◌, codes, concat, text_eq}
use moonlit_ai_agent.Prelude.Json.{Value}
use moonlit_ai_agent.Items.Texts.{timeline_text}
use moonlit_ai_agent.Items.Tools.{running_count}
use moonlit_ai_agent.Timeline.{
  Event, token, tool_start, tool_end, thinking_token, error, new_stream, handle_events, error_note,
}
use moonlit_ai_agent.Timeline.Contents.{response_texts}
use moonlit_ai_agent.Timeline.Replay.{handle_events-running_count}

abbrev response : List (Bool × Event)
response =
    (true, thinking_token (codes "hm"))
    ∷ (false, token (codes "Let me "))
    ∷ (false, token (codes "look."))
    ∷ (false, tool_start (codes "run_query") Value.null)
    ∷ (true, tool_start (codes "run_query") Value.null)
    ∷ (false, tool_end (codes "run_query") Value.null Value.null)
    ∷ (false, error (codes "lost"))
    ∷ []

response_texts_example :
    (timeline_text (handle_events response new_stream).event_timeline ≡ codes "Let me look.")
    × (concat (handle_events response new_stream).content_parts
        ≡ codes "Let me look." ++ error_note (codes "lost"))
response_texts_example = response_texts response

handle_events-running_count_example :
    running_count (codes "run_query") (handle_events response new_stream).event_timeline ≡ 1
unfolding running_count text_eq
handle_events-running_count_example =
    handle_events-running_count (codes "run_query") response new_stream
