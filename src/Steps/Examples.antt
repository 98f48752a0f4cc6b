-- ===== src/Steps/Examples.antt =====
-- The steps of short responses.
use moonlit_ai_agent.Prelude.{◌≡◌, refl, true, false, none, List, [], ◌∷◌, Text, codes, any}
use moonlit_ai_agent.Prelude.Json.{Value}
use moonlit_ai_agent.Message.{Item, ToolStatus}
use moonlit_ai_agent.Timeline.{Stream, new_stream}
use moonlit_ai_agent.Response.{build_message_data}
use moonlit_ai_agent.Steps.Activity.{active-build_message_data}
use moonlit_ai_agent.Steps.{Step, normalize_steps, is_any_step_active, format_tool_name}
use moonlit_ai_agent.Steps.Summary.{Host, tool_steps}

abbrev items : List Item
items =
    Item.thinking none (codes "hm") true
    ∷ Item.tool none (codes "execute_query") ToolStatus.error Value.null Value.null
    ∷ Item.tool none (codes "draw_chart") ToolStatus.running Value.null Value.null
    ∷ Item.text none (codes "so")
    ∷ []

format_tool_name_test : format_tool_name (codes "draw_chart-x") ≡ codes "Draw Chart X"
unfolding format_tool_name
format_tool_name_test = refl

abbrev failed : Text → Step
failed name = Step.tool name name name Value.null Value.null false true

abbrev ended : List Step
ended = Step.thinking (codes "t") (codes "hm") true ∷ failed (codes "f") ∷ failed (codes "g") ∷ []

abbrev cut_short : Stream
cut_short = record new_stream { event_timeline = items }

abbrev host : Host
host = record { to_string = λ v. []; to_locale_string = λ v. []; to_lower_case = λ t. t }

none_active : is_any_step_active ended ≡ false
unfolding is_any_step_active
none_active = refl

two_failed : any (λ t. t.is_error) (tool_steps ended) ≡ true
unfolding tool_steps
two_failed = refl

active-build_message_data_example :
    is_any_step_active (normalize_steps (build_message_data none true cut_short).steps) ≡ true
active-build_message_data_example = active-build_message_data none cut_short
