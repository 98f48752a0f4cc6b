-- ===== src/Response/Seen.antt =====
-- Which events leave something to see in the message.
use moonlit_ai_agent.Prelude.{
  ◌≡◌, refl, Bool, true, false, Option, List, [], ◌∷◌, ◌++◌, Text, not, is_empty, map, ◌&&◌, arith,
}
use moonlit_ai_agent.Prelude.Json.{Value}
use moonlit_ai_agent.Message.{Item}
use moonlit_ai_agent.Items.{
  append_token, append_thinking, start_tool, end_tool, activate_skills, show_status,
  is_hidden_status, update_first, complete_thinking,
}
use moonlit_ai_agent.Timeline.{
  Stream, Event, token, tool_start, tool_end, thinking_token, skills_activated, workflow_status,
  agent_interrupt, agent_step_limit_reached, task_mode, error, usage_metrics, ui_action, other,
  handle_event, schedule_stream_update, error_note,
}

-- The events that leave something for the user to see in the message.
abbrev pub shows : Event → Bool
shows (token content) = true
shows (tool_start name args) = true
shows (thinking_token content) = true
shows (skills_activated incoming) = not (is_empty incoming)
shows (workflow_status stage content is_done) = not (is_hidden_status stage content)
shows (error message) = true
shows _ = false

is_empty-append : {A : Type 0} (xs : List A) (y : A) → is_empty (xs ++ y ∷ []) ≡ false
is_empty-append [] y = refl
is_empty-append (x ∷ xs) y = refl

is_empty-append_token :
    (content : Text) (all items : List Item) → is_empty (append_token content all items) ≡ false
unfolding append_token
is_empty-append_token content all [] = refl
is_empty-append_token content all (i ∷ []) = ground arith
is_empty-append_token content all (i ∷ j ∷ is) = refl

is_empty-append_thinking :
    (content : Text) (all items : List Item) → is_empty (append_thinking content all items) ≡ false
unfolding append_thinking
is_empty-append_thinking content all [] = refl
is_empty-append_thinking content all (i ∷ []) = ground arith
is_empty-append_thinking content all (i ∷ j ∷ is) = refl

is_empty-end_tool :
    (name : Text) (args result : Value) (items : List Item)
    → is_empty (end_tool name args result items) ≡ is_empty items
unfolding end_tool
is_empty-end_tool name args result [] = refl
is_empty-end_tool name args result (i ∷ is) = ground arith

is_empty-update_first :
    (test : Item → Bool) (change : Item → Item) (items : List Item)
    → is_empty (update_first test change items) ≡ is_empty items
unfolding update_first
is_empty-update_first test change [] = refl
is_empty-update_first test change (i ∷ is) = ground arith

is_empty-activate_skills :
    (incoming : List Text) (items : List Item)
    → is_empty (activate_skills incoming items) ≡ (is_empty items && is_empty incoming)
unfolding activate_skills
is_empty-activate_skills incoming [] = ground arith
is_empty-activate_skills incoming (i ∷ is) = ground arith

is_empty-show_status :
    (stage content : Option Text) (is_done : Bool) (items : List Item)
    → is_empty (show_status stage content is_done items) ≡ false
unfolding show_status
is_empty-show_status stage content is_done [] = refl
is_empty-show_status stage content is_done (i ∷ is) = ground arith

-- Nothing is there to see.
abbrev pub blank : Stream → Bool
blank s = is_empty s.content_parts && is_empty s.event_timeline

pub blank-handle_event :
    (due : Bool) (e : Event) (s : Stream)
    → blank (handle_event due e s).0 ≡ (blank s && not (shows e))
unfolding handle_event schedule_stream_update start_tool
blank-handle_event due (token content) s = ground (arith, is_empty-append s.content_parts content)
blank-handle_event due (tool_start name args) s =
    ground (arith, is_empty-append (map complete_thinking s.event_timeline) _)
blank-handle_event due (tool_end name args result) s =
    ground (arith, is_empty-end_tool name args result s.event_timeline)
blank-handle_event due (thinking_token content) s =
    ground (arith, is_empty-append_thinking content s.event_timeline s.event_timeline)
blank-handle_event due (skills_activated incoming) s =
    ground (arith, is_empty-activate_skills incoming s.event_timeline)
blank-handle_event due (workflow_status stage content is_done) s =
    ground (arith, is_empty-show_status stage content is_done s.event_timeline)
blank-handle_event due (error message) s =
    ground (arith, is_empty-append s.content_parts (error_note message))
blank-handle_event due (agent_interrupt v) s = ground arith
blank-handle_event due (agent_step_limit_reached v) s = ground arith
blank-handle_event due (task_mode v) s = ground arith
blank-handle_event due (usage_metrics v) s = ground arith
blank-handle_event due (ui_action v) s = ground arith
blank-handle_event due other s = ground arith
