-- ===== src/Timeline.antt =====
-- front-end/src/hooks/chat-page/useMessageStreaming.js, `streamAssistantResponse`: the variables of
-- the closure, and what each event of a response does to them.
pub mod Contents
pub mod Replay
mod Examples
use moonlit_ai_agent.Prelude.{
  Bool, true, false, Option, none, some, List, [], ◌∷◌, ◌++◌, Text, codes, if◌then◌else◌,
}
use moonlit_ai_agent.Prelude.Json.{Value}
use moonlit_ai_agent.Message.{Item, MessageStatus}
use moonlit_ai_agent.Items.{
  append_token, append_thinking, start_tool, end_tool, activate_skills, show_status,
  is_hidden_status,
}

-- The events of the server, by their `type`; `other` stands for the types with no case.
pub data Event : Type 0 where
  token : Text → Event
  tool_start : Text → Value → Event
  tool_end : Text → Value → Value → Event
  thinking_token : Text → Event
  skills_activated : List Text → Event
  workflow_status : (stage content : Option Text) → (is_done : Bool) → Event
  agent_interrupt agent_step_limit_reached task_mode usage_metrics ui_action : Value → Event
  error : Text → Event
  other : Event

-- The flush that is scheduled: by a frame, by a timer, or none.
pub data Flush : Type 0 where
  idle frame timer : Flush

-- The variables of the closure.
pub record Stream : Type 0 where
  pub content_parts : List Text
  pub event_timeline : List Item
  pub pending_status : Option MessageStatus
  pub flush : Flush
  pub has_agent_interrupt : Bool
  pub interrupted_without_assistant_content : Bool
  pub has_step_limit_reached : Bool
  pub has_stream_error : Bool
  pub last_usage_metrics : Option Value

abbrev pub new_stream : Stream
new_stream = record {
  content_parts = [];
  event_timeline = [];
  pending_status = none;
  flush = Flush.idle;
  has_agent_interrupt = false;
  interrupted_without_assistant_content = false;
  has_step_limit_reached = false;
  has_stream_error = false;
  last_usage_metrics = none;
}

abbrev flush_after : Bool → Flush → Flush
flush_after due Flush.idle = if due then frame else timer
flush_after due f = f

-- `scheduleStreamUpdate`; `due` tells that the last flush lies long enough in the past.
unfoldable pub schedule_stream_update : Bool → MessageStatus → Stream → Stream
schedule_stream_update due status s = record s {
  pending_status = some status;
  flush = flush_after due s.flush;
}

-- The callbacks of the hook's owner that an event leads to.
pub data Callback : Type 0 where
  on_agent_interrupt on_agent_step_limit_reached on_task_mode_resolved : Value → Callback
  dispatch_usage dispatch_ui_action : Value → Callback

abbrev with_timeline : List Item → Bool → Stream → Stream
with_timeline items due s =
    schedule_stream_update due MessageStatus.streaming (record s { event_timeline = items })

abbrev pub error_note : Text → Text
error_note message = 10 ∷ 10 ∷ (codes "**Error**: " ++ message)

-- The `switch` on the event's type.
unfoldable pub handle_event : Bool → Event → Stream → Stream × Option Callback
unfolding append_token append_thinking start_tool end_tool activate_skills show_status
    is_hidden_status schedule_stream_update
handle_event due (token content) s = (
  with_timeline (append_token content s.event_timeline s.event_timeline) due
      (record s { content_parts = s.content_parts ++ content ∷ [] }),
  none,
)
handle_event due (tool_start name args) s =
    (with_timeline (start_tool name args s.event_timeline) due s, none)
handle_event due (tool_end name args result) s =
    (with_timeline (end_tool name args result s.event_timeline) due s, none)
handle_event due (thinking_token content) s =
    (with_timeline (append_thinking content s.event_timeline s.event_timeline) due s, none)
handle_event due (skills_activated incoming) s =
    (with_timeline (activate_skills incoming s.event_timeline) due s, none)
handle_event due (workflow_status stage content is_done) s =
    if is_hidden_status stage content
    then (s, none)
    else (with_timeline (show_status stage content is_done s.event_timeline) due s, none)
handle_event due (agent_interrupt v) s = (
  schedule_stream_update due MessageStatus.waiting
      (record s { has_agent_interrupt = true; interrupted_without_assistant_content = true }),
  some (on_agent_interrupt v),
)
handle_event due (agent_step_limit_reached v) s = (
  schedule_stream_update due MessageStatus.paused (record s { has_step_limit_reached = true }),
  some (on_agent_step_limit_reached v),
)
handle_event due (task_mode v) s = (s, some (on_task_mode_resolved v))
handle_event due (error message) s = (
  schedule_stream_update due MessageStatus.error (record s {
    has_stream_error = true;
    content_parts = s.content_parts ++ error_note message ∷ [];
  }),
  none,
)
handle_event due (usage_metrics v) s = (
  schedule_stream_update due MessageStatus.streaming (record s { last_usage_metrics = some v }),
  some (dispatch_usage v),
)
handle_event due (ui_action v) s = (s, some (dispatch_ui_action v))
handle_event due other s = (s, none)

-- The events of a response, each with what the clock says at its time.
abbrev pub handle_events : List (Bool × Event) → Stream → Stream
handle_events [] s = s
handle_events ((due, e) ∷ es) s = handle_events es (handle_event due e s).0
