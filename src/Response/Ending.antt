-- ===== src/Response/Ending.antt =====
-- How a response ends, by the events that it has brought: the last write to its message, and the
-- status of its session.
use moonlit_ai_agent.Prelude.{
  ◌≡◌, refl, ap, ◌∙◌, Bool, true, false, Option, none, some, List, [], ◌∷◌, not, ◌&&◌, ◌||◌,
  if◌then◌else◌, arith,
}
use moonlit_ai_agent.Message.{MessageStatus}
use moonlit_ai_agent.Message.Upsert.{MessageData}
use moonlit_ai_agent.Session.{StreamStatus}
use moonlit_ai_agent.Timeline.{
  Stream, Event, token, tool_start, tool_end, thinking_token, skills_activated, workflow_status,
  agent_interrupt, agent_step_limit_reached, task_mode, error, usage_metrics, ui_action, other,
  new_stream, handle_event, handle_events, schedule_stream_update,
}
use moonlit_ai_agent.Response.{Write, upsert, remove, final_write, stream_outcome}
use moonlit_ai_agent.Response.Seen.{shows, blank, blank-handle_event}

abbrev pub written_status : Write → Option MessageStatus
written_status (upsert d st) = some st
written_status remove = none

abbrev pub is_interrupt : Event → Bool
is_interrupt (agent_interrupt v) = true
is_interrupt _ = false

abbrev pub is_limit : Event → Bool
is_limit (agent_step_limit_reached v) = true
is_limit _ = false

abbrev pub is_error : Event → Bool
is_error (error message) = true
is_error _ = false

abbrev pub any_of : (Event → Bool) → List (Bool × Event) → Bool
any_of test [] = false
any_of test ((due, e) ∷ es) = test e || any_of test es

-- What the closure keeps of the events for its end.
record Flags : Type 0 where
  interrupted : Bool
  limited : Bool
  failed : Bool
  unseen : Bool

abbrev kept_of : Stream → Flags
kept_of s = record {
  interrupted = s.has_agent_interrupt;
  limited = s.has_step_limit_reached;
  failed = s.has_stream_error;
  unseen = blank s;
}

abbrev after : Event → Flags → Flags
after e x = record {
  interrupted = x.interrupted || is_interrupt e;
  limited = x.limited || is_limit e;
  failed = x.failed || is_error e;
  unseen = x.unseen && not (shows e);
}

kept_of-handle_event :
    (due : Bool) (e : Event) (s : Stream) → kept_of (handle_event due e s).0 ≡ after e (kept_of s)
unfolding handle_event schedule_stream_update
kept_of-handle_event due (token content) s =
    ground (arith, blank-handle_event due (token content) s)
kept_of-handle_event due (tool_start name args) s =
    ground (arith, blank-handle_event due (tool_start name args) s)
kept_of-handle_event due (tool_end name args result) s =
    ground (arith, blank-handle_event due (tool_end name args result) s)
kept_of-handle_event due (thinking_token content) s =
    ground (arith, blank-handle_event due (thinking_token content) s)
kept_of-handle_event due (skills_activated incoming) s =
    ground (arith, blank-handle_event due (skills_activated incoming) s)
kept_of-handle_event due (workflow_status stage content is_done) s =
    ground (arith, blank-handle_event due (workflow_status stage content is_done) s)
kept_of-handle_event due (error message) s =
    ground (arith, blank-handle_event due (error message) s)
kept_of-handle_event due (agent_interrupt v) s =
    ground (arith, blank-handle_event due (agent_interrupt v) s)
kept_of-handle_event due (agent_step_limit_reached v) s =
    ground (arith, blank-handle_event due (agent_step_limit_reached v) s)
kept_of-handle_event due (task_mode v) s = ground (arith, blank-handle_event due (task_mode v) s)
kept_of-handle_event due (usage_metrics v) s =
    ground (arith, blank-handle_event due (usage_metrics v) s)
kept_of-handle_event due (ui_action v) s = ground (arith, blank-handle_event due (ui_action v) s)
kept_of-handle_event due other s = ground (arith, blank-handle_event due other s)

-- The two flags of an interrupt are set together.
abbrev IsTwin : Stream → Type 0
IsTwin s = s.interrupted_without_assistant_content ≡ s.has_agent_interrupt

handle_event-IsTwin :
    (due : Bool) (e : Event) (s : Stream) → IsTwin s → IsTwin (handle_event due e s).0
unfolding handle_event schedule_stream_update
handle_event-IsTwin due (token content) s h = ground arith
handle_event-IsTwin due (tool_start name args) s h = ground arith
handle_event-IsTwin due (tool_end name args result) s h = ground arith
handle_event-IsTwin due (thinking_token content) s h = ground arith
handle_event-IsTwin due (skills_activated incoming) s h = ground arith
handle_event-IsTwin due (workflow_status stage content is_done) s h = ground arith
handle_event-IsTwin due (error message) s h = ground arith
handle_event-IsTwin due (agent_interrupt v) s h = ground arith
handle_event-IsTwin due (agent_step_limit_reached v) s h = ground arith
handle_event-IsTwin due (task_mode v) s h = ground arith
handle_event-IsTwin due (usage_metrics v) s h = ground arith
handle_event-IsTwin due (ui_action v) s h = ground arith
handle_event-IsTwin due other s h = ground arith

abbrev after_all : List (Bool × Event) → Flags → Flags
after_all es x = record {
  interrupted = x.interrupted || any_of is_interrupt es;
  limited = x.limited || any_of is_limit es;
  failed = x.failed || any_of is_error es;
  unseen = x.unseen && not (any_of shows es);
}

after-after_all :
    (due : Bool) (e : Event) (es : List (Bool × Event)) (x : Flags)
    → after_all es (after e x) ≡ after_all ((due, e) ∷ es) x
after-after_all due e es x = ground arith

handle_events-IsTwin :
    (es : List (Bool × Event)) (s : Stream) → IsTwin s → IsTwin (handle_events es s)
handle_events-IsTwin [] s h = h
handle_events-IsTwin ((due, e) ∷ es) s h =
    handle_events-IsTwin es (handle_event due e s).0 (handle_event-IsTwin due e s h)

kept_of-handle_events :
    (es : List (Bool × Event)) (s : Stream)
    → kept_of (handle_events es s) ≡ after_all es (kept_of s)
kept_of-handle_events [] s = ground arith
kept_of-handle_events ((due, e) ∷ es) s =
    let next = (handle_event due e s).0 in
    kept_of-handle_events es next
    ∙ ap (after_all es) (kept_of-handle_event due e s)
    ∙ after-after_all due e es (kept_of s)

-- The status of the session, of the events: an interrupt goes before the step limit, and that before
-- an error.
abbrev pub session_status : List (Bool × Event) → StreamStatus
session_status es =
    if any_of is_interrupt es
    then StreamStatus.waiting
    else if any_of is_limit es
    then StreamStatus.paused
    else if any_of is_error es
    then StreamStatus.error
    else StreamStatus.done

-- The status of the message, or none if it goes: here an error goes before the step limit.
abbrev pub message_status : List (Bool × Event) → Option MessageStatus
message_status es =
    if any_of is_interrupt es
    then if any_of shows es then some MessageStatus.waiting else none
    else if any_of is_error es
    then some MessageStatus.error
    else if any_of is_limit es
    then some MessageStatus.paused
    else some MessageStatus.done

written_status-final_write :
    (base : Option MessageData) (s : Stream)
    → IsTwin s
    → written_status (final_write base s) ≡ (
        if s.has_agent_interrupt
        then if not (blank s) then some MessageStatus.waiting else none
        else if s.has_stream_error
        then some MessageStatus.error
        else if s.has_step_limit_reached
        then some MessageStatus.paused
        else some MessageStatus.done)
unfolding final_write
written_status-final_write base s twin = ground (arith, twin)

-- However its events follow each other: a response with an interrupt leaves its session waiting,
-- and its message too if an event has left something to see, before the interrupt or behind it;
-- if none has, it removes the message. A response without one leaves the session paused if the
-- step limit was reached, else in error if an error was reported, else done; its message is in
-- error if an error was reported, else paused if the limit was reached, else done.
pub response_ending :
    (base : Option MessageData) (es : List (Bool × Event))
    → (stream_outcome (handle_events es new_stream) ≡ session_status es)
      × (written_status (final_write base (handle_events es new_stream)) ≡ message_status es)
unfolding final_write stream_outcome
response_ending base es =
    let s = handle_events es new_stream in
    let kept = kept_of-handle_events es new_stream in
    let interrupted : s.has_agent_interrupt ≡ any_of is_interrupt es =
      ap (λ (x : Flags). x.interrupted) kept in
    let limited : s.has_step_limit_reached ≡ any_of is_limit es =
      ap (λ (x : Flags). x.limited) kept in
    let failed : s.has_stream_error ≡ any_of is_error es = ap (λ (x : Flags). x.failed) kept in
    let unseen : blank s ≡ not (any_of shows es) = ap (λ (x : Flags). x.unseen) kept in
    let twin = handle_events-IsTwin es new_stream refl in
    (
      rw (interrupted, limited, failed) refl,
      written_status-final_write base s twin
          ∙ rw (interrupted, limited, failed, unseen) (ground arith),
    )
