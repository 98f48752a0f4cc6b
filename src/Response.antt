-- ===== src/Response.antt =====
-- front-end/src/hooks/chat-page/useMessageStreaming.js, `streamAssistantResponse`: the message that
-- is built from a stream, when it is written, and how the response ends.
pub mod Batching
pub mod Seen
pub mod Ending
mod Examples
use moonlit_ai_agent.Prelude.{
  Bool, true, false, Option, none, some, List, [], ◌∷◌, ◌++◌, Text, codes, map, filter, any,
  is_empty, concat, trim, not, ◌||◌, ◌&&◌, if◌then◌else◌,
}
use moonlit_ai_agent.Prelude.Json.{Value}
use moonlit_ai_agent.Message.{Item, text, thinking, MessageStatus}
use moonlit_ai_agent.Message.Upsert.{MessageData}
use moonlit_ai_agent.Session.{StreamStatus}
use moonlit_ai_agent.Timeline.{Stream, Flush, frame, timer}

abbrev pub is_text_item : Item → Bool
is_text_item (text id content) = true
is_text_item _ = false

abbrev is_filled_text : Item → Bool
is_filled_text (text id content) = not (is_empty (trim content))
is_filled_text _ = false

unfoldable pub merge_base_timeline_with_text : Text → List Item → List Item
merge_base_timeline_with_text base_text base_timeline =
    if is_empty (trim base_text) || any is_filled_text base_timeline
    then base_timeline
    else text (some (codes "base-text")) base_text ∷ base_timeline

abbrev pub no_base : MessageData
no_base = record { text = []; steps = []; timeline = []; usage = none }

abbrev pub base_or_none : Option MessageData → MessageData
base_or_none none = no_base
base_or_none (some b) = b

abbrev pub settle_thinking : Bool → Item → Item
settle_thinking is_done (thinking id content complete) = thinking id content (is_done || complete)
settle_thinking is_done i = i

abbrev usage_or : Option Value → Option Value → Option Value
usage_or none old = old
usage_or (some u) old = some u

unfoldable pub build_message_data : Option MessageData → Bool → Stream → MessageData
unfolding merge_base_timeline_with_text
build_message_data given is_done s =
    let base = base_or_none given in
    let normalized = map (settle_thinking is_done) s.event_timeline in
    record {
      text = base.text ++ concat s.content_parts;
      steps = base.steps ++ filter (λ i. not (is_text_item i)) normalized;
      timeline = merge_base_timeline_with_text base.text base.timeline ++ normalized;
      usage = usage_or s.last_usage_metrics base.usage;
    }

-- What is done to the messages of the session that owns the stream.
pub data Write : Type 0 where
  upsert : MessageData → MessageStatus → Write
  remove : Write

-- `flushStreamUpdate`.
unfoldable pub flush_stream_update : Option MessageData → Stream → Stream × Option Write
unfolding build_message_data
flush_stream_update base s = elim s.pending_status [
  | none ↦ (record s { flush = Flush.idle }, none)
  | some status ↦ (
    record s { flush = Flush.idle; pending_status = none },
    some (upsert (build_message_data base false s) status),
  )
]

-- The timer asks for a frame, and the frame flushes.
unfoldable pub fire : Option MessageData → Stream → Stream × Option Write
unfolding flush_stream_update
fire base s = elim s.flush [
  | Flush.idle ↦ (s, none)
  | timer ↦ (record s { flush = frame }, none)
  | frame ↦ flush_stream_update base s
]

-- After the stream: what is scheduled is cancelled, and what is pending is flushed at once.
unfoldable pub last_flush : Option MessageData → Stream → Stream × Option Write
unfolding flush_stream_update
last_flush base s = elim s.pending_status [
  | none ↦ (record s { flush = Flush.idle }, none)
  | some status ↦ flush_stream_update base (record s { flush = Flush.idle })
]

abbrev final_status : Stream → MessageStatus
final_status s =
    if s.has_stream_error
    then MessageStatus.error
    else if s.has_step_limit_reached
    then MessageStatus.paused
    else MessageStatus.done

-- The last write of the response.
unfoldable pub final_write : Option MessageData → Stream → Write
unfolding build_message_data
final_write base s =
    if s.interrupted_without_assistant_content
      && is_empty s.content_parts
      && is_empty s.event_timeline
    then remove
    else if s.has_agent_interrupt
    then upsert (build_message_data base true s) MessageStatus.waiting
    else upsert (build_message_data base true s) (final_status s)

-- How the session's stream ended.
unfoldable pub stream_outcome : Stream → StreamStatus
stream_outcome s =
    if s.has_agent_interrupt
    then StreamStatus.waiting
    else if s.has_step_limit_reached
    then StreamStatus.paused
    else if s.has_stream_error
    then StreamStatus.error
    else StreamStatus.done
