-- ===== src/Chat.antt =====
-- front-end/src/hooks/chat-page/useMessageStreaming.js: the requests of the page's sessions and the
-- life of their streams, as operations on the store. What the code does between two `await`s is one
-- operation, so any other may come between two of them. The request itself, its abortion and the
-- refresh of the conversation list are the browser's and the server's.
pub mod Failures
pub mod Actions
pub mod Quiet
pub mod Calls
pub mod Late
pub mod Sent
mod Examples
use moonlit_ai_agent.Prelude.{
  ℕ, Bool, true, false, Option, none, some, List, [], ◌∷◌, ◌++◌, Text, Dict, text_eq, codes, trim,
  is_empty, filter, find, map, not, leb, ltb, includes, ◌==◌, ◌&&◌, ◌||◌, if◌then◌else◌,
}
use moonlit_ai_agent.Message.{Message, MessageStatus, create_user_message, text}
use moonlit_ai_agent.Message.Upsert.{
  MessageData, find_message, next_assistant, upsert_assistant_message,
}
use moonlit_ai_agent.Session.{
  ChatSession, LoadStatus, StreamStatus, complete_chat_session_stream, truthy,
}
use moonlit_ai_agent.Registry.{Entry, get, start, finish, stop, stop_all, annotate}
use moonlit_ai_agent.Timeline.{Stream}
use moonlit_ai_agent.Response.{Write, upsert, remove, last_flush, final_write, stream_outcome}
use moonlit_ai_agent.Store.{
  World, get_session, update_session, update_session_messages, is_session_active, owns_stream,
  set_owner_messages,
}

abbrev pub write_messages : Text → Write → List Message → List Message
write_messages id (upsert given status) ms = upsert_assistant_message ms id given status
write_messages id remove ms = filter (λ m. not (text_eq m.id id)) ms

-- A flush of the stream.
unfoldable pub apply_write : Text → ℕ → Text → Write → World → World
apply_write k n id write w = set_owner_messages k n (write_messages id write) w

abbrev apply_last : Text → ℕ → Text → Option Write → World → World
apply_last k n id none w = w
apply_last k n id (some write) w = apply_write k n id write w

abbrev pub complete : Text → ℕ → StreamStatus → World → World
complete k n outcome w =
    if owns_stream k n w
    then update_session k
        (λ s. complete_chat_session_stream s (some outcome) (is_session_active k w)) w
    else w

-- The end of `streamAssistantResponse`, when the stream is read.
unfoldable pub close_response : Text → ℕ → Text → Option MessageData → Stream → World → World
close_response k n id base s w =
    let flushed = apply_last k n id (last_flush base s).1 w in
    let written = apply_write k n id (final_write base (last_flush base s).0) flushed in
    complete k n (stream_outcome s) written

abbrev pub empty_data : MessageData
empty_data = record { text = []; steps = []; timeline = []; usage = none }

-- The session's own state when a request begins.
abbrev starting : ChatSession → ChatSession
starting s = record s {
  stream_status = StreamStatus.starting;
  unread_activity = none;
  pending_interaction = none;
}

abbrev is_ready : LoadStatus → Bool
is_ready LoadStatus.ready = true
is_ready _ = false

-- A conversation that is not loaded yet takes no prompt.
abbrev can_send : Text → Option ChatSession → Bool
can_send prompt none = false
can_send prompt (some s) =
    not (is_empty prompt)
    && elim (truthy s.conversation_id) [ none ↦ true | some id ↦ is_ready s.load_status ]

-- The stream that starts is the request's: its entry gets the id of the message.
abbrev start_stream : Text → Text → (World → World) → World → World × Option ℕ
start_stream k id change w = elim (start k w.registry).1 [
  | none ↦ (w, none)
  | some e ↦ (
    change (record w { registry = annotate k e.generation (some id) false (start k w.registry).0 }),
    some e.generation,
  )
]

-- The prompt and the message that waits for its answer.
begin_send : Text → Text → Text → Text → World → World
begin_send k prompt user_id id w = update_session k starting (
    update_session_messages k
      (λ ms.
        ms
        ++ create_user_message user_id prompt
          ∷ next_assistant id empty_data MessageStatus.waiting
          ∷ [])
      w)

-- `handleSendMessage` up to the request; the result is the generation of its stream, if it is sent.
unfoldable pub send_message : Text → Text → Text → Text → World → World × Option ℕ
unfolding begin_send
send_message k message user_id id w =
    let prompt = trim message in
    if can_send prompt (get_session k w)
    then start_stream k id (begin_send k prompt user_id id) w
    else (w, none)

-- `resumePayload` is given. A stream that still runs is awaited, by one request at a time.
pub data ResumeStep : Type 0 where
  refused proceeds : ResumeStep
  awaits : ℕ → ResumeStep

unfoldable pub request_resume : Text → World → World × ResumeStep
request_resume k w = elim (get k w.registry) [
  | none ↦ (w, proceeds)
  | some e ↦ if e.resume_queued then (w, refused) else (
    record w { registry = annotate k e.generation e.assistant_message_id true w.registry },
    awaits e.generation,
  )
]

-- When the awaited stream has settled: a stopped one, or a page that is gone, ends the request.
unfoldable pub may_go_on : Bool → World → Bool
may_go_on settled w = settled && w.mounted

abbrev with_waiting : Text → Message → Message
with_waiting id m = if text_eq m.id id then record m { status = MessageStatus.waiting } else m

abbrev existing_message : Option Text → ChatSession → Option Message
existing_message none s = none
existing_message (some id) s = find_message id s.messages

abbrev resumed_messages : Text → Option Message → List Message → List Message
resumed_messages id none ms = ms ++ next_assistant id empty_data MessageStatus.waiting ∷ []
resumed_messages id (some m) ms = map (with_waiting id) ms

abbrev id_or : Option Text → Text → Text
id_or none fallback = fallback
id_or (some id) fallback = id

abbrev has_conversation : ChatSession → Bool
has_conversation s = elim (truthy s.conversation_id) [ none ↦ false | some id ↦ true ]

begin_resume : Text → Text → Option Message → World → World
begin_resume k id existing w =
    update_session k starting (update_session_messages k (resumed_messages id existing) w)

-- `handleResumeAgent` from there to its request, with the id of the message it goes on with, if one
-- is given, and a new id.
unfoldable pub resume_agent : Text → Option Text → Text → World → World × Option ℕ
unfolding begin_resume
resume_agent k given fresh w = elim (get_session k w) [
  | none ↦ (w, none)
  | some s ↦
      let id = id_or (truthy given) fresh in
      if has_conversation s
      then start_stream k id (begin_resume k id (existing_message (truthy given) s)) w
      else (w, none)
]

abbrev pub data_of : Option Message → MessageData
data_of none = empty_data
data_of (some m) = record { text = m.text; steps = m.steps; timeline = m.timeline; usage = none }

-- The `finally` of both kinds of requests.
unfoldable pub settle_request : Text → ℕ → World → World
settle_request k n w = record w { registry = (finish k n w.registry).0 }

abbrev stop_message : Option Text → List Message → List Message
stop_message none ms = ms
stop_message (some id) ms = elim (find_message id ms) [
  | none ↦ ms
  | some m ↦ upsert_assistant_message ms id (data_of (some m)) MessageStatus.stopped
]

unfoldable pub mark_session_stopped : Text → Entry → World → World
mark_session_stopped k e w =
    update_session k (λ s. record s { stream_status = StreamStatus.stopped })
      (update_session_messages k (stop_message e.assistant_message_id) w)

unfoldable pub stop_session : Text → World → World × Bool
stop_session k w = elim (get k w.registry) [
  | none ↦ (w, false)
  | some e ↦
      let marked = mark_session_stopped k e w in
      (record marked { registry = (stop k marked.registry).0 }, true)
]

pub mark_each : Dict Entry → World → World
mark_each [] w = w
mark_each ((k, e) ∷ m) w = mark_each m (mark_session_stopped k e w)

unfoldable pub stop_all_streams : World → World
unfolding mark_each
stop_all_streams w =
    let marked = mark_each w.registry.streams w in
    record marked { registry = stop_all marked.registry }

-- The effect's cleanup, when the page goes away.
unfoldable pub unmount : World → World
unmount w = stop_all_streams (record w { mounted = false })
