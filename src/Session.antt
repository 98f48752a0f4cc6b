-- ===== src/Session.antt =====
-- front-end/src/hooks/chat-page/chatSessionModel.js: the state of one chat session.
-- The effective task mode and usage figures are JSON values here.
use moonlit_ai_agent.Prelude.{
  ℕ, Bool, true, false, Option, none, some, List, [], ◌∷◌, ◌++◌, Text, text_eq, codes,
  if◌then◌else◌,
}
use moonlit_ai_agent.Prelude.Json.{Value}
use moonlit_ai_agent.Message.{Message}

pub data LoadStatus : Type 0 where
  idle loading ready error : LoadStatus

pub data StreamStatus : Type 0 where
  idle starting streaming waiting paused done stopped error : StreamStatus

pub data UnreadActivity : Type 0 where
  error done attention : UnreadActivity

pub data InteractionType : Type 0 where
  agent_interrupt step_limit ui_action : InteractionType

-- What a session waits to show: `ref` is the identity of the object, which `===` compares.
pub record Interaction : Type 0 where
  pub ref : ℕ
  pub type : InteractionType
  pub event : Value
  pub assistant_message_id : Option Text
  pub session_key : Text

pub record ChatSession : Type 0 where
  pub session_key : Text
  pub conversation_id : Option Text
  pub optimistic_title : Option Text
  pub messages : List Message
  pub load_status : LoadStatus
  pub stream_status : StreamStatus
  pub unread_activity : Option UnreadActivity
  pub pending_interaction : Option Interaction
  pub usage_metrics : Option Value
  pub effective_task_mode : Option Value

abbrev default_load_status : Option Text → LoadStatus
default_load_status none = LoadStatus.idle
default_load_status (some []) = LoadStatus.idle
default_load_status (some _) = LoadStatus.loading

abbrev load_status_or : Option LoadStatus → LoadStatus → LoadStatus
load_status_or none d = d
load_status_or (some s) d = s

abbrev pub new_session : Text → Option Text → Option LoadStatus → ChatSession
new_session key conversation load = record {
  session_key = key;
  conversation_id = conversation;
  optimistic_title = none;
  messages = [];
  load_status = load_status_or load (default_load_status conversation);
  stream_status = StreamStatus.idle;
  unread_activity = none;
  pending_interaction = none;
  usage_metrics = none;
  effective_task_mode = none;
}

-- `none` is the exception for a session without a key. The callers give no other members.
unfoldable pub create_chat_session : Text → Option Text → Option LoadStatus → Option ChatSession
create_chat_session [] conversation load = none
create_chat_session key conversation load = some (new_session key conversation load)

-- `a || b` for texts: the empty text and none are passed over.
unfoldable pub or_else : Option Text → Option Text → Option Text
or_else none b = b
or_else (some []) b = b
or_else a b = a

unfoldable pub bind_chat_session_conversation : ChatSession → Text → Option Text → ChatSession
bind_chat_session_conversation s conversation title = record s {
  conversation_id = some conversation;
  optimistic_title = or_else title s.optimistic_title;
  load_status = LoadStatus.ready;
}

abbrev unread_after : StreamStatus → Option UnreadActivity → Option UnreadActivity
unread_after StreamStatus.error old = some UnreadActivity.error
unread_after StreamStatus.done old = some UnreadActivity.done
unread_after _ old = old

abbrev status_or_done : Option StreamStatus → StreamStatus
status_or_done none = StreamStatus.done
status_or_done (some s) = s

unfoldable pub complete_chat_session_stream : ChatSession → Option StreamStatus → Bool → ChatSession
complete_chat_session_stream s outcome is_active =
    let status = status_or_done outcome in
    record s {
      stream_status = status;
      unread_activity = if is_active then none else unread_after status s.unread_activity;
    }

unfoldable pub queue_chat_session_interaction : ChatSession → Interaction → Bool → ChatSession
queue_chat_session_interaction s interaction is_active = record s {
  pending_interaction = some interaction;
  unread_activity = if is_active then none else some attention;
}

unfoldable pub activate_chat_session : ChatSession → ChatSession
activate_chat_session s = record s { unread_activity = none }

abbrev is_streaming_status : StreamStatus → Bool
is_streaming_status starting = true
is_streaming_status streaming = true
is_streaming_status _ = false

unfoldable pub is_chat_session_streaming : Option ChatSession → Bool
is_chat_session_streaming none = false
is_chat_session_streaming (some s) = is_streaming_status s.stream_status

-- What the router knows; `none` and the empty text are both falsy.
pub record RouteState : Type 0 where
  pub route_conversation_id : Option Text
  pub location_session_key : Option Text
  -- The conversation of the session that the location names, if there is such a session.
  pub location_conversation_id : Option Text
  pub known_conversation_session_key : Option Text
  pub initial_draft_session_key : Text

abbrev pub truthy : Option Text → Option Text
truthy none = none
truthy (some []) = none
truthy (some (c ∷ s)) = some (c ∷ s)

unfoldable pub persisted_session_key : Text → Text
persisted_session_key conversation = codes "conversation:" ++ conversation

abbrev pub location_matches : Option Text → Option Text → Bool
location_matches none location = true
location_matches (some route) none = true
location_matches (some route) (some location) = text_eq location route

abbrev pub known_or : Option Text → Text → Text
known_or none fallback = fallback
known_or (some k) fallback = k

abbrev route_key : Option Text → Option Text → Text → Text
route_key none known draft = draft
route_key (some route) known draft = known_or known (persisted_session_key route)

abbrev pub location_or : Option Text → Bool → Text → Text
location_or none matched rest = rest
location_or (some key) matched rest = if matched then key else rest

unfoldable pub resolve_route_chat_session_key : RouteState → Text
unfolding persisted_session_key
resolve_route_chat_session_key r =
    location_or (truthy r.location_session_key)
      (location_matches (truthy r.route_conversation_id) (truthy r.location_conversation_id))
      (route_key (truthy r.route_conversation_id) (truthy r.known_conversation_session_key)
        r.initial_draft_session_key)
