-- ===== src/Store.antt =====
-- front-end/src/hooks/chat-page/useConversations.js, the store of sessions, and
-- front-end/src/hooks/chat-page/useMessageStreaming.js, the guard of a stream's owner. Session keys
-- are not empty, as the store makes them. Navigation is the browser's.
use moonlit_ai_agent.Prelude.{
  ℕ, Bool, false, Option, none, some, List, ◌∷◌, Text, Dict, lookup, insert, text_eq, any, map,
  ◌==◌, if◌then◌else◌,
}
use moonlit_ai_agent.Message.{Message}
use moonlit_ai_agent.Session.{
  ChatSession, LoadStatus, StreamStatus, new_session, bind_chat_session_conversation, truthy,
  or_else,
}
use moonlit_ai_agent.Registry.{Registry, get}
use moonlit_ai_agent.Titles.{build_conversation_title}

pub record Conversation : Type 0 where
  pub id : Text
  pub title : Option Text
  pub timestamp : Option Text

pub record World : Type 0 where
  pub sessions : Dict ChatSession
  pub cached_messages : Dict (List Message)
  pub session_keys : Dict Text
  pub conversations : List Conversation
  pub registry : Registry
  pub active_key : Text
  pub mounted : Bool

unfoldable pub get_session : Text → World → Option ChatSession
get_session k w = lookup k w.sessions

abbrev pub session_or_new : Text → Option ChatSession → ChatSession
session_or_new k none = new_session k none (some LoadStatus.idle)
session_or_new k (some s) = s

unfoldable pub update_session : Text → (ChatSession → ChatSession) → World → World
update_session k change w = record w {
  sessions = insert k (change (session_or_new k (lookup k w.sessions))) w.sessions;
}

abbrev pub cache_messages : Option Text → List Message → World → World
cache_messages none ms w = w
cache_messages (some id) ms w = record w { cached_messages = insert id ms w.cached_messages }

-- The new messages go to the session and, if it has a conversation, to that one's cache.
unfoldable pub update_session_messages : Text → (List Message → List Message) → World → World
unfolding update_session
update_session_messages k change w =
    let session = session_or_new k (lookup k w.sessions) in
    let next = change session.messages in
    cache_messages (truthy session.conversation_id) next
      (update_session k (λ s. record s { messages = next }) w)

unfoldable pub is_session_active : Text → World → Bool
is_session_active k w = text_eq w.active_key k

-- `ownsStream()`: the session still runs the stream of this generation.
unfoldable pub owns_stream : Text → ℕ → World → Bool
owns_stream k n w = elim (get k w.registry) [ none ↦ false | some e ↦ e.generation == n ]

unfoldable pub set_owner_messages : Text → ℕ → (List Message → List Message) → World → World
set_owner_messages k n change w =
    if owns_stream k n w then update_session_messages k change w else w

abbrev retitle : Text → Text → Conversation → Conversation
retitle id title c =
    if text_eq c.id id then record c { title = or_else c.title (some title) } else c

add_conversation : Text → Text → List Conversation → List Conversation
add_conversation id title cs =
    if any (λ c. text_eq c.id id) cs
    then map (retitle id title) cs
    else record { id = id; title = some title; timestamp = none } ∷ cs

unfoldable pub bind_streaming_conversation : Text → Text → Text → World → World
unfolding add_conversation
bind_streaming_conversation k id title w =
    let bound =
      update_session k (λ s. bind_chat_session_conversation s id (some title))
        (record w { session_keys = insert id k w.session_keys }) in
    record bound { conversations = add_conversation id title bound.conversations }

abbrev bind_if_new : Option Text → Option Text → Text → Text → World → World
bind_if_new (some id) none k prompt w =
    bind_streaming_conversation k id (build_conversation_title prompt) w
bind_if_new _ _ k prompt w = w

-- The beginning of `streamAssistantResponse`, when the headers are there: a new conversation is
-- bound to its session, and the session streams.
unfoldable pub open_response : Text → ℕ → Option Text → Option Text → Text → World → World
open_response k n conversation header prompt w =
    if owns_stream k n w
    then update_session k (λ s. record s { stream_status = StreamStatus.streaming })
        (bind_if_new (truthy header) (truthy conversation) k prompt w)
    else w
