-- ===== src/Conversations/Selection.antt =====
-- front-end/src/hooks/chat-page/useConversations.js: new chats, and selecting, renaming and deleting
-- of conversations.
use moonlit_ai_agent.Prelude.{
  Option, none, some, List, [], ◌∷◌, Text, lookup, insert, delete, text_eq, trim, filter, map, not,
  if◌then◌else◌,
}
use moonlit_ai_agent.Session.{
  ChatSession, LoadStatus, StreamStatus, UnreadActivity, new_session, activate_chat_session,
  persisted_session_key, truthy,
}
use moonlit_ai_agent.Store.{World, Conversation, get_session, is_session_active}
use moonlit_ai_agent.Conversations.{Page, set_conversations}

unfoldable pub start_new_chat : Text → Page → Page
start_new_chat key p = record p {
  world = record p.world {
    sessions = insert key (new_session key none (some LoadStatus.idle)) p.world.sessions;
  };
}

abbrev pub key_or : Option Text → Text → Text
key_or none fallback = fallback
key_or (some k) fallback = k

unfoldable pub get_session_key_for_conversation : Text → Page → Text
get_session_key_for_conversation id p =
    key_or (truthy (lookup id p.world.session_keys)) (persisted_session_key id)

abbrev existing_or : Option ChatSession → ChatSession → ChatSession
existing_or none s = s
existing_or (some old) s = old

abbrev pub opened_session : Text → Page → ChatSession
opened_session id p =
    let key = get_session_key_for_conversation id p in
    activate_chat_session
      (existing_or (get_session key p.world) (new_session key (some id) (some LoadStatus.loading)))

unfoldable pub select_conversation : Text → Page → Page × Text
select_conversation id p =
    let key = get_session_key_for_conversation id p in
    (
      record p {
        world = record p.world {
          session_keys = insert id key p.world.session_keys;
          sessions = insert key (opened_session id p) p.world.sessions;
        };
      },
      key,
    )

forget_conversation : Text → Text → World → World
forget_conversation id key w = record w {
  cached_messages = delete id w.cached_messages;
  sessions = delete key w.sessions;
  session_keys = delete id w.session_keys;
  conversations = filter (λ c. not (text_eq c.id id)) w.conversations;
}

-- `handleDeleteConversation` when the server has deleted it; `fresh` is the key of the new chat.
unfoldable pub delete_conversation : Text → Text → Page → Page
unfolding forget_conversation
delete_conversation id fresh p =
    let key = get_session_key_for_conversation id p in
    let gone = record p { world = forget_conversation id key p.world } in
    if is_session_active key p.world then start_new_chat fresh gone else gone

abbrev rename_one : Text → Text → Conversation → Conversation
rename_one id title c = if text_eq c.id id then record c { title = some title } else c

-- `handleRenameConversation`: the title that the server is asked for, if any.
unfoldable pub rename_request : Text → Option Text
rename_request title = truthy (some (trim title))

-- When the server has saved it, under the title that it answers with, if it does.
unfoldable pub finish_rename : Text → Text → Option Text → Page → Page
finish_rename id trimmed answered p =
    set_conversations (map (rename_one id (key_or (truthy answered) trimmed))) p

-- What the list shows of the sessions of its conversations.
unfoldable pub conversation_activity :
    List Conversation → World → List (Text × (StreamStatus × Option UnreadActivity))
conversation_activity [] w = []
conversation_activity (c ∷ cs) w =
    let rest = conversation_activity cs w in
    elim (truthy (lookup c.id w.session_keys)) [
      | none ↦ rest
      | some k ↦ elim (get_session k w) [
        | none ↦ rest
        | some s ↦ (c.id, (s.stream_status, s.unread_activity)) ∷ rest
      ]
    ]
