-- ===== src/Conversations.antt =====
-- front-end/src/hooks/chat-page/useConversations.js: loading of conversations and of their list. What the code does between two `await`s is one operation. The server's answers, the
-- query cache's own writes and the browser's navigation are not part of it: an answer is an argument,
-- and new session keys are too.
pub mod Selection
pub mod Acts
pub mod Latest
pub mod Deleted
pub mod Routing
mod Examples
use moonlit_ai_agent.Prelude.{
  ℕ, ◌+◌, Bool, true, false, Option, none, some, List, [], ◌∷◌, ◌++◌, Text, Dict, lookup, insert,
  delete, text_eq, trim, is_empty, filter, find, map, length, not, ◌==◌, ◌&&◌, ◌||◌, if◌then◌else◌,
}
use moonlit_ai_agent.Prelude.Json.{Value}
use moonlit_ai_agent.Message.{Message, Role}
use moonlit_ai_agent.Message.Stored.{StoredMessage, normalize_conversation_message}
use moonlit_ai_agent.Session.{
  ChatSession, LoadStatus, StreamStatus, UnreadActivity, new_session, activate_chat_session,
  persisted_session_key, truthy,
}
use moonlit_ai_agent.Titles.{recover_legacy_conversation_title}
use moonlit_ai_agent.ConversationList.{
  ListLoad, ListEvent, started, succeeded, failed, conversation_list_load_reducer,
}
use moonlit_ai_agent.Store.{World, Conversation, get_session, update_session, is_session_active}

pub record Page : Type 0 where
  pub world : World
  pub load_generations : Dict ℕ
  pub list_load_seq : ℕ
  pub title_sources : Dict Text
  pub list_load : ListLoad
  pub is_list_loading : Bool

abbrev is_user : Role → Bool
is_user Role.user = true
is_user Role.assistant = false

-- The usage of the last answer that has one.
unfoldable pub find_latest_usage : List Message → Option Value
find_latest_usage [] = none
find_latest_usage (m ∷ ms) = elim (find_latest_usage ms) [
  | some u ↦ some u
  | none ↦ if is_user m.role then none else m.usage
]

unfoldable pub first_user_text : List Message → Option Text
first_user_text [] = none
first_user_text (m ∷ ms) = if is_user m.role then truthy (some m.text) else first_user_text ms

abbrev title_text : Option Text → Text
title_text none = []
title_text (some t) = t

abbrev replaced_title : Text → Option Text → Option Text
replaced_title [] old = old
replaced_title (c ∷ s) old = some (c ∷ s)

-- The recovered title, where it is not empty; a title that is the same is written again.
abbrev pub with_recovered : Text → Conversation → Conversation
with_recovered message c = record c {
  title = replaced_title (recover_legacy_conversation_title (title_text c.title) message) c.title;
}

abbrev pub set_conversations : (List Conversation → List Conversation) → Page → Page
set_conversations change p = record p {
  world = record p.world { conversations = change p.world.conversations };
}

abbrev pub recover_one : Text → Text → Conversation → Conversation
recover_one id message c = if text_eq c.id id then with_recovered message c else c

recover_from : Text → Option Text → Page → Page
recover_from id none p = p
recover_from id (some message) p =
    set_conversations (map (recover_one id message))
      (record p { title_sources = insert id message p.title_sources })

unfoldable pub recover_generated_title : Text → List Message → Page → Page
unfolding recover_from
recover_generated_title id ms p = recover_from id (first_user_text ms) p

abbrev pub change_session : Text → (ChatSession → ChatSession) → Page → Page
change_session k change p = record p { world = update_session k change p.world }

-- `loadConversation` up to its request.
pub data LoadStep : Type 0 where
  loaded : LoadStep
  requests : ℕ → LoadStep

abbrev shows_conversation : Text → Option ChatSession → Bool
shows_conversation id none = false
shows_conversation id (some s) =
    elim s.conversation_id [ none ↦ false | some c ↦ text_eq c id ] && not (is_empty s.messages)

abbrev pub ready : Text → List Message → ChatSession → ChatSession
ready id ms s = record s {
  conversation_id = some id;
  messages = ms;
  load_status = LoadStatus.ready;
  usage_metrics = find_latest_usage ms;
  unread_activity = none;
}

abbrev show_messages : Text → Text → List Message → Page → Page
show_messages k id ms p = recover_generated_title id ms (change_session k (ready id ms) p)

abbrev pub or_zero : Option ℕ → ℕ
or_zero none = 0
or_zero (some n) = n

unfoldable pub load_generation : Text → Page → ℕ
load_generation k p = or_zero (lookup k p.load_generations)

request_conversation : Text → Text → Page → Page
request_conversation k id p =
    change_session k (λ s. record s { conversation_id = some id; load_status = LoadStatus.loading })
      (record p { load_generations = insert k (load_generation k p + 1) p.load_generations })

unfoldable pub load_conversation : Text → Text → Page → Page × LoadStep
unfolding request_conversation load_generation
load_conversation k id p =
    if shows_conversation id (get_session k p.world)
    then (change_session k activate_chat_session p, loaded)
    else elim (lookup id p.world.cached_messages) [
      | some ms ↦ (show_messages k id ms p, loaded)
      | none ↦ (request_conversation k id p, requests (load_generation k p + 1))
    ]

-- What becomes of the request: the conversation's messages, an answer without a conversation, an
-- abort, another error.
pub data LoadResult : Type 0 where
  arrived : List StoredMessage → LoadResult
  rejected aborted broken : LoadResult

unfoldable pub normalize_from : ℕ → List StoredMessage → List Message
normalize_from index [] = []
normalize_from index (m ∷ ms) =
    normalize_conversation_message m index ∷ normalize_from (index + 1) ms

abbrev pub load_failed : ChatSession → ChatSession
load_failed s = record s { load_status = LoadStatus.error }

abbrev cache : Text → List Message → Page → Page
cache id ms p = record p {
  world = record p.world { cached_messages = insert id ms p.world.cached_messages };
}

abbrev pub is_current : Text → ℕ → Page → Bool
is_current k n p = elim (lookup k p.load_generations) [ none ↦ false | some g ↦ g == n ]

-- `loadConversation` from there on.
unfoldable pub finish_load : Text → Text → ℕ → LoadResult → Page → Page × Bool
unfolding normalize_from
finish_load k id n (arrived stored) p =
    let ms = normalize_from 0 stored in
    if is_current k n p then (show_messages k id ms (cache id ms p), true) else (p, false)
finish_load k id n rejected p =
    if is_current k n p then (change_session k load_failed p, false) else (p, false)
finish_load k id n aborted p = (p, false)
finish_load k id n broken p = (change_session k load_failed p, false)

-- `fetchConversations` up to its request, with the number that it compares later.
unfoldable pub fetch_conversations : Bool → Page → Page × ℕ
fetch_conversations show_loading p = (
  record p {
    list_load_seq = p.list_load_seq + 1;
    list_load = conversation_list_load_reducer p.list_load (started show_loading);
    is_list_loading = if show_loading then true else p.is_list_loading;
  },
  p.list_load_seq + 1,
)

pub data FetchResult : Type 0 where
  listed : List Conversation → FetchResult
  unsuccessful aborted broken : FetchResult

recover_known : Dict Text → Conversation → Conversation
recover_known sources c = elim (truthy (lookup c.id sources)) [
  | none ↦ c
  | some message ↦ with_recovered message c
]

abbrev same_text : Option Text → Option Text → Bool
same_text none none = true
same_text (some t) (some u) = text_eq t u
same_text _ _ = false

-- The old list is kept if it has the ids, titles and timestamps of the new one.
unfoldable pub same_conversations : List Conversation → List Conversation → Bool
same_conversations [] [] = true
same_conversations (c ∷ cs) (d ∷ ds) =
    text_eq c.id d.id
    && same_text c.title d.title
    && same_text c.timestamp d.timestamp
    && same_conversations cs ds
same_conversations _ _ = false

unfoldable pub keep_or_replace : List Conversation → List Conversation → List Conversation
unfolding same_conversations
keep_or_replace next previous = if same_conversations previous next then previous else next

abbrev load_event : ListEvent → Page → Page
load_event e p = record p { list_load = conversation_list_load_reducer p.list_load e }

receive_list : FetchResult → Page → Page
receive_list (listed cs) p =
    load_event succeeded
      (set_conversations (keep_or_replace (map (recover_known p.title_sources) cs)) p)
receive_list unsuccessful p = load_event succeeded p
receive_list aborted p = p
receive_list broken p = load_event failed p

-- `fetchConversations` from there on: an older answer is dropped, and `finally` leaves the loading
-- flag to the newest.
unfoldable pub finish_fetch : ℕ → FetchResult → Page → Page
unfolding receive_list keep_or_replace recover_known
finish_fetch n result p =
    if p.list_load_seq == n then record (receive_list result p) { is_list_loading = false } else p
