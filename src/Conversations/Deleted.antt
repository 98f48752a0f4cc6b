-- ===== src/Conversations/Deleted.antt =====
-- What is left of a conversation that is deleted, and what selecting one does to the page.
use moonlit_ai_agent.Prelude.{
  ◌≡◌, refl, ap, ◌∙◌, ◌≢◌, not, Option, none, some, List, [], ◌∷◌, Text, Dict, lookup, insert,
  lookup-insert, lookup-delete, delete, text_eq, text_eq_iff, text_eq_refl, filter, find,
  if◌then◌else◌, arith,
}
use moonlit_ai_agent.Session.{
  LoadStatus, new_session, activate_chat_session, persisted_session_key, truthy,
}
use moonlit_ai_agent.Store.{Conversation, get_session}
use moonlit_ai_agent.Conversations.{Page}
use moonlit_ai_agent.Conversations.Selection.{
  get_session_key_for_conversation, select_conversation, delete_conversation, start_new_chat,
  key_or, opened_session,
}

abbrev pub find_conversation : Text → List Conversation → Option Conversation
find_conversation id = find (λ c. text_eq c.id id)

find-filter-not :
    (id j : Text) (cs : List Conversation)
    → find_conversation j (filter (λ c. not (text_eq c.id id)) cs)
      ≡ (if text_eq id j then none else find_conversation j cs)
find-filter-not id j [] = ground arith
find-filter-not id j (c ∷ cs) =
    ground
      (arith, find-filter-not id j cs, text_eq_iff c.id id, text_eq_iff c.id j, text_eq_iff id j)

-- A deletion takes the conversation from the list, its messages from the cache and its session from
-- the store, and every other conversation, every other one's messages and every other session but
-- that of the new chat stay as they are.
pub delete_conversation-rest :
    (id fresh j k : Text) (p : Page)
    → k ≢ fresh
    → let q = delete_conversation id fresh p in
      (find_conversation j q.world.conversations
        ≡ (if text_eq id j then none else find_conversation j p.world.conversations))
      × (lookup j q.world.cached_messages
          ≡ (if text_eq id j then none else lookup j p.world.cached_messages))
      × (get_session k q.world ≡ (
          if text_eq (get_session_key_for_conversation id p) k
          then none
          else get_session k p.world))
unfolding delete_conversation start_new_chat get_session
delete_conversation-rest id fresh j k p h = (
  ground (arith, find-filter-not id j p.world.conversations),
  ground (arith, lookup-delete id j p.world.cached_messages),
  ground (
    arith,
    lookup-delete (get_session_key_for_conversation id p) k p.world.sessions,
    text_eq_iff fresh k,
    lookup-insert fresh k (new_session fresh none (some LoadStatus.idle))
        (delete (get_session_key_for_conversation id p) p.world.sessions),
  ),
)

insert-insert :
    {V : Type 0} (k : Text) (v : V) (m : Dict V) → insert k v (insert k v m) ≡ insert k v m
unfolding insert
insert-insert k v [] = ground (arith, text_eq_refl k)
insert-insert k v ((j, w) ∷ m) = ground (arith, insert-insert k v m)

key_or-truthy :
    (o : Option Text) (t : Text)
    → truthy (some t) ≡ some t
    → truthy (some (key_or (truthy o) t)) ≡ some (key_or (truthy o) t)
key_or-truthy none t h = h
key_or-truthy (some []) t h = h
key_or-truthy (some (c ∷ s)) t h = refl

pub truthy-key :
    (id : Text) (p : Page)
    → truthy (some (get_session_key_for_conversation id p))
      ≡ some (get_session_key_for_conversation id p)
unfolding get_session_key_for_conversation persisted_session_key
truthy-key id p = key_or-truthy (lookup id p.world.session_keys) (persisted_session_key id) refl

key-select_conversation :
    (id : Text) (p : Page)
    → get_session_key_for_conversation id (select_conversation id p).0
      ≡ get_session_key_for_conversation id p
unfolding select_conversation get_session_key_for_conversation
key-select_conversation id p =
    let key = get_session_key_for_conversation id p in
    let found : lookup id (insert id key p.world.session_keys) ≡ some key =
      lookup-insert id id key p.world.session_keys ∙ rw text_eq_refl refl in
    ap (λ o. key_or (truthy o) (persisted_session_key id)) found
    ∙ ap (λ o. key_or o (persisted_session_key id)) (truthy-key id p)

session-select_conversation :
    (id : Text) (p : Page)
    → get_session (get_session_key_for_conversation id p) (select_conversation id p).0.world
      ≡ some (opened_session id p)
unfolding select_conversation get_session
session-select_conversation id p =
    lookup-insert (get_session_key_for_conversation id p) _ _ p.world.sessions
    ∙ rw text_eq_refl refl

-- Selecting a conversation that is selected changes nothing, and leads to the same session.
pub select_conversation-again :
    (id : Text) (p : Page)
    → select_conversation id (select_conversation id p).0 ≡ select_conversation id p
unfolding select_conversation activate_chat_session
select_conversation-again id p =
    rw
      (key-select_conversation id p, session-select_conversation id p, insert-insert, insert-insert)
      refl
