-- ===== src/Conversations/Routing.antt =====
-- The session that the router finds after a conversation has been selected.
use moonlit_ai_agent.Prelude.{
  ◌≡◌, ◌≢◌, refl, ap, ◌∙◌, Bool, Option, none, some, [], ◌∷◌, Text, lookup, insert, lookup-insert,
  text_eq_refl, if◌then◌else◌, Bool-cases, inl, inr,
}
use moonlit_ai_agent.Session.{
  ChatSession, RouteState, resolve_route_chat_session_key, persisted_session_key, truthy, known_or,
}
use moonlit_ai_agent.Store.{get_session}
use moonlit_ai_agent.Conversations.{Page}
use moonlit_ai_agent.Conversations.Selection.{select_conversation, get_session_key_for_conversation}
use moonlit_ai_agent.Conversations.Deleted.{truthy-key}

abbrev pub conversation_of : Option ChatSession → Option Text
conversation_of none = none
conversation_of (some s) = s.conversation_id

-- What the router knows when it has gone to the conversation with the session of the key.
abbrev pub route_to : Text → Text → Text → Page → RouteState
route_to id key draft p = record {
  route_conversation_id = some id;
  location_session_key = some key;
  location_conversation_id = conversation_of (get_session key p.world);
  known_conversation_session_key = lookup id p.world.session_keys;
  initial_draft_session_key = draft;
}

either-same : {A : Type 0} (b : Bool) (x y : A) → y ≡ x → (if b then x else y) ≡ x
either-same b x y h = elim (Bool-cases b) [ inl e ↦ rw e refl | inr e ↦ rw e h ]

-- The navigation that follows the selection of a conversation leads to the session that was
-- selected, whatever conversation that session has. The conversation's id is not empty.
pub resolve_route_chat_session_key-select_conversation :
    (id draft : Text) (p : Page)
    → id ≢ []
    → let (selected, key) = select_conversation id p in
      resolve_route_chat_session_key (route_to id key draft selected) ≡ key
unfolding resolve_route_chat_session_key select_conversation
resolve_route_chat_session_key-select_conversation [] draft p h = absurd (h refl)
resolve_route_chat_session_key-select_conversation (c ∷ s) draft p h =
    let id = c ∷ s in
    let key = get_session_key_for_conversation id p in
    let found : lookup id (insert id key p.world.session_keys) ≡ some key =
      lookup-insert id id key p.world.session_keys ∙ rw text_eq_refl refl in
    let known : known_or (truthy (lookup id (insert id key p.world.session_keys)))
          (persisted_session_key id)
        ≡ key =
      ap (λ o. known_or (truthy o) (persisted_session_key id)) found
      ∙ ap (λ o. known_or o (persisted_session_key id)) (truthy-key id p) in
    rw (truthy-key id p) (either-same _ key _ known)
