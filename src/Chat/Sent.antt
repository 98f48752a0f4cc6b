-- ===== src/Chat/Sent.antt =====
-- What becomes of a message that is sent.
use moonlit_ai_agent.Prelude.{
  ℕ, Option, none, some, List, [], ◌∷◌, ◌++◌, Text, text_eq_refl, lookup, lookup-insert, trim, ◌≡◌,
  ◌∙◌, refl, ap, arith, Option-cases, Bool-cases, inl, inr,
}
use moonlit_ai_agent.Message.{Message, MessageStatus, create_user_message}
use moonlit_ai_agent.Message.Upsert.{next_assistant}
use moonlit_ai_agent.Session.{ChatSession}
use moonlit_ai_agent.Registry.{start}
use moonlit_ai_agent.Store.{
  World, get_session, update_session, update_session_messages, session_or_new, cache_messages,
}
use moonlit_ai_agent.Chat.{send_message, can_send, start_stream, begin_send, empty_data}

abbrev messages_in : Option ChatSession → List Message
messages_in none = []
messages_in (some s) = s.messages

-- What the list of messages shows for a session.
unfoldable pub messages_of : Text → World → List Message
unfolding get_session
messages_of k w = messages_in (get_session k w)

-- The two messages that a prompt adds.
abbrev pub turn : Text → Text → Text → List Message
turn user_id id prompt =
    create_user_message user_id prompt ∷ next_assistant id empty_data MessageStatus.waiting ∷ []

messages_of-update_session :
    (k : Text) (f : ChatSession → ChatSession) (w : World)
    → ((s : ChatSession) → (f s).messages ≡ s.messages)
    → messages_of k (update_session k f w) ≡ messages_of k w
unfolding messages_of get_session update_session
messages_of-update_session k f w same =
    ap messages_in (lookup-insert k k _ w.sessions)
    ∙ rw (text_eq_refl k) (elim (Option-cases (lookup k w.sessions)) [
      | inl absent ↦ rw absent (same _)
      | inr (s, held) ↦ rw held (same s)
    ])

sessions-cache_messages :
    (id : Option Text) (ms : List Message) (w : World)
    → (cache_messages id ms w).sessions ≡ w.sessions
sessions-cache_messages none ms w = refl
sessions-cache_messages (some id) ms w = refl

messages_in-session_or_new :
    (k : Text) (s : Option ChatSession) → (session_or_new k s).messages ≡ messages_in s
messages_in-session_or_new k none = refl
messages_in-session_or_new k (some s) = refl

messages_of-update_session_messages :
    (k : Text) (f : List Message → List Message) (w : World)
    → messages_of k (update_session_messages k f w) ≡ f (messages_of k w)
unfolding messages_of get_session update_session_messages update_session
messages_of-update_session_messages k f w =
    ap (λ m. messages_in (lookup k m)) (sessions-cache_messages _ _ _)
    ∙ ap messages_in (lookup-insert k k _ w.sessions)
    ∙ rw (text_eq_refl k) (ap f (messages_in-session_or_new k (lookup k w.sessions)))

messages_of-begin_send :
    (k prompt user_id id : Text) (w : World)
    → messages_of k (begin_send k prompt user_id id w) ≡ messages_of k w ++ turn user_id id prompt
unfolding begin_send
messages_of-begin_send k prompt user_id id w =
    messages_of-update_session k _ _ (λ s. refl) ∙ messages_of-update_session_messages k _ w

start_stream-refused :
    (k id : Text) (change : World → World) (w : World)
    → (start_stream k id change w).1 ≡ none
    → (start_stream k id change w).0 ≡ w
start_stream-refused k id change w h = ground arith

messages_of-start_stream :
    (k id : Text) (change : World → World) (n : ℕ) (w : World) (ms : List Message)
    → ((v : World) → messages_of k (change v) ≡ messages_of k v ++ ms)
    → (start_stream k id change w).1 ≡ some n
    → messages_of k (start_stream k id change w).0 ≡ messages_of k w ++ ms
unfolding messages_of get_session
messages_of-start_stream k id change n w ms adds h = elim (Option-cases (start k w.registry).1) [
  | inl held ↦ ground arith
  | inr (e, begun) ↦ rw (begun, start_stream) (adds _)
]

pub send_message-refused :
    (k message user_id id : Text) (w : World)
    → (send_message k message user_id id w).1 ≡ none
    → (send_message k message user_id id w).0 ≡ w
unfolding send_message
send_message-refused k message user_id id w h =
    elim (Bool-cases (can_send (trim message) (get_session k w))) [
      | inl able ↦
          ground (arith, start_stream-refused k id (begin_send k (trim message) user_id id) w)
      | inr unable ↦ rw unable
    ]

pub messages_of-send_message :
    (k message user_id id : Text) (n : ℕ) (w : World)
    → (send_message k message user_id id w).1 ≡ some n
    → messages_of k (send_message k message user_id id w).0
      ≡ messages_of k w ++ turn user_id id (trim message)
unfolding send_message
messages_of-send_message k message user_id id n w h =
    elim (Bool-cases (can_send (trim message) (get_session k w))) [
      | inl able ↦ ground (
        arith,
        messages_of-start_stream k id (begin_send k (trim message) user_id id) n w
            (turn user_id id (trim message)) (messages_of-begin_send k (trim message) user_id id),
      )
      | inr unable ↦ ground arith
    ]
