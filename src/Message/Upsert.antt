-- ===== src/Message/Upsert.antt =====
-- front-end/src/hooks/chat-page/useMessageStreaming.js, `upsertAssistantMessage`: the assistant's
-- message is written into the list, in its place or at the end.
use moonlit_ai_agent.Prelude.{
  ◌≡◌, refl, Bool, Option, none, some, List, [], ◌∷◌, ◌++◌, map, Text, text_eq, text_eq_iff, find,
  any, if◌then◌else◌, arith,
}
use moonlit_ai_agent.Prelude.Json.{Value}
use moonlit_ai_agent.Message.{Item, Message, MessageStatus, create_assistant_message}

pub record MessageData : Type 0 where
  pub text : Text
  pub steps : List Item
  pub timeline : List Item
  pub usage : Option Value

unfoldable pub next_assistant : Text → MessageData → MessageStatus → Message
unfolding create_assistant_message
next_assistant id given status = create_assistant_message (record {
  id = id;
  raw_content = [];
  thinking = none;
  tools = none;
  status = status;
  text_override = some given.text;
  steps_override = some given.steps;
  timeline_override = some given.timeline;
  usage = given.usage;
})

-- The first message with the id is replaced, as a spread of all of the new message's members over
-- it does; with no such message the new one is appended.
replace_or_append : Text → Message → List Message → List Message
replace_or_append id next [] = next ∷ []
replace_or_append id next (m ∷ ms) =
    if text_eq m.id id then next ∷ ms else m ∷ replace_or_append id next ms

unfoldable pub upsert_assistant_message :
    List Message → Text → MessageData → MessageStatus → List Message
unfolding replace_or_append next_assistant
upsert_assistant_message previous id given status =
    replace_or_append id (next_assistant id given status) previous

-- `messages.find((message) => message.id === id)`.
abbrev pub find_message : Text → List Message → Option Message
find_message id = find (λ m. text_eq m.id id)

abbrev pub has_message : Text → List Message → Bool
has_message id = any (λ m. text_eq m.id id)

abbrev pub message_ids : List Message → List Text
message_ids = map (λ m. m.id)

find-replace_or_append :
    (ms : List Message) (next : Message) (j : Text)
    → find_message j (replace_or_append next.id next ms)
      ≡ (if text_eq next.id j then some next else find_message j ms)
unfolding replace_or_append
find-replace_or_append [] next j = refl
find-replace_or_append (m ∷ ms) next j = ground (
  arith,
  find-replace_or_append ms next j,
  text_eq_iff m.id next.id,
  text_eq_iff m.id j,
  text_eq_iff next.id j,
)

-- After the write, a search by the assistant's id finds the message as it was written, and a search
-- by any other id finds what it found before.
pub find-upsert_assistant_message :
    (ms : List Message) (id j : Text) (given : MessageData) (status : MessageStatus)
    → find_message j (upsert_assistant_message ms id given status)
      ≡ (if text_eq id j then some (next_assistant id given status) else find_message j ms)
unfolding upsert_assistant_message
find-upsert_assistant_message ms id j given status =
    find-replace_or_append ms (next_assistant id given status) j

ids-replace_or_append :
    (ms : List Message) (next : Message)
    → message_ids (replace_or_append next.id next ms)
      ≡ (if has_message next.id ms then message_ids ms else message_ids ms ++ next.id ∷ [])
unfolding replace_or_append
ids-replace_or_append [] next = refl
ids-replace_or_append (m ∷ ms) next =
    ground (arith, ids-replace_or_append ms next, text_eq_iff m.id next.id)

-- The write keeps the ids and their order; only a new id is added, at the end.
pub ids-upsert_assistant_message :
    (ms : List Message) (id : Text) (given : MessageData) (status : MessageStatus)
    → message_ids (upsert_assistant_message ms id given status)
      ≡ (if has_message id ms then message_ids ms else message_ids ms ++ id ∷ [])
unfolding upsert_assistant_message
ids-upsert_assistant_message ms id given status =
    ids-replace_or_append ms (next_assistant id given status)
