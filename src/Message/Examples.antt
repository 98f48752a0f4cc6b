-- ===== src/Message/Examples.antt =====
-- A conversation of a prompt and its answer.
use moonlit_ai_agent.Prelude.{◌≡◌, none, some, List, [], ◌∷◌, Text, codes, text_eq}
use moonlit_ai_agent.Message.{Message, MessageStatus, create_user_message}
use moonlit_ai_agent.Message.Upsert.{
  MessageData, next_assistant, upsert_assistant_message, find_message,
  find-upsert_assistant_message,
}

abbrev answer : Text → MessageData
answer t = record { text = t; steps = []; timeline = []; usage = none }

abbrev conversation : List Message
conversation =
    create_user_message (codes "u1") (codes "hi")
    ∷ next_assistant (codes "a1") (answer []) MessageStatus.waiting
    ∷ []

find-upsert_assistant_message_example :
    find_message (codes "a1") (
      upsert_assistant_message conversation
        (codes "a1")
        (answer (codes "yes"))
        MessageStatus.streaming)
    ≡ some (next_assistant (codes "a1") (answer (codes "yes")) MessageStatus.streaming)
unfolding text_eq
find-upsert_assistant_message_example =
    find-upsert_assistant_message conversation (codes "a1") (codes "a1") (answer (codes "yes"))
      MessageStatus.streaming
