-- ===== src/Message/Stored.antt =====
-- front-end/src/utils/chatMessages.js: the messages that the database has stored.
use moonlit_ai_agent.Prelude.{
  ℕ, Bool, Option, none, some, List, [], ◌∷◌, ◌++◌, Text, codes, decimal, if◌then◌else◌, map, zero,
  suc,
}
use moonlit_ai_agent.Prelude.Json.{Value}
use moonlit_ai_agent.Message.{
  Item, thinking, Message, done, StoredTool, create_user_message, create_assistant_message,
  text_or_nil,
}

-- What a message in the database says of its time.
pub data Timestamp : Type 0 where
  absent : Timestamp
  written : Text → Timestamp
  numbered : ℕ → Timestamp
  seconds : ℕ → Timestamp

-- A stored timeline entry, with the `is_complete` that the backend writes, if it is there.
pub record StoredItem : Type 0 where
  pub item : Item
  pub is_complete : Option Bool

pub record StoredMessage : Type 0 where
  pub from_user : Bool
  pub timestamp : Timestamp
  pub content : Option Text
  pub thinking : Option Text
  pub tools : Option (List StoredTool)
  pub timeline : Option (List StoredItem)
  pub usage : Option Value

timestamp_part : Timestamp → ℕ → Text
timestamp_part absent index = decimal index
timestamp_part (written t) index = t
timestamp_part (numbered n) index = decimal n
timestamp_part (seconds zero) index = decimal index
timestamp_part (seconds (suc n)) index = decimal (suc n)

complete_item : Item → Bool → Item
complete_item (thinking id content _) complete = thinking id content complete
complete_item i _ = i

abbrev normalize_with : Item → Option Bool → Item
normalize_with i none = i
normalize_with i (some complete) = complete_item i complete

unfoldable pub normalize_timeline_item : StoredItem → Item
unfolding complete_item
normalize_timeline_item i = normalize_with i.item i.is_complete

stored_timeline : Option (List StoredItem) → Option (List Item)
stored_timeline none = none
stored_timeline (some []) = none
stored_timeline (some (i ∷ is)) = some (map normalize_timeline_item (i ∷ is))

message_id : Text → Timestamp → ℕ → Text
message_id sender timestamp index =
    sender ++ (codes "-" ++ (timestamp_part timestamp index ++ (codes "-" ++ decimal index)))

unfoldable pub normalize_conversation_message : StoredMessage → ℕ → Message
unfolding timestamp_part message_id stored_timeline create_user_message create_assistant_message
normalize_conversation_message m index =
    if m.from_user
    then create_user_message (message_id (codes "user") m.timestamp index) (text_or_nil m.content)
    else create_assistant_message (record {
      id = message_id (codes "ai") m.timestamp index;
      raw_content = text_or_nil m.content;
      thinking = m.thinking;
      tools = m.tools;
      status = done;
      text_override = none;
      steps_override = none;
      timeline_override = stored_timeline m.timeline;
      usage = m.usage;
    })
