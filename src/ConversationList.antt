-- ===== src/ConversationList.antt =====
-- front-end/src/features/sidebar-left/conversationListModel.js: the state of the conversation list.
use moonlit_ai_agent.Prelude.{ℕ, ◌+◌, Bool, Option, none, some, [], Text, codes, ltb, if◌then◌else◌}

pub record ListLoad : Type 0 where
  pub error : Option Text
  pub failure_revision : ℕ

abbrev pub initial_list_load : ListLoad
initial_list_load = record { error = none; failure_revision = 0 }

pub data ListEvent : Type 0 where
  started : Bool → ListEvent
  succeeded failed other : ListEvent

abbrev pub conversation_list_error : Text
conversation_list_error = codes "Couldn’t load conversations"

unfoldable pub conversation_list_load_reducer : ListLoad → ListEvent → ListLoad
conversation_list_load_reducer s (started visible) =
    if visible then record s { error = none } else s
conversation_list_load_reducer s succeeded = record s { error = none }
conversation_list_load_reducer s failed = record {
  error = some conversation_list_error;
  failure_revision = s.failure_revision + 1;
}
conversation_list_load_reducer s other = s

pub data ListView : Type 0 where
  list loading error empty : ListView

unfoldable pub get_conversation_list_view : Bool → Option Text → ℕ → ListView
get_conversation_list_view is_loading e conversation_count =
    if ltb 0 conversation_count
    then ListView.list
    else if is_loading
    then ListView.loading
    else elim e [ none ↦ ListView.empty | some [] ↦ ListView.empty | some _ ↦ ListView.error ]
