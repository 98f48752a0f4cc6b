-- ===== src/UiActions/Validate.antt =====
-- front-end/src/config/uiActions.js: which payloads an action on the user interface takes.
use moonlit_ai_agent.Prelude.{
  Bool, false, ◌||◌, Option, none, some, List, [], ◌∷◌, ◌++◌, Text, text_eq, codes, any,
  if◌then◌else◌,
}
use moonlit_ai_agent.Prelude.Json.{
  Value, with_member, undefined, null, str, obj, Members, end, get_member, trimmed, to_text,
}

pub data Validation : Type 0 where
  accepted : Value → Validation
  rejected : Text → Validation

abbrev pub valid_db_types : List Text
valid_db_types = codes "mysql" ∷ codes "postgresql" ∷ codes "sqlserver" ∷ codes "oracle" ∷ []

abbrev pub valid_settings_sections : List Text
valid_settings_sections = codes "appearance" ∷ codes "ai" ∷ codes "database" ∷ codes "context" ∷ []

-- `list.includes(v)`.
abbrev contains : List Text → Value → Bool
contains ts (str s) = any (text_eq s) ts
contains ts _ = false

abbrev members_of : Value → Members
members_of (obj ms) = ms
members_of _ = end

abbrev validate_query : Text → Value → Validation
validate_query [] payload = rejected (codes "Missing SQL query.")
validate_query (c ∷ query) payload =
    accepted (obj (with_member (codes "query") (str (c ∷ query)) (members_of payload)))

abbrev unless_contained : List Text → Text → Value → Value → Validation
unless_contained ts complaint v payload =
    if contains ts v then accepted payload else rejected (complaint ++ (to_text v ++ codes "."))

abbrev validate_db_type : Value → Value → Validation
validate_db_type undefined payload = accepted payload
validate_db_type null payload = accepted payload
validate_db_type (str []) payload = accepted payload
validate_db_type v payload =
    unless_contained valid_db_types (codes "Unsupported database type: ") v payload

abbrev validate_section : Value → Value → Validation
validate_section undefined payload = accepted payload
validate_section null payload = accepted payload
validate_section v payload =
    unless_contained valid_settings_sections (codes "Unknown settings section: ") v payload

abbrev takes_anything : Text → Bool
takes_anything action =
    text_eq action (codes "open_sql_editor")
    || text_eq action (codes "navigate_new_chat")
    || text_eq action (codes "complete_navigate_new_chat")
    || text_eq action (codes "usage_metrics")

-- `none` for an action that the table does not have. The payload is a list or an object.
unfoldable pub validate : Text → Value → Option Validation
unfolding trimmed with_member
validate action payload =
    if takes_anything action
    then some (accepted payload)
    else if text_eq action (codes "write_sql_editor_query")
    then some (validate_query (trimmed (get_member (codes "query") payload)) payload)
    else if text_eq action (codes "open_database_modal")
    then some (validate_db_type (get_member (codes "db_type") payload) payload)
    else if text_eq action (codes "open_settings_modal")
    then some (validate_section (get_member (codes "section") payload) payload)
    else none
