-- ===== src/Database.antt =====
-- front-end/src/contexts/DatabaseContext.jsx and utils/databaseResponse.js: the state of the
-- connection to a database, its reducer, and what is read from a response. A response's members are
-- options: `none` is `undefined` and `null`.
pub mod Requests
pub mod Cached
pub mod Disconnected
mod Examples
use moonlit_ai_agent.Prelude.{
  ℕ, ◌+◌, Bool, true, false, Option, none, some, List, [], ◌∷◌, Text, text_eq, codes, map, not, leb,
  ◌&&◌, ◌||◌, if◌then◌else◌,
}

pub record DatabaseState : Type 0 where
  pub is_connected : Bool
  pub is_loading : Bool
  pub error : Option Text
  pub current_database : Option Text
  pub db_type : Option Text
  pub is_remote : Bool
  pub available_databases : List Text
  pub available_schemas : List Text
  pub current_schema : Option Text
  pub last_connected_at : Option ℕ

abbrev pub initial_state : DatabaseState
initial_state = record {
  is_connected = false;
  is_loading = false;
  error = none;
  current_database = none;
  db_type = none;
  is_remote = false;
  available_databases = [];
  available_schemas = [];
  current_schema = none;
  last_connected_at = none;
}

-- What the server says of a connection. `config_database` and `config_schema` are the members
-- `database` and `schema` of `db_config`.
pub record ConnectionData : Type 0 where
  pub connected : Option Bool
  pub selected_database : Option Text
  pub current_database : Option Text
  pub database : Option Text
  pub config_database : Option Text
  pub config_schema : Option Text
  pub db_type : Option Text
  pub is_remote : Option Bool
  pub databases : Option (List Text)
  pub schemas : Option (List Text)
  pub current_schema : Option Text
  pub schema : Option Text

-- `a ?? b`.
abbrev pub or_option {ℓ} : {A : Type ℓ} → Option A → Option A → Option A
or_option none b = b
or_option (some a) b = some a

abbrev pub or_value {ℓ} : {A : Type ℓ} → Option A → A → A
or_value none b = b
or_value (some a) b = a

-- `a || b` for texts.
abbrev pub or_text : Option Text → Option Text → Option Text
or_text none b = b
or_text (some []) b = b
or_text (some (c ∷ s)) b = some (c ∷ s)

unfoldable pub get_selected_database : Option ConnectionData → Option Text
get_selected_database none = none
get_selected_database (some d) =
    or_option d.selected_database
      (or_option d.current_database (or_option d.database d.config_database))

abbrev as_list : Option Text → List Text
as_list none = []
as_list (some []) = []
as_list (some (c ∷ s)) = (c ∷ s) ∷ []

abbrev pub filled_or : Option (List Text) → List Text → List Text
filled_or none b = b
filled_or (some []) b = b
filled_or (some (t ∷ ts)) b = t ∷ ts

unfoldable pub get_database_list : ConnectionData → List Text
unfolding get_selected_database
get_database_list d = filled_or d.databases (as_list (get_selected_database (some d)))

-- `toLowerCase`, as far as the names of the database types go: no letter outside ASCII has one of
-- theirs for its small letter.
abbrev lower : ℕ → ℕ
lower c = if leb 65 c && leb c 90 then c + 32 else c

unfoldable pub has_schemas : Option Text → Bool
has_schemas none = false
has_schemas (some t) =
    text_eq (map lower t) (codes "postgresql") || text_eq (map lower t) (codes "sqlserver")

unfoldable pub get_schema_list : ConnectionData → List Text
get_schema_list d = if has_schemas d.db_type then or_value d.schemas [] else []

unfoldable pub get_current_schema : ConnectionData → Option Text
get_current_schema d =
    if has_schemas d.db_type then or_text d.current_schema (or_text d.config_schema none) else none

-- The actions, with the payloads that are given for them.
pub data Action : Type 0 where
  connect_start : Action
  connect_success :
      (database db_type : Option Text)
      → (is_remote : Option Bool) → (databases schemas : Option (List Text))
      → (current_schema : Option Text) → (now : ℕ) → Action
  connect_failure set_error : Text → Action
  disconnected : Option Text → Action
  switch_database : Option Text → Option (List Text) → Option Text → Action
  select_schema : Option (List Text) → Option Text → Action
  set_available_databases : List Text → Action
  sync_status : ConnectionData → Action
  clear_error unknown : Action

unfoldable pub database_reducer : DatabaseState → Action → DatabaseState
database_reducer s connect_start = record s { is_loading = true; error = none }
database_reducer s (connect_success database db_type is_remote databases schemas schema now) =
    record s {
      is_connected = true;
      is_loading = false;
      error = none;
      current_database = database;
      db_type = db_type;
      is_remote = or_value is_remote false;
      available_databases = or_value databases [];
      available_schemas = or_value schemas [];
      current_schema = schema;
      last_connected_at = some now;
    }
database_reducer s (connect_failure e) = record s {
  is_connected = false;
  is_loading = false;
  error = some e;
}
database_reducer s (disconnected e) = record initial_state { error = e }
database_reducer s (switch_database database schemas schema) = record s {
  current_database = database;
  available_schemas = or_value schemas [];
  current_schema = schema;
  error = none;
}
database_reducer s (select_schema schemas schema) = record s {
  available_schemas = or_value schemas s.available_schemas;
  current_schema = schema;
  error = none;
}
database_reducer s (set_available_databases databases) = record s {
  available_databases = databases;
}
database_reducer s (sync_status d) = record s {
  is_connected = or_value d.connected false;
  current_database = or_option d.current_database d.database;
  db_type = d.db_type;
  is_remote = or_value d.is_remote false;
  available_databases = or_value d.databases [];
  available_schemas = or_value d.schemas [];
  current_schema = d.current_schema;
}
database_reducer s (set_error e) = record s { error = some e; is_loading = false }
database_reducer s clear_error = record s { error = none }
database_reducer s unknown = s
