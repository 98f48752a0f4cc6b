-- ===== src/ToolResults.antt =====
-- front-end/src/features/chat/ai-response-steps/toolResultPresentation.js: what is shown of the result
-- of a tool. Numbers are the natural ones, and a result is a value of JSON.
pub mod Bounded
pub mod WebSearch
mod Examples
use moonlit_ai_agent.Prelude.{
  ℕ, zero, suc, ◌+◌, Bool, true, false, not, Option, none, some, List, [], ◌∷◌, ◌++◌, Text, text_eq,
  codes, decimal, length, take, leb, ltb, is_empty, ◌&&◌, ◌||◌, if◌then◌else◌,
}
use moonlit_ai_agent.Prelude.Json.{
  Value, Values, Members, undefined, null, bool, num, str, arr, obj, nil, cons, end, member,
  get_member, is_truthy, nullish_or, to_text,
}

abbrev pub max_entries : ℕ
max_entries = 20

abbrev pub max_items : ℕ
max_items = 50

abbrev pub max_scalar : ℕ
max_scalar = 500

abbrev pub max_depth : ℕ
max_depth = 4

abbrev pub truncation_marker : Text
truncation_marker = codes "… truncated"

pub record TableRows : Type 0 where
  pub table : Text
  pub row_count : ℕ
  pub is_estimate : Bool

abbrev row_item : Value → Value → Value → Option TableRows
row_item (str (c ∷ s)) (num n) estimate =
    some (record { table = c ∷ s; row_count = n; is_estimate = is_truthy estimate })
row_item _ _ _ = none

unfoldable pub row_items : Values → List TableRows
row_items nil = []
row_items (cons v vs) =
    elim (row_item (get_member (codes "table") v) (get_member (codes "row_count") v)
      (get_member (codes "is_estimate") v)) [ none ↦ row_items vs | some t ↦ t ∷ row_items vs ]

unfoldable pub get_table_row_count_items : Value → List TableRows
get_table_row_count_items result = elim (get_member (codes "row_counts") result) [
  | arr vs ↦ row_items vs
  | _ ↦ []
]

abbrev is_missing : Value → Bool
is_missing undefined = true
is_missing null = true
is_missing _ = false

abbrev shown : Value → List Value → List Value
shown undefined vs = vs
shown null vs = vs
shown (str []) vs = vs
shown v vs = v ∷ vs

abbrev nullable : Value → Value
nullable (bool true) = str (codes "NULLABLE")
nullable (bool false) = str (codes "NOT NULL")
nullable _ = null

abbrev prefixed : Text → Value → Value
prefixed p v = if is_missing v then null else str (p ++ to_text v)

abbrev flag : Text → Value → Value
flag t v = if is_truthy v then str t else null

abbrev column_meta : Value → List Value
column_meta column =
    shown (nullish_or (get_member (codes "data_type") column) (get_member (codes "type") column)) (
      shown (flag (codes "PK") (get_member (codes "is_primary_key") column)) (
        shown
          (nullable (
            nullish_or (get_member (codes "is_nullable") column)
              (get_member (codes "nullable") column)))
          (shown (flag (codes "UNIQUE") (get_member (codes "is_unique") column)) (
            shown (prefixed (codes "MAX ") (get_member (codes "max_length") column)) (
              shown
                (prefixed (codes "DEFAULT ") (
                  nullish_or (get_member (codes "default") column)
                    (get_member (codes "default_value") column)))
                [])))))

-- A list has no such members.
unfoldable pub get_column_display_meta : Value → List Value
get_column_display_meta (obj ms) = column_meta (obj ms)
get_column_display_meta _ = []

-- `boundValue`, with whether something was left out on the way. The count of a list or of an object is
-- how many more of its parts are kept.
unfoldable mutual
  pub bound_value : ℕ → Value → Value × Bool
  bound_value depth null = (null, false)
  bound_value depth (bool b) = (bool b, false)
  bound_value depth (num n) = (num n, false)
  bound_value depth (str s) =
      if ltb max_scalar (length s)
      then (str (take max_scalar s ++ (32 ∷ truncation_marker)), true)
      else (str s, false)
  bound_value depth undefined =
      (str (if leb max_depth depth then truncation_marker else codes "undefined"), true)
  bound_value depth (arr vs) =
      let inner = bound_values max_items (depth + 1) vs in
      if leb max_depth depth then (str truncation_marker, true) else (arr inner.0, inner.1)
  bound_value depth (obj ms) =
      let inner = bound_members max_entries (depth + 1) ms in
      if leb max_depth depth then (str truncation_marker, true) else (obj inner.0, inner.1)

  pub bound_values : ℕ → ℕ → Values → Values × Bool
  bound_values n depth nil = (nil, false)
  bound_values zero depth (cons v vs) = (nil, true)
  bound_values (suc n) depth (cons v vs) =
      let first = bound_value depth v in
      let rest = bound_values n depth vs in (cons first.0 rest.0, first.1 || rest.1)

  pub bound_members : ℕ → ℕ → Members → Members × Bool
  bound_members n depth end = (end, false)
  bound_members zero depth (member k v ms) = (end, true)
  bound_members (suc n) depth (member k v ms) =
      let first = bound_value depth v in
      let rest = bound_members n depth ms in (member k first.0 rest.0, first.1 || rest.1)

-- An object without some of its members.
unfoldable pub omit : List Text → Members → Members
omit ks end = end
omit ks (member k v ms) = if is_one_of k ks then omit ks ms else member k v (omit ks ms)
  where
    is_one_of : Text → List Text → Bool
    is_one_of k [] = false
    is_one_of k (j ∷ js) = text_eq j k || is_one_of k js

abbrev preview_keys : List Text
preview_keys =
    codes "data"
    ∷ codes "preview"
    ∷ codes "preview_note"
    ∷ codes "preview_row_count"
    ∷ codes "preview_is_partial"
    ∷ codes "full_result_location"
    ∷ []

unfoldable pub get_timeline_result : Text → Value → Value
get_timeline_result tool (obj ms) =
    if text_eq tool (codes "retrieve_memory")
    then obj (omit (codes "memories" ∷ []) ms)
    else if text_eq tool (codes "execute_query")
    then obj (omit preview_keys ms)
    else obj ms
get_timeline_result tool result = result

pub record PastQuery : Type 0 where
  pub query : Text
  pub database : Text
  pub row_count : ℕ
  pub status : Text
  pub executed_at : Text

abbrev pub text_of : Value → Text
text_of (str s) = s
text_of _ = []

abbrev count_of : Value → ℕ
count_of (num n) = n
count_of _ = 0

abbrev past_query : Value → Value → Option PastQuery
past_query (str (c ∷ s)) item = some (record {
  query = c ∷ s;
  database = text_of (get_member (codes "database") item);
  row_count = count_of (get_member (codes "row_count") item);
  status = text_of (get_member (codes "status") item);
  executed_at = text_of (get_member (codes "executed_at") item);
})
past_query _ item = none

-- The first items of the list, of which those without a query are left out.
unfoldable pub past_queries : ℕ → Values → List PastQuery
past_queries n nil = []
past_queries zero (cons v vs) = []
past_queries (suc n) (cons v vs) = elim (past_query (get_member (codes "query") v) v) [
  | none ↦ past_queries n vs
  | some q ↦ q ∷ past_queries n vs
]

unfoldable pub get_query_history_items : Value → List PastQuery
get_query_history_items result = elim (get_member (codes "queries") result) [
  | arr vs ↦ past_queries 10 vs
  | _ ↦ []
]
