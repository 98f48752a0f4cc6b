-- ===== src/Outputs.antt =====
-- front-end/src/features/chat/conversationOutputs.js: the queries, diagrams and results that the messages
-- of a conversation hold. Numbers are the natural ones, and a time is in milliseconds. Rows of a result
-- are lists or objects.
pub mod Fences
pub mod Found
mod Examples
use moonlit_ai_agent.Prelude.{
  ℕ, zero, suc, ◌+◌, Bool, true, false, ◌&&◌, ◌||◌, Option, none, some, List, [], ◌∷◌, ◌++◌, Text,
  text_eq, codes, decimal, trim, leb, map, Dict, lookup, insert, if◌then◌else◌,
}
use moonlit_ai_agent.Prelude.Json.{
  Value, Values, Members, undefined, null, num, str, arr, obj, nil, cons, end, member, get_member,
  is_truthy, nullish_or, value_or, to_text,
}
use moonlit_ai_agent.Message.{Message, assistant, user, Item, tool, ToolStatus, done}
use moonlit_ai_agent.Outputs.Fences.{Fence, fences}

-- The ids are values, which need not be texts.
pub record ExecutionMeta : Type 0 where
  pub execution_id : Value
  pub conversation_id : Value

-- The first of the values that counts as true, or the last.
abbrev first_true : List Value → Value → Value
first_true [] last = last
first_true (v ∷ vs) last = value_or v (first_true vs last)

-- What the result, or its `data`, has under either name.
abbrev under : Text → Text → Value → Value → Value
under name camel result last =
    let nested = get_member (codes "data") result in
    first_true
      (get_member name result
        ∷ get_member camel result
        ∷ get_member name nested
        ∷ get_member camel nested
        ∷ [])
      last

abbrev execution_meta : Value → Value → Option ExecutionMeta
execution_meta result fallback =
    let id = under (codes "execution_id") (codes "executionId") result undefined in
    if is_truthy id
    then some (record {
      execution_id = id;
      conversation_id = under (codes "conversation_id") (codes "conversationId") result fallback;
    })
    else none

unfoldable pub get_query_execution_meta : Item → Value → Option ExecutionMeta
get_query_execution_meta (tool id name done args result) fallback =
    if text_eq name (codes "execute_query") && is_truthy result
    then execution_meta result fallback
    else none
get_query_execution_meta _ fallback = none

-- The time is `none` where the code has `null`.
pub data Output : Type 0 where
  query diagram : Text → Output
  query_result : ExecutionMeta → (source_query : Value) → (execution_time_ms : Option ℕ) → Output

abbrev time_of : Value → Option ℕ
time_of (num ms) = some ms
time_of _ = none

abbrev lower : Text → Text
lower = map (λ c. if leb b'A' c && leb c b'Z' then c + 32 else c)

abbrev output_of : Text → Text → Option Output
output_of language [] = none
output_of language (c ∷ code) =
    if text_eq language (codes "sql")
    then some (query (c ∷ code))
    else if text_eq language (codes "diagram-flow")
    then some (diagram (c ∷ code))
    else none

abbrev with_output : Text → Option Output → Dict Output → Dict Output
with_output id none outputs = outputs
with_output id (some o) outputs = insert id o outputs

unfoldable pub add_fences : Text → List Fence → Dict Output → Dict Output
unfolding insert trim
add_fences message_id [] outputs = outputs
add_fences message_id (f ∷ fs) outputs = add_fences message_id fs (
    with_output (message_id ++ (58 ∷ decimal f.index)) (output_of (lower f.language) (trim f.code))
      outputs)

abbrev result_id : ExecutionMeta → Text
result_id meta =
    codes "execution:" ++ (to_text meta.conversation_id ++ (58 ∷ to_text meta.execution_id))

abbrev args_of : Item → Value
args_of (tool id name status args result) = args
args_of _ = undefined

abbrev result_of : Item → Value
result_of (tool id name status args result) = result
result_of _ = undefined

abbrev with_execution : Option ExecutionMeta → Item → Dict Output → Dict Output
with_execution none step outputs = outputs
with_execution (some meta) step outputs =
    if is_truthy meta.conversation_id
    then insert (result_id meta)
        (query_result meta (value_or (get_member (codes "query") (args_of step)) (str []))
          (time_of (get_member (codes "execution_time_ms") (result_of step))))
        outputs
    else outputs

unfoldable pub add_steps : Value → List Item → Dict Output → Dict Output
unfolding insert get_query_execution_meta
add_steps conversation_id [] outputs = outputs
add_steps conversation_id (step ∷ steps) outputs =
    add_steps conversation_id steps
      (with_execution (get_query_execution_meta step conversation_id) step outputs)

abbrev id_or_index : Text → ℕ → Text
id_or_index [] index = decimal index
id_or_index (c ∷ id) index = c ∷ id

abbrev add_message : Value → ℕ → Message → Dict Output → Dict Output
add_message conversation_id index m outputs = elim m.role [
  | user ↦ outputs
  | assistant ↦
      add_steps conversation_id m.steps
        (add_fences (id_or_index m.id index) (fences m.text) outputs)
]

abbrev add_messages : Value → ℕ → List Message → Dict Output → Dict Output
add_messages conversation_id index [] outputs = outputs
add_messages conversation_id index (m ∷ ms) outputs =
    add_messages conversation_id (index + 1) ms (add_message conversation_id index m outputs)

-- The outputs by their ids.
unfoldable pub collect_conversation_outputs : List Message → Value → Dict Output
unfolding add_fences add_steps fences
collect_conversation_outputs messages conversation_id = add_messages conversation_id 0 messages []

pub record ExecutionResult : Type 0 where
  pub columns : Values
  pub rows : List Values
  pub column_types : Value
  pub row_count : Value
  pub execution_time_ms : Option ℕ
  pub truncated : Option Value

abbrev pub data_of : Value → Value → Values
data_of (arr rows) result = rows
data_of _ (arr rows) = rows
data_of _ _ = nil

abbrev keys : Members → Values
keys end = nil
keys (member k v ms) = cons (str k) (keys ms)

abbrev pub columns_of : Value → Values → Values
columns_of (arr (cons c cs)) rows = cons c cs
columns_of _ (cons (obj ms) rows) = keys ms
columns_of _ _ = nil

-- `columns.map((column) => row[column])`.
abbrev pub cells : Values → Value → Values
cells nil row = nil
cells (cons c cs) row = cons (get_member (to_text c) row) (cells cs row)

abbrev pub row_of : Values → Value → Values
row_of columns (arr vs) = vs
row_of columns row = cells columns row

abbrev pub rows_of : Values → Values → List Values
rows_of columns nil = []
rows_of columns (cons v vs) = row_of columns v ∷ rows_of columns vs

abbrev pub count : Values → ℕ
count nil = 0
count (cons v vs) = suc (count vs)

abbrev unless_null : Value → Option Value
unless_null undefined = none
unless_null null = none
unless_null v = some v

unfoldable pub normalize_execution_result : Value → ExecutionResult
normalize_execution_result result =
    let rows = data_of (get_member (codes "data") result) (get_member (codes "result") result) in
    let columns = columns_of (get_member (codes "columns") result) rows in
    record {
      columns = columns;
      rows = rows_of columns rows;
      column_types = value_or (get_member (codes "column_types") result) (arr nil);
      row_count = nullish_or (get_member (codes "row_count") result) (num (count rows));
      execution_time_ms = time_of (get_member (codes "execution_time_ms") result);
      truncated = unless_null (get_member (codes "truncated") result);
    }
