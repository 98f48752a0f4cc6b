-- ===== src/Steps.antt =====
-- front-end/src/features/chat/ai-response-steps/stepUtils.js: the steps of a message as they are
-- shown, and whether they still go on.
pub mod Actions
pub mod Summary
pub mod Failures
pub mod Activity
mod Examples
use moonlit_ai_agent.Prelude.{
  ℕ, zero, suc, ◌+◌, ◌-◌, Bool, true, false, Option, none, some, List, [], ◌∷◌, ◌++◌, Text, text_eq,
  codes, decimal, lookup, length, any, all, map, not, leb, ◌==◌, ◌&&◌, ◌||◌, if◌then◌else◌,
}
use moonlit_ai_agent.Prelude.Json.{
  Value, Values, undefined, null, bool, num, str, arr, obj, nil, cons, get_member, is_truthy,
  nullish_or,
}
use moonlit_ai_agent.Message.{Item, ToolStatus}
use moonlit_ai_agent.Steps.Actions.{agent_actions, ui_actions}

pub data Step : Type 0 where
  thinking : (id content : Text) → (is_complete : Bool) → Step
  skill : (id : Text) → List Text → Step
  tool : (id name action : Text) → (args result : Value) → (is_running is_error : Bool) → Step

-- `\w`: letters, digits and `_` of ASCII.
abbrev is_word : ℕ → Bool
is_word c = (leb 48 c && leb c 57) || (leb 65 c && leb c 90) || (leb 97 c && leb c 122) || c == 95

abbrev upper : ℕ → ℕ
upper c = if leb 97 c && leb c 122 then c - 32 else c

-- `.replace(/\b\w/g, (c) => c.toUpperCase())`; the flag tells whether a word goes on.
capitalize : Bool → Text → Text
capitalize inside [] = []
capitalize inside (c ∷ s) =
    let rest = capitalize (is_word c) s in (if inside then c else upper c) ∷ rest

abbrev space_out : ℕ → ℕ
space_out c = if c == 95 || c == 45 then 32 else c

unfoldable pub format_tool_name : Text → Text
unfolding capitalize
format_tool_name name = capitalize false (map space_out name)

abbrev pub filled : Option Text → Option Text
filled none = none
filled (some []) = none
filled (some (c ∷ s)) = some (c ∷ s)

abbrev text_or : Text → Text → Text
text_or [] fallback = fallback
text_or (c ∷ s) fallback = c ∷ s

abbrev id_or : Option Text → Text → Text
id_or none fallback = fallback
id_or (some id) fallback = id

abbrev status_text : ToolStatus → Text
status_text ToolStatus.running = codes "running"
status_text ToolStatus.done = codes "done"
status_text ToolStatus.error = codes "error"
status_text (ToolStatus.other t) = t

unfoldable pub get_thinking_id : Option Text → ℕ → Text
get_thinking_id id idx = id_or (filled id) (codes "thinking-" ++ decimal idx)

unfoldable pub get_tool_id : Option Text → Text → ToolStatus → ℕ → Text
get_tool_id id name status idx = id_or (filled id) (
    codes "tool-"
    ++ decimal idx
    ++ codes "-"
    ++ text_or name (codes "tool")
    ++ codes "-"
    ++ text_or (status_text status) (codes "unknown"))

abbrev pub is_false : Value → Bool
is_false (bool b) = not b
is_false _ = false

abbrev pub count_values : Values → ℕ
count_values nil = 0
count_values (cons v vs) = suc (count_values vs)

-- `v?.length`.
abbrev pub length_of : Value → Value
length_of (arr vs) = num (count_values vs)
length_of (str s) = num (length s)
length_of (obj ms) = get_member (codes "length") (obj ms)
length_of _ = undefined

abbrev pub is_zero : Value → Bool
is_zero (num n) = n == 0
is_zero _ = false

abbrev counted : Text → Text → Value → Value
counted count_name list_name result =
    nullish_or (get_member count_name result)
      (nullish_or (length_of (get_member list_name result)) (num 0))

unfoldable pub is_semantic_failure : Text → Value → Bool
is_semantic_failure name result =
    if not (is_truthy result)
    then false
    else if is_false (get_member (codes "success") result)
        || is_truthy (get_member (codes "error") result)
    then true
    else if text_eq name (codes "get_connection_status")
    then is_false (get_member (codes "connected") result)
    else if text_eq name (codes "get_database_list")
    then is_zero (counted (codes "count") (codes "databases") result)
    else if text_eq name (codes "get_schema_overview")
    then is_zero (counted (codes "table_count") (codes "tables") result)
    else false

abbrev pub is_running : ToolStatus → Bool
is_running ToolStatus.running = true
is_running _ = false

abbrev pub is_error : ToolStatus → Bool
is_error ToolStatus.error = true
is_error _ = false

abbrev action_of : Option (Text × Text) → Bool → Text → Text
action_of none running name = format_tool_name name
action_of (some (now, before)) running name = if running then now else before

-- `TOOL_ACTIONS[name]`.
abbrev tool_action : Text → Option (Text × Text)
tool_action name = elim (lookup name agent_actions) [
  | none ↦ lookup name ui_actions
  | some a ↦ some a
]

unfoldable pub normalize_tool : Option Text → Text → ToolStatus → Value → Value → ℕ → Step
normalize_tool id name status args result idx =
    tool (get_tool_id id name status idx) name
      (action_of (tool_action name) (is_running status) name) args result (is_running status)
      (is_error status || is_semantic_failure name result)

-- Texts are no steps, but they count for the ids of those that have none.
normalize_from : ℕ → List Item → List Step
normalize_from idx [] = []
normalize_from idx (Item.text id content ∷ items) = normalize_from (idx + 1) items
normalize_from idx (Item.thinking id content complete ∷ items) =
    thinking (get_thinking_id id idx) content complete ∷ normalize_from (idx + 1) items
normalize_from idx (Item.skill id skills ∷ items) =
    skill (id_or (filled id) (codes "skill-" ++ decimal idx)) skills
    ∷ normalize_from (idx + 1) items
normalize_from idx (Item.tool id name status args result ∷ items) =
    normalize_tool id name status args result idx ∷ normalize_from (idx + 1) items

unfoldable pub normalize_steps : List Item → List Step
unfolding normalize_from normalize_tool
normalize_steps items = normalize_from 0 items

abbrev pub is_active_step : Step → Bool
is_active_step (thinking id content complete) = not complete
is_active_step (skill id skills) = false
is_active_step (tool id name action args result running error) = running

unfoldable pub is_any_step_active : List Step → Bool
is_any_step_active steps = any is_active_step steps

-- `none` stands for -1.
unfoldable pub get_current_step_index : List Step → Option ℕ
get_current_step_index [] = none
get_current_step_index (s ∷ steps) =
    let rest = get_current_step_index steps in
    if is_active_step s then some 0 else elim rest [ none ↦ none | some i ↦ some (i + 1) ]

abbrev pub is_complete_step : Step → Bool
is_complete_step (thinking id content complete) = complete
is_complete_step (skill id skills) = true
is_complete_step (tool id name action args result running error) = not running

unfoldable pub are_all_steps_complete : List Step → Bool → Bool
are_all_steps_complete steps is_streaming = not is_streaming && all is_complete_step steps
