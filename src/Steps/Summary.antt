-- ===== src/Steps/Summary.antt =====
-- front-end/src/features/chat/ai-response-steps/stepUtils.js: the line that sums the steps up.
-- `String(v)`, `v.toLocaleString()` and `t.toLowerCase()` depend on the host's locale data and are
-- parameters.
use moonlit_ai_agent.Prelude.{
  Bool, true, false, Option, none, some, List, [], ◌∷◌, ◌++◌, Text, text_eq, codes, decimal, length,
  take, any, filter, find, map, join, starts_with, is_empty, not, ◌==◌, ◌&&◌, if◌then◌else◌,
}
use moonlit_ai_agent.Prelude.Json.{Value, num, arr, obj, get_member, nullish_or}
use moonlit_ai_agent.Steps.{Step, thinking, skill, tool, length_of}

pub record Host : Type 0 where
  pub to_string : Value → Text
  pub to_locale_string : Value → Text
  pub to_lower_case : Text → Text

-- A tool's step, taken apart.
pub record ToolStep : Type 0 where
  pub name : Text
  pub action : Text
  pub result : Value
  pub is_running : Bool
  pub is_error : Bool

abbrev add_tool : Step → List ToolStep → List ToolStep
add_tool (tool id n act a r running e) ts =
    record { name = n; action = act; result = r; is_running = running; is_error = e } ∷ ts
add_tool _ ts = ts

unfoldable pub tool_steps : List Step → List ToolStep
tool_steps [] = []
tool_steps (s ∷ steps) = add_tool s (tool_steps steps)

abbrev is_object : Value → Bool
is_object (arr vs) = true
is_object (obj ms) = true
is_object _ = false

abbrev is_one : Value → Bool
is_one (num n) = n == 1
is_one _ = false

abbrev is_workflow : Text → Bool
is_workflow id = starts_with (codes "workflow-") id

abbrev pub is_open_thinking : Step → Bool
is_open_thinking (thinking id content complete) = not complete
is_open_thinking _ = false

abbrev is_workflow_thinking : Step → Bool
is_workflow_thinking (thinking id content complete) = is_workflow id
is_workflow_thinking _ = false

abbrev is_thinking : Step → Bool
is_thinking (thinking id content complete) = true
is_thinking _ = false

abbrev is_skill_step : Step → Bool
is_skill_step (skill id skills) = true
is_skill_step _ = false

abbrev thinking_summary : Step → Text
thinking_summary (thinking id content complete) =
    if is_workflow id then content else codes "Thinking"
thinking_summary _ = []

abbrev content_of : Step → Text
content_of (thinking id content complete) = content
content_of _ = []

-- `[...new Set(subjects)][0]` is the first of the subjects there are.
abbrev keep_first : Option Text → Option Text → Option Text
keep_first none b = b
keep_first (some t) b = some t

abbrev filled : Option Text → Option Text
filled none = none
filled (some []) = none
filled (some (c ∷ s)) = some (c ∷ s)

abbrev field : Value → Text → Value
field r name = get_member name r

abbrev size_of : Value → Text → Value
size_of r name = length_of (get_member name r)

module _ (host : Host) where
  open host use {to_string, to_locale_string, to_lower_case}

  -- A noun with its plural after a count: by `typeof count === 'number'`, or for any value.
  abbrev plural : Value → Text → Text → Text
  plural count noun ending = to_string count ++ (noun ++ (if is_one count then [] else ending))

  abbrev numbered : Value → Text → Option Text
  numbered (num n) noun = some (plural (num n) noun (codes "s"))
  numbered _ noun = none

  abbrev or_zero : Value → Value
  or_zero v = nullish_or v (num 0)

  schema_count : Value → Value
  schema_count r = nullish_or (field r (codes "table_count")) (
      nullish_or (size_of r (codes "tables"))
        (nullish_or (field r (codes "count")) (size_of r (codes "databases"))))

  row_summary : Value → Text
  row_summary count =
      to_locale_string count ++ (codes " row" ++ (if is_one count then [] else codes "s"))

  subject_of : Text → Value → Option Text
  unfolding schema_count row_summary
  subject_of name r =
      if text_eq name (codes "get_schema_overview")
      then numbered (schema_count r) (codes " table")
      else if text_eq name (codes "get_database_list")
      then numbered (schema_count r) (codes " database")
      else if text_eq name (codes "get_table_details")
      then numbered (nullish_or (field r (codes "column_count")) (size_of r (codes "columns")))
          (codes " column")
      else if text_eq name (codes "get_table_row_counts")
      then numbered (nullish_or (field r (codes "table_count")) (size_of r (codes "row_counts")))
          (codes " table count")
      else if text_eq name (codes "execute_query")
      then some (row_summary (or_zero (field r (codes "row_count"))))
      else if text_eq name (codes "get_table_indexes")
      then some (
          plural (or_zero (nullish_or (field r (codes "count")) (size_of r (codes "indexes"))))
            (codes " index") (codes "es"))
      else if text_eq name (codes "get_foreign_keys")
      then some (
          plural (or_zero (nullish_or (field r (codes "count")) (size_of r (codes "foreign_keys"))))
            (codes " foreign key") (codes "s"))
      else if text_eq name (codes "list_views")
      then some (plural (or_zero (size_of r (codes "views"))) (codes " view") (codes "s"))
      else if text_eq name (codes "web_search")
      then some (
          plural (or_zero (nullish_or (field r (codes "count")) (size_of r (codes "results"))))
            (codes " source") (codes "s"))
      else none

  unfoldable pub extract_tool_subject : ToolStep → Option Text
  unfolding subject_of
  extract_tool_subject t = if is_object t.result then subject_of t.name t.result else none

  unfoldable pub pick_phase_verb : List ToolStep → Text
  pick_phase_verb ts =
      if is_empty ts
      then codes "Processed"
      else if any (λ t. text_eq t.name (codes "execute_query")) ts
      then codes "Analyzed"
      else codes "Retrieved"

  -- While a tool runs: `completed` are those that have run without an error.
  unfoldable pub running_summary : ToolStep → List ToolStep → Text
  running_summary active [] = active.action
  running_summary active (t ∷ []) = t.action ++ (codes ", now " ++ to_lower_case active.action)
  running_summary active (t ∷ u ∷ ts) =
      t.action
      ++ (codes " and "
          ++ (decimal (length (u ∷ ts)) ++ (codes " more, " ++ to_lower_case active.action)))

  first_subject : List ToolStep → Option Text
  first_subject [] = none
  first_subject (t ∷ ts) = keep_first (filled (extract_tool_subject t)) (first_subject ts)

  -- Three tools or more have run.
  many_summary : List ToolStep → Text
  unfolding first_subject
  many_summary ts =
      let suffix = codes " · " ++ (decimal (length ts) ++ codes " tools used") in
      elim (first_subject ts) [
        | some subject ↦ pick_phase_verb ts ++ (32 ∷ (subject ++ suffix))
        | none ↦ join (codes ", ") (take 2 (map (λ t. t.action) ts)) ++ suffix
      ]

  unfoldable pub done_summary : List ToolStep → Text
  unfolding many_summary
  done_summary [] = codes "Processing"
  done_summary (t ∷ []) = t.action
  done_summary (t ∷ u ∷ []) = join (codes ", ") (t.action ∷ u.action ∷ [])
  done_summary (t ∷ u ∷ v ∷ ts) = many_summary (t ∷ u ∷ v ∷ ts)

  unfoldable pub failed_summary : List ToolStep → Text
  failed_summary (t ∷ []) = t.action ++ codes " (failed)"
  failed_summary ts = decimal (length ts) ++ codes " tools failed"

  -- No tool has run, and nothing is active.
  unfoldable pub toolless_summary : List Step → Text
  toolless_summary steps =
      if any is_thinking steps
      then elim (find is_workflow_thinking steps) [
        | some s ↦ content_of s
        | none ↦ codes "Reasoned through the request"
      ]
      else if any is_skill_step steps
      then codes "Loaded skills"
      else codes "Processing"

  unfoldable pub settled_summary : List Step → Text
  settled_summary steps =
      let completed = filter (λ t. not t.is_running) (tool_steps steps) in
      let failed = filter (λ t. t.is_error) completed in
      if not (is_empty failed)
      then failed_summary failed
      else if is_empty completed
      then toolless_summary steps
      else done_summary completed

  unfoldable pub build_steps_summary : List Step → Text
  build_steps_summary [] = []
  build_steps_summary (s ∷ steps) = elim (find (λ t. t.is_running) (tool_steps (s ∷ steps))) [
    | some active ↦
        running_summary active
          (filter (λ t. not t.is_running && not t.is_error) (tool_steps (s ∷ steps)))
    | none ↦ elim (find is_open_thinking (s ∷ steps)) [
      | some open_step ↦ thinking_summary open_step
      | none ↦ settled_summary (s ∷ steps)
    ]
  ]
