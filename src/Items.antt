-- ===== src/Items.antt =====
-- front-end/src/hooks/chat-page/useMessageStreaming.js: what the events of a response do to its
-- timeline, `eventTimeline`.
pub mod Texts
pub mod Tools
pub mod Skills
mod Examples
use moonlit_ai_agent.Prelude.{
  ℕ, Bool, true, false, Option, none, some, List, [], ◌∷◌, ◌++◌, Text, text_eq, codes, decimal, map,
  any, is_empty, includes, length, ◌||◌, ◌&&◌, if◌then◌else◌,
}
use moonlit_ai_agent.Prelude.Json.{Value}
use moonlit_ai_agent.Message.{Item, text, thinking, tool, skill, ToolStatus}

abbrev numbered : Text → List Item → Option Text
numbered prefix items = some (prefix ++ decimal (length items))

-- What a token makes of the last entry: text is extended, behind any other text is begun. `all` is
-- the whole timeline, for its length.
abbrev pub extend_text : Text → List Item → Item → List Item
extend_text content all (text id old) = text id (old ++ content) ∷ []
extend_text content all i = i ∷ text (numbered (codes "text-") all) content ∷ []

-- `token`.
unfoldable pub append_token : Text → List Item → List Item → List Item
append_token content all [] = text (numbered (codes "text-") all) content ∷ []
append_token content all (i ∷ []) = extend_text content all i
append_token content all (i ∷ j ∷ is) = i ∷ append_token content all (j ∷ is)

-- So too for reasoning, which is then incomplete.
abbrev pub extend_thinking : Text → List Item → Item → List Item
extend_thinking content all (thinking id old complete) = thinking id (old ++ content) false ∷ []
extend_thinking content all i = i ∷ thinking (numbered (codes "thinking-") all) content false ∷ []

-- `thinking_token`.
unfoldable pub append_thinking : Text → List Item → List Item → List Item
append_thinking content all [] = thinking (numbered (codes "thinking-") all) content false ∷ []
append_thinking content all (i ∷ []) = extend_thinking content all i
append_thinking content all (i ∷ j ∷ is) = i ∷ append_thinking content all (j ∷ is)

abbrev pub complete_thinking : Item → Item
complete_thinking (thinking id content _) = thinking id content true
complete_thinking i = i

unfoldable pub start_tool : Text → Value → List Item → List Item
start_tool name args items =
    map complete_thinking items
    ++ tool (numbered (codes "tool-" ++ (name ++ codes "-")) items) name ToolStatus.running args
        Value.null
      ∷ []

abbrev pub is_running_tool : Text → Item → Bool
is_running_tool name (tool id n ToolStatus.running args result) = text_eq n name
is_running_tool name _ = false

abbrev pub finish_tool : Value → Value → Item → Item
finish_tool args result (tool id n status _ _) = tool id n ToolStatus.done args result
finish_tool args result i = i

-- `tool_end`: the last running call of the tool, searched from the end.
unfoldable pub end_tool : Text → Value → Value → List Item → List Item
end_tool name args result [] = []
end_tool name args result (i ∷ is) =
    if any (is_running_tool name) is
    then i ∷ end_tool name args result is
    else (if is_running_tool name i then finish_tool args result i else i) ∷ is

-- `Array.from(new Set(…))`.
abbrev pub contains : Text → List Text → Bool
contains t = any (λ u. text_eq u t)

add_new : List Text → List Text → List Text
add_new seen [] = seen
add_new seen (t ∷ ts) = add_new (if contains t seen then seen else seen ++ t ∷ []) ts

unfoldable pub unique : List Text → List Text
unfolding add_new
unique ts = add_new [] ts

abbrev pub is_skill : Item → Bool
is_skill (skill id skills) = true
is_skill _ = false

abbrev pub extend_skill : List Text → Item → Item
extend_skill incoming (skill id skills) = skill id (unique (skills ++ incoming))
extend_skill incoming i = i

-- The first entry of the kind is changed.
unfoldable pub update_first : (Item → Bool) → (Item → Item) → List Item → List Item
update_first test change [] = []
update_first test change (i ∷ is) =
    if test i then change i ∷ is else i ∷ update_first test change is

unfoldable pub activate_skills : List Text → List Item → List Item
unfolding update_first
activate_skills incoming items =
    if any is_skill items
    then update_first is_skill (extend_skill incoming) items
    else if is_empty incoming
    then items
    else items ++ skill (some (codes "skills-activated")) incoming ∷ []

abbrev pub item_id : Item → Option Text
item_id (text id _) = id
item_id (thinking id _ _) = id
item_id (tool id _ _ _ _) = id
item_id (skill id _) = id

abbrev pub has_id : Text → Item → Bool
has_id t i = elim (item_id i) [ none ↦ false | some id ↦ text_eq id t ]

-- An entry that the id finds is reasoning, as only these get an id `workflow-…`.
abbrev pub set_status : Text → Bool → Item → Item
set_status content is_done (thinking id _ _) = thinking id content is_done
set_status content is_done i = i

abbrev pub text_or : Option Text → Text → Text
text_or none fallback = fallback
text_or (some []) fallback = fallback
text_or (some (c ∷ s)) fallback = c ∷ s

abbrev pub step_id : Option Text → Text
step_id stage = codes "workflow-" ++ text_or stage (codes "status")

unfoldable pub show_status : Option Text → Option Text → Bool → List Item → List Item
unfolding update_first
show_status stage content is_done items =
    let id = step_id stage in
    let shown = text_or content (codes "Preparing context") in
    if any (has_id id) items
    then update_first (has_id id) (set_status shown is_done) items
    else items ++ thinking (some id) shown is_done ∷ []

abbrev is_text : Option Text → Text → Bool
is_text none t = false
is_text (some s) t = text_eq s t

-- The reports that are not shown.
unfoldable pub is_hidden_status : Option Text → Option Text → Bool
unfolding includes
is_hidden_status stage content =
    is_text stage (codes "checkpointing_task")
    || is_text content (codes "Context summarization bypassed.")
    || (is_text stage (codes "summarizing_context")
        && elim content [ none ↦ false | some c ↦ includes (codes "bypassed") c ])
