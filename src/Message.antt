-- ===== src/Message.antt =====
-- front-end/src/utils/chatMessages.js: messages of a conversation and how they are made.
-- Arguments and results of tools and usage figures are JSON values. `crypto.randomUUID` and the clock, which make
-- the part of an id that is new, are the caller's: ids are arguments.
pub mod Upsert
pub mod Stored
mod Examples
use moonlit_ai_agent.Prelude.{
  ℕ, ◌+◌, Bool, true, false, Option, none, some, List, [], ◌∷◌, ◌++◌, Text, text_eq, trim, is_empty,
  any, codes, decimal, if◌then◌else◌, ◌||◌, map, zero, suc,
}
use moonlit_ai_agent.Prelude.Json.{Value}

pub data MessageStatus : Type 0 where
  waiting streaming done stopped error paused : MessageStatus

pub data Role : Type 0 where
  user assistant : Role

-- A tool's `status`: the text `running`, `done` or `error`, or whatever a stored record says.
pub data ToolStatus : Type 0 where
  running done error : ToolStatus
  other : Text → ToolStatus

-- An entry of a timeline or of the steps, by its `type`. Each has its `id`, where it has one.
pub data Item : Type 0 where
  text : Option Text → Text → Item
  thinking : Option Text → Text → Bool → Item
  tool : Option Text → Text → ToolStatus → Value → Value → Item
  skill : Option Text → List Text → Item

pub record Message : Type 0 where
  pub id : Text
  pub role : Role
  pub text : Text
  pub steps : List Item
  pub timeline : List Item
  pub status : MessageStatus
  pub usage : Option Value

-- A tool call of a message that was stored before timelines were.
pub record StoredTool : Type 0 where
  pub name : Text
  pub status : Option ToolStatus
  pub args : Value
  pub result : Value

-- The arguments of `createAssistantMessage`; `none` stands for `null`.
pub record AssistantOptions : Type 0 where
  pub id : Text
  pub raw_content : Text
  pub thinking : Option Text
  pub tools : Option (List StoredTool)
  pub status : MessageStatus
  pub text_override : Option Text
  pub steps_override : Option (List Item)
  pub timeline_override : Option (List Item)
  pub usage : Option Value

pub record Parsed : Type 0 where
  pub text : Text
  pub steps : List Item
  pub timeline : List Item

unfoldable pub create_user_message : Text → Text → Message
create_user_message id content = record {
  id = id;
  role = user;
  text = content;
  steps = [];
  timeline = [];
  status = done;
  usage = none;
}

abbrev pub or_nil {ℓ} : {A : Type ℓ} → Option (List A) → List A
or_nil none = []
or_nil (some xs) = xs

-- `item.id || …`: no id, and the empty one, are replaced.
abbrev id_or : Option Text → Text → Option Text
id_or none fallback = some fallback
id_or (some []) fallback = some fallback
id_or (some (c ∷ s)) fallback = some (c ∷ s)

abbrev legacy_id : Text → ℕ → Text
legacy_id type idx = type ++ (codes "-legacy-" ++ decimal idx)

-- The steps of a stored timeline: its tool calls and its reasoning, each with an id.
timeline_steps : ℕ → List Item → List Item
timeline_steps idx [] = []
timeline_steps idx (text id content ∷ items) = timeline_steps idx items
timeline_steps idx (skill id skills ∷ items) = timeline_steps idx items
timeline_steps idx (thinking id content complete ∷ items) =
    thinking (id_or id (legacy_id (codes "thinking") idx)) content complete
    ∷ timeline_steps (idx + 1) items
timeline_steps idx (tool id name status args result ∷ items) =
    tool (id_or id (legacy_id (codes "tool") idx)) name status args result
    ∷ timeline_steps (idx + 1) items

abbrev status_or_done : Option ToolStatus → ToolStatus
status_or_done none = ToolStatus.done
status_or_done (some (other [])) = ToolStatus.done
status_or_done (some s) = s

legacy_tools : ℕ → List StoredTool → List Item
legacy_tools index [] = []
legacy_tools index (t ∷ ts) =
    tool (some (codes "tool-" ++ (t.name ++ (codes "-" ++ decimal index)))) t.name
      (status_or_done t.status) t.args t.result
    ∷ legacy_tools (index + 1) ts

abbrev trimmed_or_nil : Option Text → Text
trimmed_or_nil none = []
trimmed_or_nil (some t) = trim t

abbrev legacy_thinking : Text → List Item
legacy_thinking [] = []
legacy_thinking (c ∷ s) = thinking none (c ∷ s) true ∷ []

abbrev legacy_text : Text → List Item
legacy_text [] = []
legacy_text (c ∷ s) = text none (c ∷ s) ∷ []

-- A message with no timeline: its reasoning, then its tool calls, then its text.
unfoldable pub parse_legacy : Text → Option Text → Option (List StoredTool) → Parsed
unfolding legacy_tools
parse_legacy parsed thoughts tools =
    let steps = legacy_thinking (trimmed_or_nil thoughts) ++ legacy_tools 0 (or_nil tools) in
    record {
      text = parsed;
      steps = steps;
      timeline = if is_empty steps then [] else steps ++ legacy_text parsed;
    }

unfoldable pub parse_assistant_content :
    Text → Option Text → Option (List StoredTool) → Option (List Item) → Parsed
unfolding parse_legacy timeline_steps
parse_assistant_content raw thoughts tools (some (i ∷ is)) = record {
  text = trim raw;
  steps = timeline_steps 0 (i ∷ is);
  timeline = i ∷ is;
}
parse_assistant_content raw thoughts tools _ = parse_legacy (trim raw) thoughts tools

abbrev text_or_nil : Option Text → Text
text_or_nil none = []
text_or_nil (some t) = t

abbrev is_given {ℓ} : {A : Type ℓ} → Option A → Bool
is_given none = false
is_given (some a) = true

parsed_of : AssistantOptions → Parsed
parsed_of o =
    if is_given o.text_override || is_given o.steps_override
    then record {
      text = text_or_nil o.text_override;
      steps = or_nil o.steps_override;
      timeline = or_nil o.timeline_override;
    }
    else parse_assistant_content o.raw_content o.thinking o.tools o.timeline_override

unfoldable pub create_assistant_message : AssistantOptions → Message
unfolding parsed_of
create_assistant_message o =
    let parsed = parsed_of o in
    record {
      id = o.id;
      role = assistant;
      text = parsed.text;
      steps = parsed.steps;
      timeline = parsed.timeline;
      status = o.status;
      usage = o.usage;
    }

unfoldable pub is_message_active : Option Message → Bool
is_message_active none = false
is_message_active (some m) = elim m.status [ waiting ↦ true | streaming ↦ true | _ ↦ false ]
