-- ===== src/LlmSelection.antt =====
-- front-end/src/config/llmSelection.js: which of the deployment's models a chat uses.
pub mod Offered
mod Examples
use moonlit_ai_agent.Prelude.{
  ℕ, Bool, true, false, not, Option, none, some, List, [], ◌∷◌, Text, text_eq, codes, any, find,
  filter, is_empty, if◌then◌else◌,
}

pub record Provider : Type 0 where
  pub name : Text
  pub models : List Text
  pub default_model : Option Text

-- `supports_reasoning` is true of the models whose capabilities say so.
pub record Options : Type 0 where
  pub providers : List Provider
  pub default_provider : Option Text
  pub supports_reasoning : Text → Bool

pub record Preferences : Type 0 where
  pub llm_provider : Option Text
  pub llm_model : Option Text

pub record Selection : Type 0 where
  pub selected_provider : Text
  pub selected_model : Text
  pub supports_reasoning : Bool

abbrev pub has_models : Provider → Bool
has_models p = not (is_empty p.models)

abbrev pub includes_model : Option Text → List Text → Bool
includes_model none models = false
includes_model (some m) models = any (λ n. text_eq n m) models

abbrev pub find_named : Option Text → List Provider → Option Provider
find_named none providers = none
find_named (some name) providers = find (λ p. text_eq p.name name) providers

abbrev pub head : {A : Type 0} → List A → Option A
head [] = none
head (x ∷ xs) = some x

abbrev pub or_else : {A : Type 0} → Option A → Option A → Option A
or_else none b = b
or_else (some a) b = some a

abbrev pub text_or_empty : Option Text → Text
text_or_empty none = []
text_or_empty (some t) = t

abbrev pub select_model : Option Text → Option Text → List Text → Text
select_model saved standard models =
    if includes_model saved models
    then text_or_empty saved
    else if includes_model standard models
    then text_or_empty standard
    else text_or_empty (head models)

abbrev pub selection_of : Options → Preferences → Option Provider → Selection
selection_of o s none = record {
  selected_provider = [];
  selected_model = [];
  supports_reasoning = o.supports_reasoning [];
}
selection_of o s (some p) =
    let model = select_model s.llm_model p.default_model p.models in
    record {
      selected_provider = p.name;
      selected_model = model;
      supports_reasoning = o.supports_reasoning model;
    }

unfoldable pub resolve_llm_selection : Options → Preferences → Selection
resolve_llm_selection o s =
    let providers = filter has_models o.providers in
    selection_of o s (
      or_else (find_named s.llm_provider providers)
        (or_else (find_named o.default_provider providers) (head providers)))

unfoldable pub get_model_display_name : Text → Text
get_model_display_name model =
    if text_eq model (codes "moonshotai.kimi-k2.5")
    then codes "Kimi K2.5"
    else if text_eq model (codes "openai.gpt-oss-120b-1:0")
    then codes "GPT OSS 120B"
    else if text_eq model (codes "mistral.devstral-2-123b")
    then codes "Devstral 2"
    else model
