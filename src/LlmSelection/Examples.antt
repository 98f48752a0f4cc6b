-- ===== src/LlmSelection/Examples.antt =====
-- A deployment with two providers, of which the one that was saved has no model any more.
use moonlit_ai_agent.Prelude.{false, none, some, [], ◌∷◌, ◌≡◌, ◌⊎◌, refl, text_eq, codes, filter}
use moonlit_ai_agent.LlmSelection.{Options, Preferences, has_models, resolve_llm_selection}
use moonlit_ai_agent.LlmSelection.Offered.{Offers, resolve_llm_selection-Offers}

abbrev options : Options
options = record {
  providers =
      record { name = codes "a"; models = []; default_model = none }
      ∷ record {
        name = codes "b";
        models = codes "m" ∷ codes "n" ∷ [];
        default_model = some (codes "n");
      }
      ∷ [];
  default_provider = some (codes "a");
  supports_reasoning = λ m. false;
}

abbrev preferences : Preferences
preferences = record { llm_provider = some (codes "a"); llm_model = some (codes "k") }

selected : (resolve_llm_selection options preferences).selected_model ≡ codes "n"
unfolding resolve_llm_selection text_eq
selected = refl

resolve_llm_selection-Offers_example :
    ((filter has_models options.providers ≡ [])
      × (((resolve_llm_selection options preferences).selected_provider ≡ [])
          × ((resolve_llm_selection options preferences).selected_model ≡ [])))
    ⊎ Offers options.providers
        (resolve_llm_selection options preferences).selected_provider
        (resolve_llm_selection options preferences).selected_model
resolve_llm_selection-Offers_example = resolve_llm_selection-Offers options preferences
