-- ===== src/ToolResults/WebSearch.antt =====
-- front-end/src/features/chat/ai-response-steps/toolResultPresentation.js: the results of a search of
-- the web. `new URL` is a parameter, which gives the protocol, or nothing when it throws.
use moonlit_ai_agent.Prelude.{
  ℕ, zero, suc, Bool, false, Option, none, some, List, [], ◌∷◌, Text, text_eq, codes, ◌||◌,
  if◌then◌else◌,
}
use moonlit_ai_agent.Prelude.Json.{Value, Values, str, arr, nil, cons, get_member}
use moonlit_ai_agent.ToolResults.{text_of}

pub record WebResult : Type 0 where
  pub title : Text
  pub url : Text
  pub content : Text

unfoldable pub is_web : Option Text → Bool
is_web none = false
is_web (some p) = text_eq p (codes "http:") || text_eq p (codes "https:")

module _ (protocol : Text → Option Text) where
  abbrev web_result : Value → Value → Option WebResult
  web_result (str s) item =
      if is_web (protocol s)
      then some (record {
        title = text_of (get_member (codes "title") item);
        url = s;
        content = text_of (get_member (codes "content") item);
      })
      else none
  web_result _ item = none

  unfoldable pub web_results : ℕ → Values → List WebResult
  web_results n nil = []
  web_results zero (cons v vs) = []
  web_results (suc n) (cons v vs) = elim (web_result (get_member (codes "url") v) v) [
    | none ↦ web_results n vs
    | some r ↦ r ∷ web_results n vs
  ]

  unfoldable pub get_web_search_items : Value → List WebResult
  get_web_search_items result = elim (get_member (codes "results") result) [
    | arr vs ↦ web_results 5 vs
    | _ ↦ []
  ]
