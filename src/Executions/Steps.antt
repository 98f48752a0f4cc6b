-- ===== src/Executions/Steps.antt =====
-- front-end/src/api/conversations.js: the calls and the ends of reads, in any order.
use moonlit_ai_agent.Prelude.{ℕ, Bool, List, [], ◌∷◌, Text}
use moonlit_ai_agent.Executions.{Executions, get_execution_result, settle}

pub data Step : Type 0 where
  ask : (conversation_id execution_id : Text) → Step
  ends : ℕ → Bool → Step

abbrev pub step : Step → Executions → Executions
step (ask conversation_id execution_id) s = (get_execution_result conversation_id execution_id s).0
step (ends n ok) s = settle n ok s

abbrev pub steps : List Step → Executions → Executions
steps [] s = s
steps (a ∷ rest) s = steps rest (step a s)
