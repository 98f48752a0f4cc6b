-- ===== src/Executions/Examples.antt =====
-- Concrete reads: six of them are asked for, and the third one ends.
use moonlit_ai_agent.Prelude.{
  ℕ, ◌≤◌, ◌≡◌, refl, false, List, [], ◌∷◌, ◌++◌, Text, codes, length, lookup, insert, delete,
  text_eq,
}
use moonlit_ai_agent.Executions.{
  Read, no_executions, drain, schedule, get_execution_result, settle, max_concurrent, max_cached,
}
use moonlit_ai_agent.Executions.Steps.{Step, ask, steps}
use moonlit_ai_agent.Executions.Scheduled.{IsScheduled, steps-no_executions-IsScheduled}
use moonlit_ai_agent.Executions.Cached.{ask-again}
use moonlit_ai_agent.Executions.Waiting.{settle-next}

abbrev six : List Step
six =
    ask (codes "c") (codes "0")
    ∷ ask (codes "c") (codes "1")
    ∷ ask (codes "c") (codes "2")
    ∷ ask (codes "c") (codes "3")
    ∷ ask (codes "c") (codes "4")
    ∷ ask (codes "c") (codes "5")
    ∷ []

abbrev read : ℕ → Text → Read
read n key = record { id = n; key = codes "c:" ++ key }

queue-six : (steps six no_executions).queue ≡ read 4 (codes "4") ∷ read 5 (codes "5") ∷ []
unfolding get_execution_result schedule drain lookup insert delete text_eq
queue-six = refl

steps-no_executions-IsScheduled_example : IsScheduled (steps six no_executions)
steps-no_executions-IsScheduled_example = steps-no_executions-IsScheduled six

settle-next_example :
    ((settle 2 false (steps six no_executions)).started
      ≡ (steps six no_executions).started ++ 4 ∷ [])
    × ((settle 2 false (steps six no_executions)).queue ≡ read 5 (codes "5") ∷ [])
    × ((settle 2 false (steps six no_executions)).active ≡ max_concurrent)
unfolding get_execution_result schedule drain lookup insert delete text_eq
settle-next_example =
    settle-next six 2 false (read 2 (codes "2")) (read 4 (codes "4")) (read 5 (codes "5") ∷ []) refl
      queue-six

ask-again_example :
    (length (steps six no_executions).requests ≤ max_cached)
    × (get_execution_result
          (codes "c")
          (codes "9")
          (get_execution_result (codes "c") (codes "9") (steps six no_executions)).0
        ≡ get_execution_result (codes "c") (codes "9") (steps six no_executions))
ask-again_example = ask-again six (codes "c") (codes "9")
