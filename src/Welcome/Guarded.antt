-- ===== src/Welcome/Guarded.antt =====
-- front-end/src/features/chat/welcomeSuggestions.js: how often something begins under the guard.
use moonlit_ai_agent.Prelude.{ℕ, ◌+◌, ◌≤◌, Bool, true, false, Option, some, List, [], ◌∷◌, arith}
use moonlit_ai_agent.Welcome.{
  Outcome, returned, thrown, begin_welcome_stage_transition, run_guarded_welcome_activation,
  complete_transition,
}

pub data Act : Type 0 where
  stage activation : Outcome → Act
  completes : Act

-- How often something has begun, and how often a transition was completed.
pub record Guarded : Type 0 where
  pub locked : Bool
  pub begun : ℕ
  pub completed : ℕ

abbrev pub new_guarded : Guarded
new_guarded = record { locked = false; begun = 0; completed = 0 }

abbrev has_begun : Option Outcome → ℕ
has_begun (some (returned true)) = 1
has_begun _ = 0

abbrev after : Option Outcome × Bool → Guarded → Guarded
after (o, locked) g = record g { locked = locked; begun = g.begun + has_begun o }

abbrev pub act : Act → Guarded → Guarded
act (stage o) g = after (begin_welcome_stage_transition o g.locked) g
act (activation o) g = after (run_guarded_welcome_activation o g.locked) g
act completes g = record g { locked = complete_transition g.locked; completed = g.completed + 1 }

abbrev pub acts : List Act → Guarded → Guarded
acts [] g = g
acts (a ∷ rest) g = acts rest (act a g)

weight : Bool → ℕ
weight true = 1
weight false = 0

act-le :
    (a : Act) (g : Guarded)
    → g.begun ≤ g.completed + weight g.locked
    → (act a g).begun ≤ (act a g).completed + weight (act a g).locked
unfolding weight begin_welcome_stage_transition run_guarded_welcome_activation
act-le (stage (returned b)) g h = ground arith
act-le (stage thrown) g h = ground arith
act-le (activation (returned b)) g h = ground arith
act-le (activation thrown) g h = ground arith
act-le completes g h = ground arith

acts-le :
    (xs : List Act) (g : Guarded)
    → g.begun ≤ g.completed + weight g.locked
    → (acts xs g).begun ≤ (acts xs g).completed + weight (acts xs g).locked
acts-le [] g h = h
acts-le (a ∷ rest) g h = acts-le rest (act a g) (act-le a g h)

weight-le : (b : Bool) → weight b ≤ 1
unfolding weight
weight-le true = omega arith
weight-le false = omega arith

-- Whatever is tried, throws or is completed in a new chat, stages and suggestions together begin at
-- most once more often than a transition is completed.
pub begun-acts : (xs : List Act) → (acts xs new_guarded).begun ≤ (acts xs new_guarded).completed + 1
unfolding weight
begun-acts xs =
    omega (arith, acts-le xs new_guarded (omega arith), weight-le (acts xs new_guarded).locked)
