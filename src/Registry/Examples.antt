-- ===== src/Registry/Examples.antt =====
-- The registry in short sessions.
use moonlit_ai_agent.Prelude.{
  ◌≡◌, refl, some, List, [], ◌∷◌, codes, lookup, insert, delete, text_eq,
}
use moonlit_ai_agent.Registry.{
  Registry, empty, start, finish, stop, stop_all, new_entry, Call, starts, finishes, stops,
  stops_all, run,
}
use moonlit_ai_agent.Registry.Settled.{IsBalanced, run-IsBalanced}

abbrev session : List Call
session =
    starts (codes "a")
    ∷ starts (codes "b")
    ∷ finishes (codes "b") 1
    ∷ starts (codes "b")
    ∷ finishes (codes "b") 1
    ∷ stops (codes "a")
    ∷ stops_all
    ∷ []

session_settled : (run session empty).aborted ≡ (codes "b", 2) ∷ (codes "a", 1) ∷ []
unfolding start finish stop stop_all lookup insert delete text_eq
session_settled = refl

run-IsBalanced_example : IsBalanced (run session empty)
run-IsBalanced_example = run-IsBalanced session

abbrev after_start : Registry
after_start = record empty {
  streams = (codes "a", new_entry 1) ∷ [];
  generations = (codes "a", 1) ∷ [];
}

first_start : start (codes "a") empty ≡ (after_start, some (new_entry 1))
unfolding start lookup insert
first_start = refl

abbrev replaced : Registry
replaced = (start (codes "a") (run (stops (codes "a") ∷ []) after_start)).0

second_start :
    start (codes "a") (run (stops (codes "a") ∷ []) after_start) ≡ (replaced, some (new_entry 2))
unfolding start stop lookup insert delete text_eq
second_start = refl
