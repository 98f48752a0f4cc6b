-- ===== src/Steps/Failures.antt =====
-- What the summary says of tools that failed.
use moonlit_ai_agent.Prelude.{
  ◌≡◌, refl, true, false, not, none, List, [], ◌∷◌, any, find, filter, is_empty, arith,
}
use moonlit_ai_agent.Steps.{Step, thinking, skill, tool, is_active_step, is_any_step_active}
use moonlit_ai_agent.Steps.Summary.{
  Host, ToolStep, tool_steps, failed_summary, settled_summary, build_steps_summary,
  is_open_thinking,
}

idle-tools :
    (steps : List Step)
    → any is_active_step steps ≡ false
    → (find (λ t. t.is_running) (tool_steps steps) ≡ none)
      × (find is_open_thinking steps ≡ none)
      × (filter (λ t. not t.is_running) (tool_steps steps) ≡ tool_steps steps)
unfolding tool_steps
idle-tools [] h = (refl, refl, refl)
idle-tools (thinking id c d ∷ steps) h = ground (arith, idle-tools steps)
idle-tools (skill id s ∷ steps) h = idle-tools steps h
idle-tools (tool id n act a r running e ∷ steps) h = ground (arith, idle-tools steps)

filter-filled :
    (ts : List ToolStep)
    → any (λ t. t.is_error) ts ≡ true
    → is_empty (filter (λ t. t.is_error) ts) ≡ false
filter-filled [] h = cc
filter-filled (t ∷ ts) h = ground (arith, filter-filled ts)

-- When no step is active any more and a tool has failed, the summary speaks of the failed tools, of
-- all of them, whatever the other steps are.
pub build_steps_summary-failed :
    (host : Host) (steps : List Step)
    → is_any_step_active steps ≡ false
    → any (λ t. t.is_error) (tool_steps steps) ≡ true
    → build_steps_summary host steps
      ≡ failed_summary host (filter (λ t. t.is_error) (tool_steps steps))
unfolding build_steps_summary settled_summary is_any_step_active
build_steps_summary-failed host [] h k = unfold tool_steps in cc
build_steps_summary-failed host (s ∷ steps) h k =
    let (tools, thoughts, kept) = idle-tools (s ∷ steps) h in
    rw (tools, build_steps_summary)
      (rw (thoughts, build_steps_summary)
        (rw (kept, settled_summary) (rw (filter-filled (tool_steps (s ∷ steps)) k) refl)))
