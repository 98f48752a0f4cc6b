-- ===== src/Timeline/Replay.antt =====
-- The tool calls that a response shows as running, against the reports of the server.
use moonlit_ai_agent.Prelude.{
  ℕ, ◌+◌, ◌-◌, ◌≡◌, refl, Bool, List, [], ◌∷◌, Text, text_eq, if◌then◌else◌, arith, ◌∙◌, ap,
}
use moonlit_ai_agent.Items.Tools.{
  one_if, running_count, running_count-start_tool, running_count-end_tool,
  running_count-append_token, running_count-append_thinking, running_count-activate_skills,
  running_count-show_status,
}
use moonlit_ai_agent.Timeline.{
  Event, token, tool_start, tool_end, thinking_token, skills_activated, workflow_status, Stream,
  handle_event, handle_events,
}

-- The counter of a tool that only looks at the reports: one more for each start, one less, if
-- there is one, for each end.
abbrev pub count_report : Text → Event → ℕ → ℕ
count_report m (tool_start name _) n = n + one_if (text_eq name m)
count_report m (tool_end name _ _) n = if text_eq name m then n - 1 else n
count_report m _ n = n

abbrev pub count_reports : Text → List (Bool × Event) → ℕ → ℕ
count_reports m [] n = n
count_reports m ((due, e) ∷ es) n = count_reports m es (count_report m e n)

running_count-handle_event :
    (m : Text) (due : Bool) (e : Event) (s : Stream)
    → running_count m (handle_event due e s).0.event_timeline
      ≡ count_report m e (running_count m s.event_timeline)
unfolding handle_event
running_count-handle_event m due (token content) s = running_count-append_token m content _ _
running_count-handle_event m due (tool_start name args) s = running_count-start_tool m name args _
running_count-handle_event m due (tool_end name args result) s =
    running_count-end_tool m name args result _
running_count-handle_event m due (thinking_token content) s =
    running_count-append_thinking m content _ _
running_count-handle_event m due (skills_activated incoming) s =
    running_count-activate_skills m incoming _
running_count-handle_event m due (workflow_status stage content is_done) s =
    ground (arith, running_count-show_status m stage content is_done s.event_timeline)
running_count-handle_event m due _ s = refl

-- After any events, from any state of the closure, the timeline shows as many running calls of a
-- tool as the counter of the server's reports says, whatever else the response brings in between.
pub handle_events-running_count :
    (m : Text) (es : List (Bool × Event)) (s : Stream)
    → running_count m (handle_events es s).event_timeline
      ≡ count_reports m es (running_count m s.event_timeline)
handle_events-running_count m [] s = refl
handle_events-running_count m ((due, e) ∷ es) s =
    handle_events-running_count m es (handle_event due e s).0
    ∙ ap (count_reports m es) (running_count-handle_event m due e s)
