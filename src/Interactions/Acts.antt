-- ===== src/Interactions/Acts.antt =====
-- front-end/src/hooks/chat-page/useChatPageStreaming.js: the operations in any order.
use moonlit_ai_agent.Prelude.{Bool, List, [], ◌∷◌, Text}
use moonlit_ai_agent.Prelude.Json.{Value}
use moonlit_ai_agent.Message.{Message}
use moonlit_ai_agent.Session.{Interaction}
use moonlit_ai_agent.Interactions.{
  Desk, change, without_pending, answer, queue_interaction, handle_task_mode_resolved,
  dispatch_ui_action, leave_session, present_pending,
}

-- `begins` is a request of the session, which forgets what waits; `writes` is a change of its
-- messages.
pub data DeskAction : Type 0 where
  queues dispatches : Interaction → DeskAction
  answers_with : Interaction → Bool → DeskAction
  resolves_mode : Text → Value → DeskAction
  leaves presents : DeskAction
  selects begins : Text → DeskAction
  writes : Text → (List Message → List Message) → DeskAction

abbrev pub desk_act : DeskAction → Desk → Desk
desk_act (queues i) d = queue_interaction i d
desk_act (dispatches i) d = dispatch_ui_action i d
desk_act (answers_with i approved) d = answer i approved d
desk_act (resolves_mode k event) d = handle_task_mode_resolved k event d
desk_act leaves d = leave_session d
desk_act presents d = present_pending d
desk_act (selects k) d = record d { world = record d.world { active_key = k } }
desk_act (begins k) d = change k without_pending d
desk_act (writes k f) d = change k (λ s. record s { messages = f s.messages }) d

abbrev pub desk_acts : List DeskAction → Desk → Desk
desk_acts [] d = d
desk_acts (a ∷ later) d = desk_acts later (desk_act a d)
