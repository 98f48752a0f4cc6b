-- ===== src/Interactions.antt =====
-- front-end/src/hooks/chat-page/useChatPageStreaming.js: what waits for the user's answer, and the
-- session that owns it. The dialog's answer may come at any time, from a dialog that is gone too.
-- The dialog's texts, and the SQL editor that opens beside it, are not modelled.
pub mod Acts
pub mod Answers
pub mod Pending
pub mod Away
pub mod Visit
pub mod Leaving
mod Examples
use moonlit_ai_agent.Prelude.{
  ℕ, Bool, true, false, Option, none, some, List, [], ◌∷◌, Text, text_eq, codes, not, ◌==◌, ◌&&◌,
  if◌then◌else◌,
}
use moonlit_ai_agent.Prelude.Json.{
  Value, undefined, null, str, Members, obj, member, end, get_member, is_truthy, nullish_or,
  value_or,
}
use moonlit_ai_agent.Session.{
  ChatSession, Interaction, InteractionType, agent_interrupt, step_limit, ui_action, UnreadActivity,
  attention, queue_chat_session_interaction,
}
use moonlit_ai_agent.Store.{World, get_session, update_session, is_session_active}

-- The page with the interaction it presents, the one that its dialog is open for, the answers that
-- the agent was resumed with, and the actions that were dispatched to the interface.
pub record Desk : Type 0 where
  pub world : World
  pub presented : Option Interaction
  pub dialog : Option Interaction
  pub answers : List (Interaction × Bool)
  pub dispatched : List Value

abbrev pub is_same : Interaction → Option Interaction → Bool
is_same i none = false
is_same i (some j) = j.ref == i.ref

abbrev pub pending_of : Option ChatSession → Option Interaction
pending_of none = none
pending_of (some s) = s.pending_interaction

abbrev pub without_pending : ChatSession → ChatSession
without_pending s = record s { pending_interaction = none; unread_activity = none }

abbrev pub change : Text → (ChatSession → ChatSession) → Desk → Desk
change k f d = record d { world = update_session k f d.world }

abbrev pub is_pending : Interaction → Desk → Bool
is_pending i d = is_same i (pending_of (get_session i.session_key d.world))

unfoldable pub clear_pending_interaction : Interaction → Desk → Desk × Bool
clear_pending_interaction i d =
    if is_pending i d
    then (
      change i.session_key without_pending
          (record d { presented = if is_same i d.presented then none else d.presented }),
      true,
    )
    else (d, false)

-- A step limit that is cancelled is only cleared.
abbrev pub is_answered : InteractionType → Bool → Bool
is_answered agent_interrupt approved = true
is_answered step_limit approved = approved
is_answered ui_action approved = false

-- `onConfirm` and `onCancel` of the dialog.
unfoldable pub answer : Interaction → Bool → Desk → Desk
answer i approved d =
    let (cleared, ok) = clear_pending_interaction i d in
    if ok && is_answered i.type approved
    then record cleared { answers = (i, approved) ∷ cleared.answers }
    else cleared

-- `handleAgentInterrupt` and `handleAgentStepLimitReached`.
unfoldable pub queue_interaction : Interaction → Desk → Desk
queue_interaction i d =
    change i.session_key
      (λ s. queue_chat_session_interaction s i (is_session_active i.session_key d.world)) d

unfoldable pub task_mode_of : Value → Value
task_mode_of event =
    let mode = get_member (codes "task_mode") event in
    obj (
      member (codes "task_mode") (value_or mode (str (codes "normal"))) (
        member (codes "label")
          (value_or (get_member (codes "label") event) (value_or mode (str (codes "Standard"))))
          (member (codes "recursion_limit")
            (nullish_or (get_member (codes "recursion_limit") event) null)
            (member (codes "source")
              (value_or (get_member (codes "source") event) (str (codes "user"))) end))))

unfoldable pub handle_task_mode_resolved : Text → Value → Desk → Desk
handle_task_mode_resolved k event d =
    change k (λ s. record s { effective_task_mode = some (task_mode_of event) }) d

abbrev is_text : Text → Value → Bool
is_text t (str s) = text_eq s t
is_text t _ = false

abbrev value_or_none : Value → Option Value
value_or_none v = if is_truthy v then some v else none

abbrev pub with_usage : Value → ChatSession → ChatSession
with_usage event s = record s { usage_metrics = value_or_none (get_member (codes "payload") event) }

-- `dispatchUiActionStable`: an action for a session that is not shown waits there.
unfoldable pub dispatch_ui_action : Interaction → Desk → Desk
dispatch_ui_action i d =
    if is_text (codes "usage_metrics") (get_member (codes "action") i.event)
    then change i.session_key (with_usage i.event) d
    else if not (is_session_active i.session_key d.world)
    then change i.session_key (λ s. queue_chat_session_interaction s i false) d
    else record d { dispatched = i.event ∷ d.dispatched }

abbrev pub with_attention : ChatSession → ChatSession
with_attention s = record s { unread_activity = some attention }

abbrev pub marked : Interaction → Desk → Desk
marked i d = if is_pending i d then change i.session_key with_attention d else d

abbrev pub leave_presented : Option Interaction → Desk → Desk
leave_presented none d = d
leave_presented (some i) d =
    if text_eq i.session_key d.world.active_key
    then d
    else record (marked i d) { presented = none; dialog = none }

-- The effect that runs when another session becomes active: what is presented goes back to its
-- session, and the dialog closes.
unfoldable pub leave_session : Desk → Desk
leave_session d = leave_presented d.presented d

abbrev pub present_new : Interaction → InteractionType → Desk → Desk
present_new i ui_action d =
    let cleared = change d.world.active_key without_pending d in
    record cleared { dispatched = i.event ∷ cleared.dispatched }
present_new i _ d = record d { presented = some i; dialog = some i }

-- The effect that presents what the active session waits with.
unfoldable pub present_pending : Desk → Desk
present_pending d = elim (pending_of (get_session d.world.active_key d.world)) [
  | none ↦ d
  | some i ↦ if is_same i d.presented then d else present_new i i.type d
]
