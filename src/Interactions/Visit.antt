-- ===== src/Interactions/Visit.antt =====
-- What happens while the user is in other sessions.
use moonlit_ai_agent.Prelude.{
  ◌≡◌, ◌≢◌, ◌⊎◌, refl, ap, sym, ◌∙◌, Bool, true, false, none, some, Bool-cases, inl, inr, arith,
  if◌then◌else◌,
}
use moonlit_ai_agent.Session.{ChatSession, Interaction, queue_chat_session_interaction}
use moonlit_ai_agent.Store.{get_session, is_session_active}
use moonlit_ai_agent.Interactions.{
  Desk, change, without_pending, is_pending, is_same, clear_pending_interaction, answer,
  queue_interaction, handle_task_mode_resolved, dispatch_ui_action, is_answered, leave_session,
  with_usage, task_mode_of,
}
use moonlit_ai_agent.Interactions.Acts.{
  DeskAction, queues, dispatches, answers_with, resolves_mode, leaves, presents, selects, begins,
  writes, desk_act,
}
use moonlit_ai_agent.Interactions.Pending.{pending_in}
use moonlit_ai_agent.Interactions.Away.{
  Away, change-Away, same-Away, pending-Owns, leave_presented-Away, without-Owns, same_interaction,
  present_pending-Away,
}

-- What others do: the session is sent nothing new, and `i` is not answered.
abbrev pub IsElsewhere : Interaction → DeskAction → Type 0
IsElsewhere i (queues j) = j.session_key ≢ i.session_key
IsElsewhere i (dispatches j) = j.session_key ≢ i.session_key
IsElsewhere i (answers_with j approved) = (j.session_key ≢ i.session_key) ⊎ (j.ref ≢ i.ref)
IsElsewhere i (selects k) = k ≢ i.session_key
IsElsewhere i (begins k) = k ≢ i.session_key
IsElsewhere i _ = Unit

-- An interaction that is pending and is not `i` is another session's.
pending-elsewhere :
    (i j : Interaction) {d : Desk}
    → (j.session_key ≢ i.session_key) ⊎ (j.ref ≢ i.ref)
    → Away i d
    → is_pending j d ≡ true
    → j.session_key ≢ i.session_key
pending-elsewhere i j (inl apart) v h = apart
pending-elsewhere i j {d} (inr other) v h = λ e.
    let held : pending_in j.session_key d.world ≡ some i =
      ap (λ k. pending_in k d.world) e ∙ v.waits in
    other (ground (arith, held, h))

cleared-Away :
    (i j : Interaction) {d : Desk}
    → j.session_key ≢ i.session_key
    → Away i d
    → Away i (
        change j.session_key without_pending
          (record d { presented = if is_same j d.presented then none else d.presented }))
cleared-Away i j {d} apart v =
    change-Away i j.session_key without_pending (inl apart) (without-Owns j.session_key) (
      same-Away i d (record d { presented = if is_same j d.presented then none else d.presented })
        refl (λ k e. ground arith) v)

-- An answer with something else.
answer-Away :
    (i j : Interaction) (approved : Bool) {d : Desk}
    → (j.session_key ≢ i.session_key) ⊎ (j.ref ≢ i.ref)
    → Away i d
    → Away i (answer j approved d)
unfolding answer clear_pending_interaction
answer-Away i j approved {d} h v = elim (Bool-cases (is_pending j d)) [
  | inr is_not ↦ rw is_not v
  | inl is_it ↦
      let done = cleared-Away i j (pending-elsewhere i j h v is_it) v in
      elim (Bool-cases (is_answered j.type approved)) [
        | inr only_cleared ↦ rw (is_it, only_cleared) done
        | inl given ↦ rw (is_it, given) (same-Away i _ _ refl (λ k e. e) done)
      ]
]

queue_interaction-Away :
    (i j : Interaction) (is_active : Bool) {d : Desk}
    → j.session_key ≢ i.session_key
    → Away i d
    → Away i (change j.session_key (λ s. queue_chat_session_interaction s j is_active) d)
unfolding queue_chat_session_interaction
queue_interaction-Away i j is_active apart v =
    change-Away i j.session_key _ (inl apart)
      (λ s k e. inr (ap (λ (x : Interaction). x.session_key) (sym (same_interaction j k e)))) v

if-Away :
    (i : Interaction) (b : Bool) {d d' : Desk} → Away i d → Away i d' → Away i (if b then d else d')
if-Away i true v v' = v
if-Away i false v v' = v'

dispatch_ui_action-Away :
    (i j : Interaction) {d : Desk}
    → j.session_key ≢ i.session_key
    → Away i d
    → Away i (dispatch_ui_action j d)
unfolding dispatch_ui_action
dispatch_ui_action-Away i j {d} apart v =
    if-Away i _
      (change-Away i j.session_key (with_usage j.event) (inr (λ s. refl))
        (pending-Owns j.session_key (with_usage j.event) (λ s. refl)) v)
      (if-Away i _ (queue_interaction-Away i j false apart v) (same-Away i d _ refl (λ k e. e) v))

pub desk_act-Away :
    (i : Interaction) (a : DeskAction) {d : Desk}
    → IsElsewhere i a
    → Away i d
    → Away i (desk_act a d)
unfolding queue_interaction handle_task_mode_resolved leave_session
desk_act-Away i (queues j) {d} h v =
    queue_interaction-Away i j (is_session_active j.session_key d.world) h v
desk_act-Away i (dispatches j) h v = dispatch_ui_action-Away i j h v
desk_act-Away i (answers_with j approved) h v = answer-Away i j approved h v
desk_act-Away i (resolves_mode k event) h v =
    let f : ChatSession → ChatSession =
      λ s. record s { effective_task_mode = some (task_mode_of event) } in
    change-Away i k f (inr (λ s. refl)) (pending-Owns k f (λ s. refl)) v
desk_act-Away i leaves {d} h v = leave_presented-Away i d.presented v
desk_act-Away i presents h v = present_pending-Away i v
desk_act-Away i (selects k) h v = record {
  waits = unfold get_session in v.waits;
  away = h;
  shown = v.shown;
  home = unfold get_session in v.home;
}
desk_act-Away i (begins k) h v = change-Away i k without_pending (inl h) (without-Owns k) v
desk_act-Away i (writes k f) h v =
    let g : ChatSession → ChatSession = λ s. record s { messages = f s.messages } in
    change-Away i k g (inr (λ s. refl)) (pending-Owns k g (λ s. refl)) v
