-- ===== src/Interactions/Answers.antt =====
-- How often an interaction is answered.
use moonlit_ai_agent.Prelude.{
  ℕ, ◌+◌, ◌≤◌, ◌≡◌, Bool, true, false, Option, none, some, List, [], ◌∷◌, Text, text_eq,
  text_eq_iff, lookup, lookup-insert, Option-cases, Bool-cases, inl, inr, ◌==◌, ◌&&◌, arith,
}
use moonlit_ai_agent.Session.{
  ChatSession, Interaction, InteractionType, LoadStatus, new_session,
  queue_chat_session_interaction,
}
use moonlit_ai_agent.Store.{World, get_session, is_session_active, update_session}
use moonlit_ai_agent.Interactions.{
  Desk, is_same, is_pending, pending_of, change, without_pending, clear_pending_interaction, answer,
  queue_interaction, handle_task_mode_resolved, dispatch_ui_action, leave_session, present_pending,
  with_attention, with_usage, present_new, task_mode_of,
}
use moonlit_ai_agent.Interactions.Acts.{
  DeskAction, queues, dispatches, answers_with, resolves_mode, leaves, presents, selects, begins,
  writes, desk_act, desk_acts,
}

abbrev pub one_if : Bool → ℕ
one_if true = 1
one_if false = 0

-- The interaction of this session and this identity.
abbrev pub is_of : Text → ℕ → Interaction → Bool
is_of k r i = text_eq i.session_key k && (i.ref == r)

abbrev pub count_answers : Text → ℕ → List (Interaction × Bool) → ℕ
count_answers k r [] = 0
count_answers k r ((i, approved) ∷ given) = one_if (is_of k r i) + count_answers k r given

abbrev pub is_waiting : ℕ → Option Interaction → Bool
is_waiting r none = false
is_waiting r (some i) = i.ref == r

-- Whether the session waits with it.
abbrev pub waiting : Text → ℕ → World → ℕ
waiting k r w = one_if (is_waiting r (pending_of (get_session k w)))

abbrev pub queued : Text → ℕ → DeskAction → ℕ
queued k r (queues i) = one_if (is_of k r i)
queued k r (dispatches i) = one_if (is_of k r i)
queued k r _ = 0

abbrev pub times_queued : Text → ℕ → List DeskAction → ℕ
times_queued k r [] = 0
times_queued k r (a ∷ later) = queued k r a + times_queued k r later

abbrev pub open_answers : Text → ℕ → Desk → ℕ
open_answers k r d = count_answers k r d.answers + waiting k r d.world

-- A change of a session that keeps or drops what waits.
Keeps : ℕ → (ChatSession → ChatSession) → Type 0
Keeps r f =
    (s : ChatSession)
    → one_if (is_waiting r (f s).pending_interaction) ≤ one_if (is_waiting r s.pending_interaction)

waiting-update_session :
    (k j : Text) (r : ℕ) (f : ChatSession → ChatSession) (w : World)
    → Keeps r f
    → waiting k r (update_session j f w) ≤ waiting k r w
unfolding update_session get_session Keeps
waiting-update_session k j r f w h = elim (Option-cases (lookup j w.sessions)) [
  | inl absent ↦
      let new = new_session j none (some LoadStatus.idle) in
      ground (arith, h new, lookup-insert j k (f new) w.sessions, text_eq_iff j k)
  | inr (s, found) ↦ ground (arith, h s, lookup-insert j k (f s) w.sessions, text_eq_iff j k)
]

waiting-queue :
    (k : Text) (r : ℕ) (i : Interaction) (b : Bool) (w : World)
    → waiting k r (update_session i.session_key (λ s. queue_chat_session_interaction s i b) w)
      ≤ waiting k r w + one_if (is_of k r i)
unfolding update_session get_session queue_chat_session_interaction
waiting-queue k r i b w = elim (Option-cases (lookup i.session_key w.sessions)) [
  | inl absent ↦
      let new = new_session i.session_key none (some LoadStatus.idle) in
      ground
        (arith, lookup-insert i.session_key k (queue_chat_session_interaction new i b) w.sessions)
  | inr (s, found) ↦
      ground
        (arith, lookup-insert i.session_key k (queue_chat_session_interaction s i b) w.sessions)
]

waiting-without :
    (k : Text) (r : ℕ) (i : Interaction) (d : Desk)
    → is_pending i d ≡ true
    → waiting k r (update_session i.session_key without_pending d.world) + one_if (is_of k r i)
      ≤ waiting k r d.world
unfolding update_session get_session
waiting-without k r i d h = elim (Option-cases (lookup i.session_key d.world.sessions)) [
  | inl absent ↦ ground arith
  | inr (s, found) ↦ elim (Option-cases s.pending_interaction) [
    | inl nothing ↦ ground arith
    | inr (j, pending) ↦ ground (
      arith,
      lookup-insert i.session_key k (without_pending s) d.world.sessions,
      text_eq_iff i.session_key k,
    )
  ]
]

open_answers-answer :
    (k : Text) (r : ℕ) (i : Interaction) (approved : Bool) (d : Desk)
    → open_answers k r (answer i approved d) ≤ open_answers k r d
unfolding answer clear_pending_interaction
open_answers-answer k r i approved d = ground (arith, waiting-without k r i d)

without_pending-Keeps : (r : ℕ) → Keeps r without_pending
unfolding Keeps
without_pending-Keeps r s = ground arith

open_answers-change :
    (k j : Text) (r : ℕ) (f : ChatSession → ChatSession) (d : Desk)
    → Keeps r f
    → open_answers k r (change j f d) ≤ open_answers k r d
open_answers-change k j r f d h = omega (arith, waiting-update_session k j r f d.world h)

open_answers-leave :
    (k : Text) (r : ℕ) (d : Desk) → open_answers k r (leave_session d) ≤ open_answers k r d
unfolding leave_session Keeps
open_answers-leave k r d = elim (Option-cases d.presented) [
  | inl h ↦ rw (h, leave_session) (omega arith)
  | inr (i, h) ↦
      ground
        (arith, waiting-update_session k i.session_key r with_attention d.world (λ s. omega arith))
]

open_answers-present_new :
    (k : Text) (r : ℕ) (i : Interaction) (type : InteractionType) (d : Desk)
    → open_answers k r (present_new i type d) ≤ open_answers k r d
open_answers-present_new k r i InteractionType.ui_action d =
    open_answers-change k d.world.active_key r without_pending d (without_pending-Keeps r)
open_answers-present_new k r i InteractionType.agent_interrupt d = omega arith
open_answers-present_new k r i InteractionType.step_limit d = omega arith

open_answers-present :
    (k : Text) (r : ℕ) (d : Desk) → open_answers k r (present_pending d) ≤ open_answers k r d
unfolding present_pending
open_answers-present k r d =
    elim (Option-cases (pending_of (get_session d.world.active_key d.world))) [
      | inl h ↦ rw (h, present_pending) (omega arith)
      | inr (i, h) ↦ elim (Bool-cases (is_same i d.presented)) [
        | inl same ↦ rw (h, present_pending) (rw same (omega arith))
        | inr new ↦ rw (h, present_pending) (rw new (open_answers-present_new k r i i.type d))
      ]
    ]

open_answers-desk_act :
    (k : Text) (r : ℕ) (a : DeskAction) (d : Desk)
    → open_answers k r (desk_act a d) ≤ open_answers k r d + queued k r a
unfolding queue_interaction dispatch_ui_action handle_task_mode_resolved Keeps get_session
open_answers-desk_act k r (queues i) d =
    omega (arith, waiting-queue k r i (is_session_active i.session_key d.world) d.world)
open_answers-desk_act k r (dispatches i) d = ground (
  arith,
  waiting-update_session k i.session_key r (with_usage i.event) d.world (λ s. omega arith),
  waiting-queue k r i false d.world,
)
open_answers-desk_act k r (answers_with i approved) d =
    omega (arith, open_answers-answer k r i approved d)
open_answers-desk_act k r (resolves_mode j event) d = omega (
  arith,
  waiting-update_session k j r (λ s. record s { effective_task_mode = some (task_mode_of event) })
      d.world (λ s. omega arith),
)
open_answers-desk_act k r leaves d = omega (arith, open_answers-leave k r d)
open_answers-desk_act k r presents d = omega (arith, open_answers-present k r d)
open_answers-desk_act k r (selects j) d = omega arith
open_answers-desk_act k r (begins j) d =
    omega (arith, open_answers-change k j r without_pending d (without_pending-Keeps r))
open_answers-desk_act k r (writes j f) d = omega (
  arith,
  waiting-update_session k j r (λ s. record s { messages = f s.messages }) d.world
      (λ s. omega arith),
)

-- However interrupts, step limits and the user's answers, of dialogs that are gone too, follow each
-- other: of the answers with one interaction there come at most as many new ones as the interaction
-- was queued, and one more if it waited in its session at the beginning.
pub answers-desk_acts :
    (k : Text) (r : ℕ) (later : List DeskAction) (d : Desk)
    → count_answers k r (desk_acts later d).answers
      ≤ count_answers k r d.answers + waiting k r d.world + times_queued k r later
answers-desk_acts k r [] d = omega arith
answers-desk_acts k r (a ∷ later) d =
    omega (arith, answers-desk_acts k r later (desk_act a d), open_answers-desk_act k r a d)
