-- ===== src/Interactions/Leaving.antt =====
-- What is presented when the user leaves a session and comes back.
use moonlit_ai_agent.Prelude.{
  ◌≡◌, ◌≢◌, refl, ap, sym, ◌∙◌, false, none, some, Option, List, [], ◌∷◌, ◌++◌, All, Text, text_eq,
  text_eq_iff, Bool-cases, inl, inr, arith,
}
use mathlib.Core.Path.{subst}
use moonlit_ai_agent.Session.{Interaction, InteractionType}
use moonlit_ai_agent.Store.{get_session, update_session}
use moonlit_ai_agent.Interactions.{
  Desk, pending_of, is_pending, marked, leave_presented, leave_session, present_pending,
  present_new, with_attention,
}
use moonlit_ai_agent.Interactions.Acts.{DeskAction, leaves, presents, selects, desk_act, desk_acts}
use moonlit_ai_agent.Interactions.Pending.{pending_in, IsHome, pending_in-Leaves}
use moonlit_ai_agent.Interactions.Away.{Away, same-Away, marked-Away}
use moonlit_ai_agent.Interactions.Visit.{IsElsewhere, desk_act-Away}

presents-it :
    (i : Interaction) (d : Desk)
    → i.type ≢ InteractionType.ui_action
    → (present_new i i.type d).dialog ≡ some i
presents-it i d h = ground arith

marked-kept :
    (k : Text) (j : Interaction) (d : Desk)
    → (pending_in k (marked j d).world ≡ pending_in k d.world)
      × ((marked j d).world.active_key ≡ d.world.active_key)
marked-kept k j d = elim (Bool-cases (is_pending j d)) [
  | inl is_it ↦ rw is_it (
    pending_in-Leaves k j.session_key with_attention d.world (λ s. refl),
    unfold update_session in refl,
  )
  | inr is_not ↦ rw is_not (refl, refl)
]

leave_presented-kept :
    (k : Text) (shown : Option Interaction) (d : Desk)
    → (pending_in k (leave_presented shown d).world ≡ pending_in k d.world)
      × ((leave_presented shown d).world.active_key ≡ d.world.active_key)
leave_presented-kept k none d = (refl, refl)
leave_presented-kept k (some j) d = elim (Bool-cases (text_eq j.session_key d.world.active_key)) [
  | inl here ↦ rw here (refl, refl)
  | inr gone ↦ rw gone (marked-kept k j d)
]

-- Nothing of another session is presented any more.
leave_presented-none :
    (shown : Option Interaction) (d : Desk)
    → d.presented ≡ shown
    → ((j : Interaction) → shown ≡ some j → j.session_key ≢ d.world.active_key)
    → (leave_presented shown d).presented ≡ none
leave_presented-none none d h apart = h
leave_presented-none (some j) d h apart =
    ground (arith, apart j refl, text_eq_iff j.session_key d.world.active_key)

marked-world :
    (j : Interaction) (d : Desk) (shown dialog : Option Interaction)
    → (marked j d).world ≡ (marked j (record d { presented = shown; dialog = dialog })).world
marked-world j d shown dialog = elim (Bool-cases (is_pending j d)) [
  | inl is_it ↦ rw is_it refl
  | inr is_not ↦ rw is_not refl
]

left-Away :
    (i : Interaction) (d : Desk)
    → IsHome d.world
    → d.presented ≡ some i
    → pending_in i.session_key d.world ≡ some i
    → d.world.active_key ≢ i.session_key
    → ((leave_session d).dialog ≡ none) × Away i (leave_session d)
unfolding leave_session
left-Away i d home shown waits away =
    let bare = record d { presented = none; dialog = none } in
    let v : Away i bare = record { waits = waits; away = away; shown = λ j e. cc; home = home } in
    let closed = record (marked i d) { presented = none; dialog = none } in
    let gone : text_eq i.session_key d.world.active_key ≡ false =
      ground (arith, away, text_eq_iff i.session_key d.world.active_key) in
    let left : leave_session d ≡ closed = ap (λ o. leave_presented o d) shown ∙ rw gone refl in
    (
      ap (λ (e : Desk). e.dialog) left,
      subst (Away i) (sym left) (
          same-Away i (marked i bare) closed (marked-world i d none none) (λ k e. cc)
            (marked-Away i i v)),
    )

-- The session is selected again, and both effects run.
abbrev pub comes_back : Text → List DeskAction
comes_back k = selects k ∷ leaves ∷ presents ∷ []

presented-dialog :
    (i : Interaction) (d : Desk)
    → i.type ≢ InteractionType.ui_action
    → d.presented ≡ none
    → pending_of (get_session d.world.active_key d.world) ≡ some i
    → (present_pending d).dialog ≡ some i
unfolding present_pending
presented-dialog i d kind bare waits =
    rw (waits, present_pending) (rw bare (presents-it i (record d { presented = none }) kind))

comes_back-dialog :
    (i : Interaction) (d : Desk)
    → i.type ≢ InteractionType.ui_action
    → Away i d
    → (desk_acts (comes_back i.session_key) d).dialog ≡ some i
unfolding present_pending leave_session
comes_back-dialog i d kind v =
    let chosen = desk_act (selects i.session_key) d in
    let left = leave_session chosen in
    let kept = leave_presented-kept i.session_key d.presented chosen in
    let bare : left.presented ≡ none = leave_presented-none d.presented chosen refl v.shown in
    let waits : pending_of (get_session left.world.active_key left.world) ≡ some i =
      ap (λ k. pending_in k left.world) kept.1 ∙ kept.0 ∙ (unfold get_session in v.waits) in
    presented-dialog i left kind bare waits

desk_acts-back :
    (i : Interaction) (xs : List DeskAction) (d : Desk)
    → i.type ≢ InteractionType.ui_action
    → All (IsElsewhere i) xs
    → Away i d
    → (desk_acts (xs ++ comes_back i.session_key) d).dialog ≡ some i
desk_acts-back i [] d kind h v = comes_back-dialog i d kind v
desk_acts-back i (a ∷ xs) d kind h v =
    desk_acts-back i xs (desk_act a d) kind h.1 (desk_act-Away i a h.0 v)

-- Let no session wait with the interaction of another. When an interrupt or a step limit is
-- presented that its session still waits with, and the user goes to another session, its dialog
-- closes; and when the user later comes back, it opens for it again, whatever has happened in
-- between: other sessions are entered, present their own dialogs, are answered and are sent new
-- interactions, but this session is not entered, is sent none, begins no request, and what it waits
-- with is not answered.
pub present_pending-leave_session :
    (i : Interaction) (xs : List DeskAction) (d : Desk)
    → IsHome d.world
    → d.presented ≡ some i
    → pending_in i.session_key d.world ≡ some i
    → d.world.active_key ≢ i.session_key
    → i.type ≢ InteractionType.ui_action
    → All (IsElsewhere i) xs
    → ((leave_session d).dialog ≡ none)
      × ((desk_acts (leaves ∷ xs ++ comes_back i.session_key) d).dialog ≡ some i)
present_pending-leave_session i xs d home shown waits away kind h =
    let left = left-Away i d home shown waits away in
    (left.0, desk_acts-back i xs (leave_session d) kind h left.1)
