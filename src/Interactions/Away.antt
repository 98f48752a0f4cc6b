-- ===== src/Interactions/Away.antt =====
-- What a session waits with while the user is in other ones.
use moonlit_ai_agent.Prelude.{
  ◌≡◌, ◌≢◌, ◌⊎◌, refl, ap, sym, ◌∙◌, Option, none, some, ◌∷◌, Text, text_eq, Option-cases,
  Bool-cases, inl, inr,
}
use mathlib.Core.Path.{subst}
use moonlit_ai_agent.Session.{ChatSession, Interaction, InteractionType}
use moonlit_ai_agent.Store.{World, get_session, update_session}
use moonlit_ai_agent.Interactions.{
  Desk, pending_of, change, without_pending, is_pending, is_same, leave_presented, marked,
  present_pending, present_new, with_attention,
}
use moonlit_ai_agent.Interactions.Pending.{
  pending_in, IsHome, Leaves, Owns, pending_in-other, pending_in-Leaves, update_session-IsHome,
}

-- The session waits with `i`, the user is in another one, and nothing of that session is shown.
pub record Away (i : Interaction) (d : Desk) : Type 0 where
  pub waits : pending_in i.session_key d.world ≡ some i
  pub away : d.world.active_key ≢ i.session_key
  pub shown : (j : Interaction) → d.presented ≡ some j → j.session_key ≢ i.session_key
  pub home : IsHome d.world

pub change-Away :
    (i : Interaction) (k : Text) (f : ChatSession → ChatSession) {d : Desk}
    → (k ≢ i.session_key) ⊎ Leaves f
    → Owns k f
    → Away i d
    → Away i (change k f d)
change-Away i k f {d} quiet owns v = record {
  waits = elim quiet [
    | inl apart ↦ pending_in-other i.session_key k f d.world apart ∙ v.waits
    | inr same ↦ pending_in-Leaves i.session_key k f d.world same ∙ v.waits
  ];
  away = unfold update_session in v.away;
  shown = v.shown;
  home = update_session-IsHome k f d.world owns v.home;
}

-- Another page with the same sessions, which presents nothing else.
pub same-Away :
    (i : Interaction) (d d' : Desk)
    → d'.world ≡ d.world
    → ((j : Interaction) → d'.presented ≡ some j → d.presented ≡ some j)
    → Away i d
    → Away i d'
same-Away i d d' same fewer v = record {
  waits = ap (pending_in i.session_key) same ∙ v.waits;
  away = λ e. v.away (ap (λ (w : World). w.active_key) (sym same) ∙ e);
  shown = λ j e. v.shown j (fewer j e);
  home = subst IsHome (sym same) v.home;
}

pub pending-Owns : (k : Text) (f : ChatSession → ChatSession) → Leaves f → Owns k f
pending-Owns k f h s j e = inl (sym (h s) ∙ e)

pub marked-Away : (i j : Interaction) {d : Desk} → Away i d → Away i (marked j d)
marked-Away i j {d} v = elim (Bool-cases (is_pending j d)) [
  | inl is_it ↦ rw is_it (
      change-Away i j.session_key with_attention (inr (λ s. refl))
        (pending-Owns j.session_key with_attention (λ s. refl)) v)
  | inr is_not ↦ rw is_not v
]

pub leave_presented-Away :
    (i : Interaction) (shown : Option Interaction) {d : Desk}
    → Away i d
    → Away i (leave_presented shown d)
leave_presented-Away i none v = v
leave_presented-Away i (some j) {d} v =
    elim (Bool-cases (text_eq j.session_key d.world.active_key)) [
      | inl here ↦ rw here v
      | inr gone ↦ rw gone (
          same-Away i (marked j d) (record (marked j d) { presented = none; dialog = none }) refl
            (λ k e. cc) (marked-Away i j v))
    ]

pub without-Owns : (k : Text) → Owns k without_pending
without-Owns k s j e = cc

pub same_interaction : (j k : Interaction) → some j ≡ some k → j ≡ k
same_interaction j k e = cc

present_new-Away :
    (i j : Interaction) (type : InteractionType) {d : Desk}
    → j.session_key ≢ i.session_key
    → Away i d
    → Away i (present_new j type d)
present_new-Away i j InteractionType.ui_action {d} h v =
    let cleared = change d.world.active_key without_pending d in
    same-Away i cleared (record cleared { dispatched = j.event ∷ cleared.dispatched }) refl
      (λ k e. e)
      (change-Away i d.world.active_key without_pending (inl v.away)
        (without-Owns d.world.active_key) v)
present_new-Away i j InteractionType.agent_interrupt {d} h v = record {
  waits = v.waits;
  away = v.away;
  shown = λ k e q. h (ap (λ (x : Interaction). x.session_key) (same_interaction j k e) ∙ q);
  home = v.home;
}
present_new-Away i j InteractionType.step_limit {d} h v = record {
  waits = v.waits;
  away = v.away;
  shown = λ k e q. h (ap (λ (x : Interaction). x.session_key) (same_interaction j k e) ∙ q);
  home = v.home;
}

pub present_pending-Away : (i : Interaction) {d : Desk} → Away i d → Away i (present_pending d)
unfolding present_pending
present_pending-Away i {d} v =
    elim (Option-cases (pending_of (get_session d.world.active_key d.world))) [
      | inl nothing ↦ rw (nothing, present_pending) v
      | inr (j, h) ↦ elim (Bool-cases (is_same j d.presented)) [
        | inl same ↦ rw (h, present_pending) (rw same v)
        | inr new ↦
            rw (h, present_pending)
              (rw new (
                present_new-Away i j j.type (λ e. v.away (sym (v.home d.world.active_key j h) ∙ e))
                  v))
      ]
    ]
