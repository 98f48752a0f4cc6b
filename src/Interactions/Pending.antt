-- ===== src/Interactions/Pending.antt =====
-- What the sessions wait with, when one of them changes.
use moonlit_ai_agent.Prelude.{
  ◌≡◌, ◌≢◌, ◌⊎◌, refl, ap, sym, ◌∙◌, Option, some, Text, text_eq, text_eq_iff, text_eq_refl, lookup,
  lookup-insert, Option-cases, Bool-cases, inl, inr, arith,
}
use mathlib.Core.Path.{subst}
use moonlit_ai_agent.Session.{ChatSession, Interaction}
use moonlit_ai_agent.Store.{World, get_session, update_session, session_or_new}
use moonlit_ai_agent.Interactions.{pending_of}

abbrev pub pending_in : Text → World → Option Interaction
pending_in k w = pending_of (get_session k w)

-- What a session waits with is its own.
abbrev pub IsHome : World → Type 0
IsHome w = (k : Text) (j : Interaction) → pending_in k w ≡ some j → j.session_key ≡ k

-- A change of a session that leaves what it waits with.
abbrev pub Leaves : (ChatSession → ChatSession) → Type 0
Leaves f = (s : ChatSession) → (f s).pending_interaction ≡ s.pending_interaction

-- A change after which the session waits with nothing new but its own.
abbrev pub Owns : Text → (ChatSession → ChatSession) → Type 0
Owns k f =
    (s : ChatSession) (j : Interaction)
    → (f s).pending_interaction ≡ some j
    → (s.pending_interaction ≡ some j) ⊎ (j.session_key ≡ k)

pub pending_in-other :
    (k j : Text) (f : ChatSession → ChatSession) (w : World)
    → j ≢ k
    → pending_in k (update_session j f w) ≡ pending_in k w
unfolding get_session update_session
pending_in-other k j f w h = ground (
  arith,
  lookup-insert j k (f (session_or_new j (lookup j w.sessions))) w.sessions,
  text_eq_iff j k,
)

pending_in-same :
    (k : Text) (f : ChatSession → ChatSession) (w : World)
    → pending_in k (update_session k f w)
      ≡ (f (session_or_new k (lookup k w.sessions))).pending_interaction
unfolding get_session update_session
pending_in-same k f w = ap pending_of (lookup-insert k k _ w.sessions) ∙ rw (text_eq_refl k) refl

pending-session_or_new :
    (k : Text) (w : World)
    → (session_or_new k (lookup k w.sessions)).pending_interaction ≡ pending_in k w
unfolding get_session
pending-session_or_new k w = elim (Option-cases (lookup k w.sessions)) [
  | inl absent ↦ rw absent refl
  | inr (s, held) ↦ rw held refl
]

pub pending_in-Leaves :
    (k j : Text) (f : ChatSession → ChatSession) (w : World)
    → Leaves f
    → pending_in k (update_session j f w) ≡ pending_in k w
pending_in-Leaves k j f w h = elim (Bool-cases (text_eq j k)) [
  | inl same ↦
      rw ((text_eq_iff j k).0 same) (pending_in-same k f w ∙ h _ ∙ pending-session_or_new k w)
  | inr apart ↦ pending_in-other k j f w (λ e. ground (arith, apart, text_eq_iff j k))
]

update_session-own :
    (j : Text) (f : ChatSession → ChatSession) (w : World) (i : Interaction)
    → Owns j f
    → IsHome w
    → pending_in j (update_session j f w) ≡ some i
    → i.session_key ≡ j
update_session-own j f w i owns home h = elim (owns _ i (sym (pending_in-same j f w) ∙ h)) [
  | inl old ↦ home j i (sym (pending-session_or_new j w) ∙ old)
  | inr own ↦ own
]

pub update_session-IsHome :
    (j : Text) (f : ChatSession → ChatSession) (w : World)
    → Owns j f
    → IsHome w
    → IsHome (update_session j f w)
update_session-IsHome j f w owns home k i h = elim (Bool-cases (text_eq j k)) [
  | inl same ↦
      let e = (text_eq_iff j k).0 same in
      let at : Text → Type 0 = λ x. pending_in x (update_session j f w) ≡ some i in
      update_session-own j f w i owns home (subst at (sym e) h) ∙ e
  | inr apart ↦
      home k i (sym (pending_in-other k j f w (λ e. ground (arith, apart, text_eq_iff j k))) ∙ h)
]
