-- ===== src/Composer/Accepted.antt =====
-- The form of front-end/src/features/chat/ChatInput.jsx with `handleSendMessage` of
-- front-end/src/hooks/chat-page/useMessageStreaming.js, up to its request.
use moonlit_ai_agent.Prelude.{
  ℕ, Bool, true, false, if◌then◌else◌, Option, none, some, [], ◌++◌, Text, trim, ◌≡◌, ◌⊎◌, ◌∙◌,
  refl, ap, Option-cases, inl, inr,
}
use moonlit_ai_agent.Titles.Recovered.{trim-trim}
use moonlit_ai_agent.Store.{World}
use moonlit_ai_agent.Chat.{send_message}
use moonlit_ai_agent.Chat.Sent.{messages_of, turn, send_message-refused, messages_of-send_message}
use moonlit_ai_agent.Composer.{
  Composer, Attempt, get_draft, handle_submit, restore_draft, finish_attempt, sent,
}
use moonlit_ai_agent.Composer.Restored.{
  attempt_of, submitted, handle_submit-some, handle_submit-none, submitted-blank,
  get_draft-finish_attempt, restore_draft-submitted,
}

-- A message that `onSend` does not take comes back at once.
abbrev pub on_answer : Attempt → Bool → Composer → Composer
on_answer a accepted c = if accepted then c else finish_attempt a (restore_draft a c)

abbrev is_taken : Option ℕ → Bool
is_taken none = false
is_taken (some n) = true

abbrev pub send_attempt : Text → Text → Text → Option Attempt → Composer × World → Composer × World
send_attempt k user_id id none (c, w) = (c, w)
send_attempt k user_id id (some a) (c, w) =
    let page = send_message k (sent a) user_id id w in (on_answer a (is_taken page.1) c, page.0)

unfoldable pub submit : Text → Bool → Bool → Text → Text → Composer × World → Composer × World
submit k disabled is_streaming user_id id (c, w) =
    let form = handle_submit k disabled is_streaming c in
    send_attempt k user_id id form.1 (form.0, w)

-- The message is where it was, or it is in the session.
abbrev pub IsSomewhere : Text → Text → Text → Composer × World → Composer × World → Type 0
IsSomewhere k user_id id (c, w) (d, v) =
    ((get_draft k d.drafts ≡ get_draft k c.drafts) × (v ≡ w))
    ⊎ ((get_draft k d.drafts ≡ [])
        × (messages_of k v ≡ messages_of k w ++ turn user_id id (trim (get_draft k c.drafts))))

send_attempt-IsSomewhere :
    (k user_id id : Text) (c : Composer) (w : World)
    → IsSomewhere k user_id id
        (c, w)
        (send_attempt k user_id id (some (attempt_of k c)) (submitted k c, w))
send_attempt-IsSomewhere k user_id id c w =
    let message = get_draft k c.drafts in
    elim (Option-cases (send_message k (trim message) user_id id w).1) [
      | inl refused ↦ rw refused (
          inl (
            get_draft-finish_attempt k (attempt_of k c) _ ∙ restore_draft-submitted k c [] tt,
            send_message-refused k (trim message) user_id id w refused,
          ))
      | inr (n, taken) ↦ rw taken (
          inr (
            submitted-blank k c,
            messages_of-send_message k (trim message) user_id id n w taken
                ∙ ap (λ t. messages_of k w ++ turn user_id id t) (trim-trim message),
          ))
    ]

-- Whatever the state of the page: when the form is submitted, either the session's draft is as it
-- was and the page as well, or the draft is empty and the session has, after all of its messages,
-- the user's with the draft's text without the spaces around it, and the one that waits for the
-- answer.
pub submit-IsSomewhere :
    (k : Text) (disabled is_streaming : Bool) (user_id id : Text) (c : Composer) (w : World)
    → IsSomewhere k user_id id (c, w) (submit k disabled is_streaming user_id id (c, w))
unfolding submit
submit-IsSomewhere k disabled is_streaming user_id id c w =
    elim (Option-cases (handle_submit k disabled is_streaming c).1) [
      | inl unsent ↦
          rw (unsent, handle_submit-none k disabled is_streaming c unsent) (inl (refl, refl))
      | inr (a, h) ↦
          let made = handle_submit-some k disabled is_streaming c a h in
          rw h (rw (made.1, made.0) (send_attempt-IsSomewhere k user_id id c w))
    ]
