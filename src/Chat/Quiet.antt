-- ===== src/Chat/Quiet.antt =====
-- What writing to the sessions calls of the registry: nothing.
use moonlit_ai_agent.Prelude.{
  ℕ, ◌≡◌, refl, ◌∙◌, Bool, not, ◌||◌, Option, none, some, List, [], ◌∷◌, Text, arith, Dict,
  Bool-cases, inl, inr,
}
use moonlit_ai_agent.Message.{Message}
use moonlit_ai_agent.Message.Upsert.{MessageData}
use moonlit_ai_agent.Session.{ChatSession, StreamStatus}
use moonlit_ai_agent.Registry.{Entry}
use moonlit_ai_agent.Timeline.{Stream}
use moonlit_ai_agent.Response.{Write}
use moonlit_ai_agent.Store.{
  World, update_session, update_session_messages, set_owner_messages, bind_streaming_conversation,
  open_response, owns_stream,
}
use moonlit_ai_agent.Chat.{
  apply_write, apply_last, complete, close_response, mark_session_stopped, mark_each,
}
use moonlit_ai_agent.Chat.Failures.{RequestError, fail_send, fail_resume, is_abort}

-- Writing to sessions leaves the registry alone.
module _ (k : Text) where
  pub registry-update_session :
      (f : ChatSession → ChatSession) (w : World) → (update_session k f w).registry ≡ w.registry
  unfolding update_session
  registry-update_session f w = refl

  pub registry-update_session_messages :
      (f : List Message → List Message) (w : World)
      → (update_session_messages k f w).registry ≡ w.registry
  unfolding update_session_messages
  registry-update_session_messages f w = ground arith

  pub registry-set_owner_messages :
      (n : ℕ) (f : List Message → List Message) (w : World)
      → (set_owner_messages k n f w).registry ≡ w.registry
  unfolding set_owner_messages
  registry-set_owner_messages n f w = ground (arith, registry-update_session_messages f w)

  pub registry-apply_write :
      (n : ℕ) (id : Text) (write : Write) (w : World)
      → (apply_write k n id write w).registry ≡ w.registry
  unfolding apply_write
  registry-apply_write n id write w = registry-set_owner_messages n _ w

  pub registry-apply_last :
      (n : ℕ) (id : Text) (write : Option Write) (w : World)
      → (apply_last k n id write w).registry ≡ w.registry
  registry-apply_last n id none w = refl
  registry-apply_last n id (some write) w = registry-apply_write n id write w

  pub registry-complete :
      (n : ℕ) (outcome : StreamStatus) (w : World) → (complete k n outcome w).registry ≡ w.registry
  unfolding update_session
  registry-complete n outcome w = ground arith

  pub registry-close_response :
      (n : ℕ) (id : Text) (base : Option MessageData) (s : Stream) (w : World)
      → (close_response k n id base s w).registry ≡ w.registry
  unfolding close_response
  registry-close_response n id base s w =
      registry-complete n _ _ ∙ registry-apply_write n id _ _ ∙ registry-apply_last n id _ w

  pub registry-open_response :
      (n : ℕ) (conversation header : Option Text) (prompt : Text) (w : World)
      → (open_response k n conversation header prompt w).registry ≡ w.registry
  unfolding open_response bind_streaming_conversation update_session
  registry-open_response n conversation header prompt w = ground arith

  pub registry-fail_send :
      (n : ℕ) (id : Text) (online : Bool) (e : RequestError) (w : World)
      → (fail_send k n id online e w).registry ≡ w.registry
  unfolding fail_send
  registry-fail_send n id online e w = elim (Bool-cases (not (owns_stream k n w) || is_abort e)) [
    | inl gone ↦ rw gone
    | inr here ↦ rw here (registry-complete n _ _ ∙ registry-update_session_messages _ w)
  ]

  pub registry-fail_resume :
      (n : ℕ) (id : Text) (online : Bool) (e : RequestError) (w : World)
      → (fail_resume k n id online e w).registry ≡ w.registry
  unfolding fail_resume
  registry-fail_resume n id online e w = elim (Bool-cases (not (owns_stream k n w) || is_abort e)) [
    | inl gone ↦ rw gone
    | inr here ↦ rw here (registry-complete n _ _ ∙ registry-update_session_messages _ w)
  ]

  pub registry-mark_session_stopped :
      (e : Entry) (w : World) → (mark_session_stopped k e w).registry ≡ w.registry
  unfolding mark_session_stopped
  registry-mark_session_stopped e w =
      registry-update_session _ _ ∙ registry-update_session_messages _ w

pub registry-mark_each : (m : Dict Entry) (w : World) → (mark_each m w).registry ≡ w.registry
unfolding mark_each
registry-mark_each [] w = refl
registry-mark_each ((k, e) ∷ m) w =
    registry-mark_each m (mark_session_stopped k e w) ∙ registry-mark_session_stopped k e w
