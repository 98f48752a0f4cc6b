-- ===== src/Chat/Failures.antt =====
-- front-end/src/hooks/chat-page/useMessageStreaming.js: what becomes of a request that fails,
-- `getErrorMessage` and the `catch` blocks of `handleSendMessage` and `handleResumeAgent`.
use moonlit_ai_agent.Prelude.{
  ℕ, Bool, Option, none, some, List, [], ◌∷◌, ◌++◌, Text, text_eq, codes, is_empty, not, leb, ltb,
  includes, ◌==◌, ◌&&◌, ◌||◌, if◌then◌else◌,
}
use moonlit_ai_agent.Message.{Message, MessageStatus, text}
use moonlit_ai_agent.Message.Upsert.{MessageData, find_message, upsert_assistant_message}
use moonlit_ai_agent.Session.{StreamStatus}
use moonlit_ai_agent.Store.{World, update_session_messages, owns_stream}
use moonlit_ai_agent.Chat.{complete, data_of}

-- What a failed request is known by.
pub record RequestError : Type 0 where
  pub name : Text
  pub message : Text
  pub status : ℕ

abbrev status_message : ℕ → Text → Text
status_message status message =
    if status == 401
    then codes "Your session has expired. Please sign in again."
    else if status == 403
    then codes "You don't have permission to perform this action."
    else if status == 429
    then codes "You've made too many requests. Please wait a moment and try again."
    else if status == 500 || status == 502 || status == 503
    then codes "The server is experiencing issues. Please try again in a few moments."
    else if status == 504
    then codes "The request timed out. Please try again with a simpler query."
    else message

-- The statuses that the `switch` has no case for, and a missing one, which is 0.
abbrev other_message : RequestError → Text
other_message e =
    if leb 400 e.status && ltb e.status 500
    then if is_empty e.message
      then codes "There was a problem with your request. Please try again."
      else e.message
    else if leb 500 e.status
    then codes "Server error. Our team has been notified. Please try again later."
    else if text_eq e.name (codes "TimeoutError") || includes (codes "timeout") e.message
    then codes "The request took too long. Please try again with a simpler query."
    else codes "Something went wrong. Please try again."

unfoldable pub get_error_message : Bool → RequestError → Text
get_error_message online e =
    if not online
    then codes "You appear to be offline. Please check your internet connection and try again."
    else if text_eq e.name (codes "TypeError") && includes (codes "fetch") e.message
    then codes "Unable to connect to the server. Please check your connection and try again."
    else status_message e.status (other_message e)

abbrev pub is_abort : RequestError → Bool
is_abort e = text_eq e.name (codes "AbortError")

abbrev failed_text : Option Message → Text → Text
failed_text none message = message
failed_text (some m) message = if is_empty m.text then message else m.text ++ 10 ∷ 10 ∷ message

abbrev pub put_error : Text → Text → List Message → List Message
put_error id message ms =
    upsert_assistant_message ms id
      (record (data_of (find_message id ms)) { text = failed_text (find_message id ms) message })
      MessageStatus.error

-- The `catch` of `handleSendMessage`.
unfoldable pub fail_send : Text → ℕ → Text → Bool → RequestError → World → World
fail_send k n id online e w =
    if not (owns_stream k n w) || is_abort e
    then w
    else complete k n StreamStatus.error
        (update_session_messages k (put_error id (get_error_message online e)) w)

abbrev pub resume_error : Text → MessageData
resume_error message = record {
  text = message;
  steps = [];
  timeline = text (some (codes "resume-error")) message ∷ [];
  usage = none;
}

-- The `catch` of `handleResumeAgent`.
unfoldable pub fail_resume : Text → ℕ → Text → Bool → RequestError → World → World
fail_resume k n id online e w =
    if not (owns_stream k n w) || is_abort e
    then w
    else complete k n StreamStatus.error (
        update_session_messages k
          (λ ms.
            upsert_assistant_message ms id (resume_error (get_error_message online e))
              MessageStatus.error)
          w)
