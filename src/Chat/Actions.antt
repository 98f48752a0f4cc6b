-- ===== src/Chat/Actions.antt =====
-- Everything that happens to the store, as one list of actions.
use moonlit_ai_agent.Prelude.{ℕ, Bool, Option, List, [], ◌∷◌, Text}
use moonlit_ai_agent.Message.Upsert.{MessageData}
use moonlit_ai_agent.Session.{ChatSession}
use moonlit_ai_agent.Timeline.{Stream}
use moonlit_ai_agent.Response.{Write}
use moonlit_ai_agent.Store.{World, update_session, open_response}
use moonlit_ai_agent.Chat.{
  apply_write, close_response, send_message, request_resume, resume_agent, settle_request,
  stop_session, stop_all_streams, unmount,
}
use moonlit_ai_agent.Chat.Failures.{RequestError, fail_send, fail_resume}

pub data Action : Type 0 where
  sends : Text → Text → Text → Text → Action
  opens : Text → ℕ → Option Text → Option Text → Text → Action
  flushes : Text → ℕ → Text → Write → Action
  closes : Text → ℕ → Text → Option MessageData → Stream → Action
  fails_send fails_resume : Text → ℕ → Text → Bool → RequestError → Action
  settles : Text → ℕ → Action
  requests_resume : Text → Action
  resumes : Text → Option Text → Text → Action
  session_stops : Text → Action
  all_stop unmounts : Action
  selects : Text → Action
  -- Another change of a session, such as a callback's or the loader's.
  updates : Text → (ChatSession → ChatSession) → Action

abbrev pub act : Action → World → World
act (sends k message user_id id) w = (send_message k message user_id id w).0
act (opens k n conversation header prompt) w = open_response k n conversation header prompt w
act (flushes k n id write) w = apply_write k n id write w
act (closes k n id base s) w = close_response k n id base s w
act (fails_send k n id online e) w = fail_send k n id online e w
act (fails_resume k n id online e) w = fail_resume k n id online e w
act (settles k n) w = settle_request k n w
act (requests_resume k) w = (request_resume k w).0
act (resumes k given fresh) w = (resume_agent k given fresh w).0
act (session_stops k) w = (stop_session k w).0
act all_stop w = stop_all_streams w
act unmounts w = unmount w
act (selects k) w = record w { active_key = k }
act (updates k change) w = update_session k change w

abbrev pub acts : List Action → World → World
acts [] w = w
acts (a ∷ later) w = acts later (act a w)
