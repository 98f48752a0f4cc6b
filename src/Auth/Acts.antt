-- ===== src/Auth/Acts.antt =====
-- front-end/src/contexts/AuthContext.jsx: the operations in any order.
use moonlit_ai_agent.Prelude.{ℕ, Bool, Option, List, [], ◌∷◌, Text}
use moonlit_ai_agent.Account.User.{AuthUser}
use moonlit_ai_agent.Auth.{
  Auth, Outcome, PendingAction, finish_initialize, fail_initialize, finish_redirect,
  auth_signed_out, finish_handshake, finish_failed_handshake, unmount,
}
use moonlit_ai_agent.Auth.Actions.{
  begin_action, finish_request, finish_update, finish_refresh, update_display_name,
  unlink_auth_provider, link_auth_provider, reauthenticate_current_user, finish_delete,
  finish_logout, clear_error,
}

-- What the effect of the provider does.
pub data Event : Type 0 where
  initialized : Bool → Event
  not_initialized : Text → Event
  redirected : ℕ → Option PendingAction → Outcome (Option Text) → Event
  signed_out failed_handshake_over : Event
  handshake : Outcome AuthUser → Event

abbrev pub on_event : Event → Auth → Auth
on_event (initialized has_auth) s = finish_initialize has_auth s
on_event (not_initialized message) s = fail_initialize message s
on_event (redirected now pending r) s = finish_redirect now pending r s
on_event signed_out s = auth_signed_out s
on_event failed_handshake_over s = finish_failed_handshake s
on_event (handshake r) s = finish_handshake r s

-- What the pages and the answers to their requests do.
pub data Act : Type 0 where
  event : Event → Act
  leave : Act
  begin dismissed : Act
  request_over : Outcome Bool → Act
  updated refreshed : Outcome AuthUser → Act
  display_name unlink : Text → Act
  link : Bool → Text → Text → Text → Option Text → Act
  reauthenticate : ℕ → Bool → Text → Text → Text → Option Text → Act
  deleted : Text → Outcome Bool → Act
  logged_out : Outcome Bool → Act

abbrev pub act : Act → Auth → Auth
act (event e) s = on_event e s
act leave s = unmount s
act begin s = begin_action s
act dismissed s = clear_error s
act (request_over r) s = finish_request r s
act (updated r) s = finish_update r s
act (refreshed r) s = finish_refresh r s
act (display_name value) s = update_display_name value s
act (unlink provider) s = unlink_auth_provider provider s
act (link is_mobile provider email password own) s =
    link_auth_provider is_mobile provider email password own s
act (reauthenticate now is_mobile uid provider password own) s =
    reauthenticate_current_user now is_mobile uid provider password own s
act (deleted uid r) s = finish_delete uid r s
act (logged_out r) s = finish_logout r s

abbrev pub acts : List Act → Auth → Auth
acts [] s = s
acts (a ∷ rest) s = acts rest (act a s)
