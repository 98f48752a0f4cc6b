-- ===== src/Auth/Examples.antt =====
-- Concrete sign-ins.
use moonlit_ai_agent.Prelude.{
  ◌+◌, ◌≤◌, ◌≡◌, refl, true, false, none, some, List, [], ◌∷◌, codes, text_eq,
}
use moonlit_ai_agent.Prelude.Json.{undefined}
use moonlit_ai_agent.Account.{returned}
use moonlit_ai_agent.Account.User.{AuthUser}
use moonlit_ai_agent.Auth.{
  Auth, fulfilled, Reauthentication, PendingAction, max_age, finish_redirect,
  remember_redirect_reauthentication, has_recent_redirect_reauthentication, finish_handshake,
  auth_signed_out,
}
use moonlit_ai_agent.Auth.Actions.{already, choose_reauthentication, clear_error, finish_logout}
use moonlit_ai_agent.Auth.Acts.{
  Act, acts, event, redirected, handshake, signed_out, dismissed, logged_out,
}
use moonlit_ai_agent.Auth.Recent.{IsReturned, choose_reauthentication-already}

abbrev ann : AuthUser
ann = record {
  uid = undefined;
  email = undefined;
  display_name = undefined;
  photo_url = undefined;
  email_verified = none;
  providers = [];
  provider_ids = codes "google.com" ∷ [];
  created_at = none;
  last_sign_in_at = none;
}

abbrev start : Auth
start = record {
  user = none;
  loading = true;
  error = none;
  initialized = false;
  active = true;
  pending = none;
  recent = none;
  local_storage = [];
  cache_clears = 0;
}

abbrev google : PendingAction
google = record { type = codes "reauthenticate"; provider_id = codes "google.com" }

abbrev returning : List Act
returning =
    event (redirected 1000 (some google) (fulfilled (some (codes "ann"))))
    ∷ event (handshake (fulfilled ann))
    ∷ dismissed
    ∷ []

skipped :
    choose_reauthentication 9000 true
      (codes "ann")
      (codes "google.com")
      []
      none
      (acts returning start)
    ≡ returned already
unfolding choose_reauthentication has_recent_redirect_reauthentication finish_redirect
    remember_redirect_reauthentication finish_handshake clear_error text_eq
skipped = refl

choose_reauthentication-already_example :
    (r : Reauthentication) × IsReturned r returning
    × (r.user_id ≡ codes "ann")
    × (r.provider_id ≡ codes "google.com")
    × (r.completed_at ≤ 9000)
    × (9000 ≤ r.completed_at + max_age)
choose_reauthentication-already_example =
    choose_reauthentication-already 9000 true (codes "ann") (codes "google.com") [] none returning
      start refl skipped

-- The server's answer for a user who has signed out in the meantime sets the user again.
late_handshake :
    (acts
      (event signed_out ∷ logged_out (fulfilled true) ∷ event (handshake (fulfilled ann)) ∷ [])
      start).user
    ≡ some ann
unfolding auth_signed_out finish_logout finish_handshake
late_handshake = refl
