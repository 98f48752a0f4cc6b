-- ===== src/Auth/Actions.antt =====
-- front-end/src/contexts/AuthContext.jsx: what the pages ask for. An action clears the error at once,
-- and its end is an operation of its own. The request is the identity provider's or the server's.
use moonlit_ai_agent.Prelude.{
  ℕ, suc, Bool, Option, none, some, List, [], ◌∷◌, Text, text_eq, codes, trim, is_empty, ◌||◌,
  if◌then◌else◌,
}
use moonlit_ai_agent.Account.{
  Checked, thrown, returned, normalize_display_name, can_unlink_provider, clear_account_storage,
}
use moonlit_ai_agent.Account.User.{AuthUser}
use moonlit_ai_agent.Auth.{
  Auth, AuthError, Outcome, fulfilled, rejected, PendingAction, get_error_message,
  has_recent_redirect_reauthentication,
}

unfoldable pub begin_action : Auth → Auth
begin_action s = record s { error = none }

unfoldable pub fail_action : AuthError → Auth → Auth
fail_action e s = record s { error = some (get_error_message e) }

-- `signUpWithEmail`, `signInWithEmail`, `resetPassword`, `requestEmailChange`, `changePassword` and
-- the sign-ins with Google and GitHub: the user is set by the event that follows, not here.
unfoldable pub finish_request : {A : Type 0} → Outcome A → Auth → Auth
finish_request (fulfilled a) s = s
finish_request (rejected e) s = fail_action e s

-- `updateDisplayName`, when the server has answered or a request has failed.
unfoldable pub finish_update : Outcome AuthUser → Auth → Auth
finish_update (fulfilled u) s = record s { user = some u }
finish_update (rejected e) s = fail_action e s

-- `refreshCurrentUser`, by itself or at the end of linking and unlinking, which return its promise
-- from within `try` and so do not see it fail.
unfoldable pub finish_refresh : Outcome AuthUser → Auth → Auth
finish_refresh (fulfilled u) s = record s { user = some u }
finish_refresh (rejected e) s = s

abbrev plain : Text → AuthError
plain message = record { code = none; message = message }

-- What an action throws before it asks anyone is shown too.
abbrev pub begin_checked : {A : Type 0} → Checked A → Auth → Auth
begin_checked (thrown message) s = fail_action (plain message) (begin_action s)
begin_checked (returned a) s = begin_action s

unfoldable pub update_display_name : Text → Auth → Auth
update_display_name value s = begin_checked (normalize_display_name value) s

abbrev provider_ids : Option AuthUser → List Text
provider_ids none = []
provider_ids (some u) = u.provider_ids

unfoldable pub check_unlink : Text → Auth → Checked Text
check_unlink provider s =
    if can_unlink_provider (provider_ids s.user) provider
    then returned provider
    else thrown (codes "The last sign-in method cannot be removed.")

abbrev is_supported : Text → Bool
is_supported provider =
    text_eq provider (codes "google.com") || text_eq provider (codes "github.com")

unfoldable pub unlink_auth_provider : Text → Auth → Auth
unlink_auth_provider provider s = begin_checked (check_unlink provider s) s

-- How a provider is linked: with an e-mail address and a password, in a window, or by a redirect,
-- which leaves the page.
pub data Way : Type 0 where
  with_credential : (email password : Text) → Way
  with_popup with_redirect : (provider : Text) → Way
  already : Way

abbrev or_text : Text → Option Text → Text
or_text [] none = []
or_text [] (some t) = t
or_text (c ∷ s) _ = c ∷ s

unfoldable pub choose_link : Bool → Text → Text → Text → Option Text → Checked Way
choose_link is_mobile provider email password own_email =
    if text_eq provider (codes "password")
    then if is_empty (trim (or_text email own_email)) || is_empty password
      then thrown (codes "Email and password are required.")
      else returned (with_credential (trim (or_text email own_email)) password)
    else if is_supported provider
    then returned (if is_mobile then with_redirect provider else with_popup provider)
    else thrown (codes "Unsupported sign-in provider.")

-- The pending action that is stored before a redirect.
abbrev pending_of : Text → Way → Option PendingAction → Option PendingAction
pending_of type (with_redirect provider) old = some (record { type = type; provider_id = provider })
pending_of type _ old = old

abbrev pub leave_for : Text → Checked Way → Auth → Auth
leave_for type (thrown message) s = fail_action (plain message) s
leave_for type (returned way) s = record s { pending = pending_of type way s.pending }

unfoldable pub link_auth_provider : Bool → Text → Text → Text → Option Text → Auth → Auth
link_auth_provider is_mobile provider email password own_email s =
    leave_for (codes "link") (choose_link is_mobile provider email password own_email)
      (begin_action s)

abbrev first_or_empty : List Text → Text
first_or_empty [] = []
first_or_empty (p ∷ ps) = p

abbrev filled_email : Option Text → Text
filled_email none = []
filled_email (some t) = t

-- The provider of a reauthentication: the one that is asked for, or the user's first.
unfoldable pub selected_provider : Text → Auth → Text
selected_provider provider s = or_text provider (some (first_or_empty (provider_ids s.user)))

unfoldable pub choose_reauthentication :
    ℕ → Bool → Text → Text → Text → Option Text → Auth → Checked Way
choose_reauthentication now is_mobile uid provider password own_email s =
    if text_eq provider (codes "password")
    then if is_empty (filled_email own_email) || is_empty password
      then thrown (codes "Current password is required.")
      else returned (with_credential (filled_email own_email) password)
    else if (has_recent_redirect_reauthentication now uid provider s.recent).0
    then returned already
    else if is_supported provider
    then returned (if is_mobile then with_redirect provider else with_popup provider)
    else thrown (codes "Unsupported sign-in provider.")

-- With a password what the storage holds is not looked at.
abbrev pub recent_after : ℕ → Text → Text → Auth → Auth
recent_after now uid provider s =
    if text_eq provider (codes "password")
    then s
    else record s { recent = (has_recent_redirect_reauthentication now uid provider s.recent).1 }

unfoldable pub reauthenticate_current_user :
    ℕ → Bool → Text → Text → Text → Option Text → Auth → Auth
reauthenticate_current_user now is_mobile uid asked password own_email s =
    let provider = selected_provider asked s in
    leave_for (codes "reauthenticate")
      (choose_reauthentication now is_mobile uid provider password own_email s)
      (recent_after now uid provider (begin_action s))

-- `deleteCurrentAccount`, with the id of the user at its call. That the identity provider may fail to
-- sign out is of no account.
unfoldable pub finish_delete : Text → Outcome Bool → Auth → Auth
finish_delete uid (rejected e) s = fail_action e s
finish_delete uid (fulfilled b) s = record s {
  user = none;
  pending = none;
  recent = none;
  local_storage = clear_account_storage uid s.local_storage;
  cache_clears = suc s.cache_clears;
}

-- `logout`, when both the identity provider and the server have answered, or one has failed.
unfoldable pub finish_logout : Outcome Bool → Auth → Auth
finish_logout (rejected e) s = fail_action e s
finish_logout (fulfilled b) s = record s {
  user = none;
  pending = none;
  recent = none;
  cache_clears = suc s.cache_clears;
}

unfoldable pub clear_error : Auth → Auth
clear_error s = record s { error = none }
