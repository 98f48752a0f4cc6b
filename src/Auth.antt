-- ===== src/Auth.antt =====
-- front-end/src/contexts/AuthContext.jsx: the signed-in user, as the identity provider's events and
-- the server's answers make it. `active` is the flag of the effect, which its cleanup lowers. What
-- the session's storage holds is what this code has put there, and how often the query cache is
-- cleared is counted.
pub mod Actions
pub mod Acts
pub mod Rejected
pub mod Recent
pub mod Unmounted
mod Examples
use moonlit_ai_agent.Prelude.{
  ℕ, ◌-◌, Bool, true, false, not, Option, none, some, List, [], ◌∷◌, Text, text_eq, codes, leb,
  is_empty, ◌&&◌, Dict, lookup, if◌then◌else◌,
}
use moonlit_ai_agent.Account.User.{AuthUser}

-- `sessionStorage` under `moonlit-auth-pending-action`.
pub record PendingAction : Type 0 where
  pub type : Text
  pub provider_id : Text

-- And under `moonlit-auth-recent-reauthentication`.
pub record Reauthentication : Type 0 where
  pub user_id : Text
  pub provider_id : Text
  pub completed_at : ℕ

pub record Auth : Type 0 where
  pub user : Option AuthUser
  pub loading : Bool
  pub error : Option Text
  pub initialized : Bool
  pub active : Bool
  pub pending : Option PendingAction
  pub recent : Option Reauthentication
  pub local_storage : Dict Text
  pub cache_clears : ℕ

pub record AuthError : Type 0 where
  pub code : Option Text
  pub message : Text

pub data Outcome {ℓ} (A : Type ℓ) : Type ℓ where
  fulfilled : A → Outcome A
  rejected : AuthError → Outcome A

abbrev error_messages : Dict Text
error_messages =
    (codes "auth/email-already-in-use", codes "Email already registered.")
    ∷ (codes "auth/invalid-email", codes "Invalid email address.")
    ∷ (codes "auth/operation-not-allowed", codes "Sign-in method not enabled.")
    ∷ (codes "auth/weak-password", codes "Password must be at least 6 characters.")
    ∷ (codes "auth/user-disabled", codes "Account disabled.")
    ∷ (codes "auth/user-not-found", codes "No account found.")
    ∷ (codes "auth/wrong-password", codes "Incorrect password.")
    ∷ (codes "auth/invalid-credential", codes "Invalid email or password.")
    ∷ (codes "auth/too-many-requests", codes "Too many attempts. Try again later.")
    ∷ (codes "auth/popup-closed-by-user", codes "Sign-in cancelled.")
    ∷ (
      codes "auth/account-exists-with-different-credential",
      codes "Email exists with different sign-in method.",
    )
    ∷ (
      codes "auth/credential-already-in-use",
      codes "That sign-in method already belongs to another account.",
    )
    ∷ (codes "auth/provider-already-linked", codes "That sign-in method is already linked.")
    ∷ (
      codes "auth/requires-recent-login",
      codes "Please reauthenticate before completing this sensitive action.",
    )
    ∷ []

abbrev or_message : Option Text → Text → Text
or_message none m = m
or_message (some t) m = t

unfoldable pub get_error_message : AuthError → Text
get_error_message e = elim e.code [
  | none ↦ e.message
  | some code ↦ or_message (lookup code error_messages) e.message
]

-- `rememberRedirectReauthentication`, for a result with a user.
unfoldable pub remember_redirect_reauthentication :
    ℕ → Text → Option PendingAction → Option Reauthentication → Option Reauthentication
remember_redirect_reauthentication now user_id none recent = recent
remember_redirect_reauthentication now user_id (some p) recent =
    if text_eq p.type (codes "reauthenticate")
      && (not (is_empty p.provider_id) && not (is_empty user_id))
    then some (record { user_id = user_id; provider_id = p.provider_id; completed_at = now })
    else recent

abbrev pub max_age : ℕ
max_age = 300_000

abbrev pub is_recent : ℕ → Text → Text → Option Reauthentication → Bool
is_recent now user_id provider_id none = false
is_recent now user_id provider_id (some r) =
    text_eq r.user_id user_id
    && (text_eq r.provider_id provider_id
        && (leb r.completed_at now && leb (now - r.completed_at) max_age))

-- `hasRecentRedirectReauthentication`: what is not recent any more is removed.
unfoldable pub has_recent_redirect_reauthentication :
    ℕ → Text → Text → Option Reauthentication → Bool × Option Reauthentication
has_recent_redirect_reauthentication now user_id provider_id recent =
    let found = is_recent now user_id provider_id recent in (found, if found then recent else none)

abbrev pub if_active : Auth → Auth → Auth
if_active s t = if s.active then t else s

-- `init`: the configuration has arrived, or an exception has ended it.
unfoldable pub finish_initialize : Bool → Auth → Auth
finish_initialize has_auth s = if_active s (
    if has_auth
    then record s { initialized = true }
    else record s { initialized = true; loading = false })

unfoldable pub fail_initialize : Text → Auth → Auth
fail_initialize message s = if_active s (record s { error = some message; loading = false })

-- The result of a redirect, with the user's id if there was one, and the pending action as it was
-- read before the request. The storage is written whether or not the effect is still active.
unfoldable pub finish_redirect : ℕ → Option PendingAction → Outcome (Option Text) → Auth → Auth
finish_redirect now pending (fulfilled none) s = s
finish_redirect now pending (fulfilled (some user_id)) s = record s {
  recent = remember_redirect_reauthentication now user_id pending s.recent;
  pending = none;
}
finish_redirect now pending (rejected e) s = elim e.code [
  | none ↦ s
  | some code ↦
      if is_empty code
      then s
      else if text_eq code (codes "auth/popup-closed-by-user")
      then s
      else if_active s (record s { error = some (get_error_message e) })
]

-- `onAuthStateChanged` without a user.
unfoldable pub auth_signed_out : Auth → Auth
auth_signed_out s = if_active s (record s { user = none; loading = false })

-- With a user, when the server has answered. A failure signs out before the loading ends.
unfoldable pub finish_handshake : Outcome AuthUser → Auth → Auth
finish_handshake (fulfilled u) s = if_active s (record s { user = some u; loading = false })
finish_handshake (rejected e) s = if_active s (record s {
  user = none;
  error = some (codes "Unable to start a secure session. Please sign in again.");
})

unfoldable pub finish_failed_handshake : Auth → Auth
finish_failed_handshake s = if_active s (record s { loading = false })

unfoldable pub unmount : Auth → Auth
unmount s = record s { active = false }
