-- ===== src/Account.antt =====
-- front-end/src/features/dashboard/accountModel.js and guards/routeGuardModel.js: the names under
-- which an account's data is stored, the checks of what the user enters, and who may see a page.
pub mod User
pub mod Stored
pub mod Unlinked
mod Examples
use moonlit_ai_agent.Prelude.{
  ℕ, Bool, true, false, not, Option, none, some, List, [], ◌∷◌, ◌++◌, Text, text_eq, codes,
  starts_with, trim, delete, filter, any, length, leb, ltb, is_empty, ◌&&◌, ◌||◌, Dict, map,
  if◌then◌else◌,
}

-- `throw new Error(…)`, with its message, or what is returned.
pub data Checked {ℓ} (A : Type ℓ) : Type ℓ where
  thrown : Text → Checked A
  returned : A → Checked A

abbrev pub storage_key : Text → Text → Text
storage_key user_id resource = codes "moonlit:" ++ (user_id ++ (58 ∷ resource))

unfoldable pub get_account_storage_key : Text → Text → Checked Text
get_account_storage_key user_id resource =
    if is_empty (trim user_id) || is_empty (trim resource)
    then thrown (codes "A user and storage resource are required.")
    else returned (storage_key (trim user_id) (trim resource))

unfoldable pub normalize_display_name : Text → Checked Text
normalize_display_name value =
    if is_empty (trim value)
    then thrown (codes "Display name is required.")
    else if ltb 80 (length (trim value))
    then thrown (codes "Display name must be 80 characters or fewer.")
    else returned (trim value)

-- `list.includes(t)`.
abbrev pub contains_text : Text → List Text → Bool
contains_text t ts = any (λ s. text_eq s t) ts

-- `new Set(list)`, of which the first of equal texts stands.
unfoldable pub unique_texts : List Text → List Text
unique_texts [] = []
unique_texts (t ∷ ts) = t ∷ filter (λ s. not (text_eq s t)) (unique_texts ts)

-- `list.filter(Boolean)`.
abbrev pub filled : List Text → List Text
filled ts = filter (λ t. not (is_empty t)) ts

unfoldable pub can_unlink_provider : List Text → Text → Bool
can_unlink_provider providers provider =
    let unique = unique_texts (filled providers) in
    contains_text provider unique && ltb 1 (length unique)

abbrev pub legacy_account_keys : List Text
legacy_account_keys = codes "moonlit-settings" ∷ codes "moonlit-saved-connection" ∷ []

-- The keys that are removed with an account.
unfoldable pub is_account_key : Text → Text → Bool
is_account_key user_id key =
    starts_with (codes "moonlit:" ++ (user_id ++ codes ":")) key
    || starts_with (codes "moonlit:perspective:v4:") key
    || contains_text key legacy_account_keys

abbrev remove_keys : (Text → Bool) → List Text → Dict Text → Dict Text
remove_keys p [] storage = storage
remove_keys p (k ∷ ks) storage = remove_keys p ks (if p k then delete k storage else storage)

-- The keys are listed before any is removed; the empty one is left out.
unfoldable pub clear_account_storage : Text → Dict Text → Dict Text
clear_account_storage user_id storage =
    if is_empty user_id
    then storage
    else remove_keys (is_account_key user_id) (filled (map (λ e. e.0) storage)) storage

pub data Decision : Type 0 where
  loading allow : Decision
  redirect_to : Text → Decision

unfoldable pub get_protected_route_decision : Bool → Bool → Decision
get_protected_route_decision is_loading is_authenticated =
    if is_loading then loading else if is_authenticated then allow else redirect_to (codes "/auth")

-- The ids are options: `none` is what is no text.
abbrev is_admin : Option Text → Option Text → Bool
is_admin none admin = false
is_admin (some user) none = false
is_admin (some user) (some admin) = not (is_empty (trim admin)) && text_eq user (trim admin)

unfoldable pub get_admin_route_decision : Bool → Bool → Option Text → Option Text → Decision
get_admin_route_decision is_loading is_authenticated user_uid admin_uid =
    if is_loading
    then loading
    else if not is_authenticated
    then redirect_to (codes "/auth")
    else if is_admin user_uid admin_uid
    then allow
    else redirect_to (codes "/chat")
