-- ===== src/Account/User.antt =====
-- front-end/src/utils/authUserProfile.js: the user, made of what the identity provider and the server
-- say. `toUpperCase` and `toLowerCase` are the language's, and so are dates: `iso_date` is `none` for
-- what is no date. The ids of providers are texts wherever they are given.
use moonlit_ai_agent.Prelude.{
  ℕ, Bool, Option, none, some, List, [], ◌∷◌, ◌++◌, Text, text_eq, codes, map, leb, ◌+◌, ◌==◌, ◌&&◌,
  ◌||◌, Dict, lookup, join, if◌then◌else◌,
}
use moonlit_ai_agent.Prelude.Json.{
  Value, Values, undefined, bool, str, arr, nil, cons, get_member, is_truthy, value_or, trimmed,
}
use moonlit_ai_agent.Account.{filled, unique_texts}

pub record Language : Type 0 where
  pub to_lower : Text → Text
  pub to_upper : Text → Text
  pub iso_date : Value → Option Text

pub record AuthUser : Type 0 where
  pub uid : Value
  pub email : Value
  pub display_name : Value
  pub photo_url : Value
  pub email_verified : Option Bool
  pub providers : List Text
  pub provider_ids : List Text
  pub created_at : Option Text
  pub last_sign_in_at : Option Text

abbrev provider_labels : Dict Text
provider_labels =
    (codes "password", codes "Email")
    ∷ (codes "google.com", codes "Google")
    ∷ (codes "github.com", codes "GitHub")
    ∷ []

-- `getProviderId(value)?.trim()`; what is not there is empty.
unfoldable pub provider_id : Value → Text
provider_id (str s) = trimmed (str s)
provider_id v = trimmed (get_member (codes "providerId") v)

abbrev small : ℕ → ℕ
small c = if leb 65 c && leb c 90 then c + 32 else c

-- `/\.com$/i`, removed.
unfoldable pub without_com : Text → Text
without_com [] = []
without_com (c ∷ s) =
    let rest = without_com s in if text_eq (map small (c ∷ s)) (codes ".com") then [] else c ∷ rest

abbrev is_separator : ℕ → Bool
is_separator c = c == 46 || c == 95 || c == 45

abbrev add_letter : ℕ → List Text → List Text
add_letter c [] = (c ∷ []) ∷ []
add_letter c (w ∷ ws) = (c ∷ w) ∷ ws

-- `split(/[._-]+/)`: runs of separators leave empty parts, which are then left out.
unfoldable pub split_parts : Text → List Text
split_parts [] = [] ∷ []
split_parts (c ∷ s) =
    let rest = split_parts s in if is_separator c then [] ∷ rest else add_letter c rest

abbrev items_of : Values → List Value
items_of nil = []
items_of (cons v vs) = v ∷ items_of vs

-- `value || []` for a list.
abbrev list_of : Value → List Value
list_of (arr vs) = items_of vs
list_of _ = []

abbrev boolean : Value → Option Bool
boolean (bool b) = some b
boolean _ = none

abbrev or_boolean : Option Bool → Option Bool → Option Bool
or_boolean none b = b
or_boolean (some a) b = some a

unfoldable pub before_at : Text → Text
before_at [] = []
before_at (c ∷ s) = let rest = before_at s in if c == 64 then [] else c ∷ rest

-- `email?.split('@')[0]`.
abbrev local_part : Value → Value
local_part (str s) = str (before_at s)
local_part _ = undefined

module _ (language : Language) where
  open language use {to_lower, to_upper, iso_date}

  abbrev capitalized : Text → Text
  capitalized [] = []
  capitalized (c ∷ s) = to_upper (c ∷ []) ++ to_lower s

  unfoldable pub provider_label : Text → Text
  provider_label [] = []
  provider_label (c ∷ s) = elim (lookup (c ∷ s) provider_labels) [
    | some label ↦ label
    | none ↦ join (codes " ") (map capitalized (filled (split_parts (without_com (c ∷ s)))))
  ]

  unfoldable pub normalize_auth_timestamp : Value → Option Text
  normalize_auth_timestamp v = if is_truthy v then iso_date v else none

  -- The providers that the server names: a list, or one under either of two names.
  abbrev backend_providers : Value → Value → List Value
  backend_providers (arr vs) backend = items_of vs
  backend_providers _ backend =
      get_member (codes "provider") backend ∷ get_member (codes "providerId") backend ∷ []

  abbrev verified : Value → Value → Option Bool
  verified firebase backend = or_boolean (boolean (get_member (codes "emailVerified") backend)) (
      or_boolean (boolean (get_member (codes "verified") backend))
        (boolean (get_member (codes "emailVerified") firebase)))

  unfoldable pub normalize_auth_user : Value → Value → AuthUser
  normalize_auth_user firebase backend =
      let given =
        backend_providers (get_member (codes "providers") backend) backend
        ++ list_of (get_member (codes "providerData") firebase) in
      let ids = map provider_id given in
      let email = get_member (codes "email") firebase in
      let metadata = get_member (codes "metadata") firebase in
      record {
        uid = value_or (get_member (codes "uid") backend) (get_member (codes "uid") firebase);
        email = value_or (get_member (codes "email") backend) email;
        display_name = value_or (get_member (codes "displayName") backend) (
            value_or (get_member (codes "name") backend)
              (value_or (get_member (codes "displayName") firebase) (local_part email)));
        photo_url = value_or (get_member (codes "photoURL") backend) (
            value_or (get_member (codes "picture") backend)
              (get_member (codes "photoURL") firebase));
        email_verified = verified firebase backend;
        providers = unique_texts (filled (map provider_label ids));
        provider_ids = unique_texts (filled ids);
        created_at = normalize_auth_timestamp (
            value_or (get_member (codes "createdAt") backend) (
              value_or (get_member (codes "created_at") backend)
                (get_member (codes "creationTime") metadata)));
        last_sign_in_at = normalize_auth_timestamp (
            value_or (get_member (codes "lastSignInAt") backend) (
              value_or (get_member (codes "last_sign_in_at") backend)
                (get_member (codes "lastSignInTime") metadata)));
      }
