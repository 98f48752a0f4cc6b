-- ===== src/Requests.antt =====
-- front-end/src/api/client.js and api/conversationRequestModel.js: what a request carries, and what
-- becomes of the answer. `fetch`, `decodeURIComponent` and `JSON.stringify` are not this code's.
pub mod Answered
pub mod Protected
mod Examples
use moonlit_ai_agent.Prelude.{
  ℕ, Bool, true, false, not, Option, none, some, List, [], ◌∷◌, ◌++◌, Text, text_eq, codes,
  starts_with, trim, drop, length, find, map, includes, ◌==◌, ◌&&◌, ◌||◌, Dict, insert,
  if◌then◌else◌,
}
use moonlit_ai_agent.Prelude.Json.{
  Value, null, obj, num, get_member, is_truthy, to_text, Members, member, end,
}

-- `split(';')`.
abbrev add_letter : ℕ → List Text → List Text
add_letter c [] = (c ∷ []) ∷ []
add_letter c (w ∷ ws) = (c ∷ w) ∷ ws

unfoldable pub cookie_parts : Text → List Text
cookie_parts [] = [] ∷ []
cookie_parts (c ∷ s) = let rest = cookie_parts s in if c == 59 then [] ∷ rest else add_letter c rest

-- What is read of a cookie: nothing, its value, or an exception if it cannot be decoded.
pub data Cookie : Type 0 where
  absent malformed : Cookie
  value : Text → Cookie

abbrev decoded : Option Text → Cookie
decoded none = malformed
decoded (some t) = value t

unfoldable pub read_cookie : (Text → Option Text) → Text → Text → Cookie
read_cookie decode name cookies =
    elim (find (starts_with (name ++ codes "=")) (map trim (cookie_parts cookies))) [
      | none ↦ absent
      | some part ↦ decoded (decode (drop (length (name ++ codes "=")) part))
    ]

abbrev pub csrf_header : Text
csrf_header = codes "x-csrf-token"

abbrev pub is_changing : Text → Bool
is_changing method =
    text_eq method (codes "POST")
    || text_eq method (codes "PUT")
    || text_eq method (codes "PATCH")
    || text_eq method (codes "DELETE")

-- `none` is the exception of a malformed cookie.
abbrev token_headers : Cookie → Option (Dict Text)
token_headers absent = some []
token_headers malformed = none
token_headers (value []) = some []
token_headers (value (c ∷ s)) = some ((csrf_header, c ∷ s) ∷ [])

unfoldable pub csrf_headers : (Text → Option Text) → Text → Text → Option (Dict Text)
csrf_headers decode cookies method =
    if is_changing method
    then token_headers (read_cookie decode (codes "csrf_token") cookies)
    else some []

pub data Body : Type 0 where
  no_body form_data : Body
  json_body : Value → Body

abbrev spread : Dict Text → Dict Text → Dict Text
spread base [] = base
spread base ((k, v) ∷ m) = spread (insert k v base) m

abbrev content_type : Body → Dict Text → Dict Text
content_type (json_body v) headers =
    insert (codes "Content-Type") (codes "application/json") headers
content_type _ headers = headers

-- The headers of a request, with those that the caller gives.
unfoldable pub request_headers :
    (Text → Option Text) → Text → Text → Body → Dict Text → Option (Dict Text)
request_headers decode cookies method body custom = elim (csrf_headers decode cookies method) [
  | none ↦ none
  | some csrf ↦ some (content_type body (spread csrf custom))
]

-- An exception that is no `ApiError`.
pub record JsError : Type 0 where
  pub name : Text
  pub message : Text

pub data Read {ℓ} (A : Type ℓ) : Type ℓ where
  read : A → Read A
  unread : JsError → Read A

pub record Response : Type 0 where
  pub status : ℕ
  pub ok : Bool
  pub status_text : Text
  pub content_type : Option Text
  pub json : Read Value
  pub text : Read Text

-- What a request comes to.
pub data Result : Type 0 where
  returned_null : Result
  returned_data : Value → Result
  returned_response : Response → Result
  api_error : (message : Text) → (status : ℕ) → (payload : Option Value) → Result
  aborted : Result

abbrev or_text : Text → Text → Text
or_text [] d = d
or_text (c ∷ s) d = c ∷ s

-- The `catch`.
unfoldable pub caught : JsError → Result
caught e =
    if text_eq e.name (codes "AbortError")
    then aborted
    else api_error (or_text e.message (codes "Network error")) 0 none

abbrev pub failed_text : Response → Text
failed_text r = codes "Request failed: " ++ r.status_text

-- Of `null` no member can be read.
abbrev pub null_error : JsError
null_error = record {
  name = codes "TypeError";
  message = codes "Cannot read properties of null (reading 'message')";
}

abbrev refuse : Response → Value → Result
refuse r null = caught null_error
refuse r v =
    let message = get_member (codes "message") v in
    api_error (if is_truthy message then to_text message else failed_text r) r.status (some v)

abbrev use_json : Response → Read Value → Result
use_json r (unread e) = caught e
use_json r (read v) = if r.ok then returned_data v else refuse r v

abbrev unless_ok : Response → Result → Result
unless_ok r result = if r.ok then result else api_error (failed_text r) r.status none

abbrev is_json : Option Text → Bool
is_json none = false
is_json (some []) = false
is_json (some (c ∷ s)) = includes (codes "application/json") (c ∷ s)

unfoldable pub api_client : Read Response → Result
api_client (unread e) = caught e
api_client (read r) =
    if r.status == 204
    then unless_ok r returned_null
    else if is_json r.content_type
    then use_json r r.json
    else unless_ok r (returned_response r)

abbrev refuse_raw : Response → Read Text → Result
refuse_raw r (unread e) = caught e
refuse_raw r (read t) = api_error (or_text t (failed_text r)) r.status none

unfoldable pub post_raw : Read Response → Result
post_raw (unread e) = caught e
post_raw (read r) = if r.ok then returned_response r else refuse_raw r r.text

-- The request of a chat message; a missing member is left out.
abbrev known_id : Option Text → Members → Members
known_id none ms = ms
known_id (some id) ms = member (codes "conversation_id") (Value.str id) ms

abbrev max_rows_of : ℕ → Value
max_rows_of n = if n == 0 then null else num n

unfoldable pub build_chat_request_payload :
    Text → Option Text → Value → Value → Value → ℕ → Value → Value → Value → Value
build_chat_request_payload prompt conversation_id reasoning effort style max_rows provider model
      mode =
    obj (
      member (codes "prompt") (Value.str prompt) (
        known_id conversation_id (
          member (codes "enable_reasoning") reasoning (
            member (codes "reasoning_effort") effort (
              member (codes "response_style") style (
                member (codes "max_rows") (max_rows_of max_rows) (
                  member (codes "provider") provider
                    (member (codes "model") model (member (codes "task_mode") mode end)))))))))
