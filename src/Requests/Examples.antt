-- ===== src/Requests/Examples.antt =====
-- Concrete requests and answers.
use moonlit_ai_agent.Prelude.{
  includes, ◌≡◌, refl, false, Option, none, some, [], Text, codes, text_eq, trim, trim_start,
  trim_end, is_space,
}
use moonlit_ai_agent.Prelude.Json.{Value, str, null, obj, member, end}
use moonlit_ai_agent.Requests.{
  value, read_cookie, cookie_parts, Response, read, api_client, api_error, caught, null_error,
}
use moonlit_ai_agent.Requests.Answered.{IsRight, api_client-IsRight}

abbrev cookies : Text
cookies = codes "theme=dark; csrf_token=k1"

abbrev plain : Text → Option Text
plain s = some s

token_of_cookies : read_cookie plain (codes "csrf_token") cookies ≡ value (codes "k1")
unfolding read_cookie cookie_parts trim trim_start trim_end is_space
token_of_cookies = refl

abbrev refusal : Value → Response
refusal body = record {
  status = 403;
  ok = false;
  status_text = codes "Forbidden";
  content_type = some (codes "application/json");
  json = read body;
  text = read [];
}

api_client-IsRight_example :
    IsRight
      (refusal (obj (member (codes "message") (str (codes "no")) end)))
      (api_client (read (refusal (obj (member (codes "message") (str (codes "no")) end)))))
api_client-IsRight_example =
    api_client-IsRight (refusal (obj (member (codes "message") (str (codes "no")) end)))

-- The status of an answer whose body is `null` is lost.
null_refusal : api_client (read (refusal null)) ≡ api_error null_error.message 0 none
unfolding api_client caught text_eq includes
null_refusal = refl
