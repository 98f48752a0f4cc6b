-- ===== src/Requests/Answered.antt =====
-- front-end/src/api/client.js: what a request comes to.
use mathlib.Core.Path.{subst}
use moonlit_ai_agent.Prelude.{
  ◌≡◌, ◌⊎◌, inl, inr, refl, sym, true, false, Option, none, Text, ◌==◌, Bool-cases,
}
use moonlit_ai_agent.Prelude.Json.{Value, undefined, null, bool, num, str, arr, obj}
use moonlit_ai_agent.Requests.{
  Read, read, unread, JsError, Response, Result, returned_null, returned_data, returned_response,
  api_error, caught, null_error, api_client, is_json, use_json, refuse, unless_ok, failed_text,
}

-- The result is an error with the status of the answer.
pub IsRefusal : Response → Result → Type 0
IsRefusal r result = (m : Text) × (payload : Option Value) × (result ≡ api_error m r.status payload)

-- The body of the answer is not what it says to be: it cannot be read, or it is `null` where a
-- message is looked for.
pub IsBroken : Response → Result → Type 0
IsBroken r result =
    (e : JsError) × ((r.json ≡ unread e) ⊎ ((r.json ≡ read null) × (e ≡ null_error)))
    × (result ≡ caught e)

pub IsAnswer : Response → Result → Type 0
IsAnswer r result =
    (result ≡ returned_null)
    ⊎ ((result ≡ returned_response r)
        ⊎ ((v : Value) × (r.json ≡ read v) × (result ≡ returned_data v)))

refuse-IsRefusal :
    (r : Response) (v : Value)
    → r.json ≡ read v
    → IsRefusal r (refuse r v) ⊎ IsBroken r (refuse r v)
unfolding IsRefusal IsBroken
refuse-IsRefusal r null h = inr (null_error, inr (h, refl), refl)
refuse-IsRefusal r undefined h = inl (_, _, refl)
refuse-IsRefusal r (bool b) h = inl (_, _, refl)
refuse-IsRefusal r (num n) h = inl (_, _, refl)
refuse-IsRefusal r (str s) h = inl (_, _, refl)
refuse-IsRefusal r (arr vs) h = inl (_, _, refl)
refuse-IsRefusal r (obj ms) h = inl (_, _, refl)

-- What is right for an answer, whether it is ok or not.
abbrev pub IsRight : Response → Result → Type 0
IsRight r result =
    ((r.ok ≡ false) × (IsRefusal r result ⊎ IsBroken r result))
    ⊎ ((r.ok ≡ true) × (IsAnswer r result ⊎ IsBroken r result))

unless_ok-IsRight :
    (r : Response) (result : Result) → IsAnswer r result → IsRight r (unless_ok r result)
unfolding IsRefusal
unless_ok-IsRight r result h = elim (Bool-cases r.ok) [
  | inl good ↦ inr (good, inl (subst (IsAnswer r) (sym (rw good)) h))
  | inr bad ↦ inl (bad, inl (failed_text r, none, rw bad))
]

use_json-IsRight : (r : Response) (o : Read Value) → r.json ≡ o → IsRight r (use_json r o)
unfolding IsBroken IsAnswer
use_json-IsRight r (unread e) h = elim (Bool-cases r.ok) [
  | inl good ↦ inr (good, inr (e, inl h, refl))
  | inr bad ↦ inl (bad, inr (e, inl h, refl))
]
use_json-IsRight r (read v) h = elim (Bool-cases r.ok) [
  | inl good ↦ inr (good, inl (inr (inr (v, h, rw good))))
  | inr bad ↦
      inl (bad, subst (λ x. IsRefusal r x ⊎ IsBroken r x) (sym (rw bad)) (refuse-IsRefusal r v h))
]

-- An answer that is not ok never comes back as a result: it ends in an error with its status, or, if
-- its body is not the JSON that it says to be, in the error of reading it, or, if the body is the
-- JSON `null`, in the error of looking for a message in it, which has no status. An answer that is ok comes
-- back, as nothing, as itself or as its data, or ends in the error of reading its body.
pub api_client-IsRight : (r : Response) → IsRight r (api_client (read r))
unfolding api_client IsAnswer
api_client-IsRight r = elim (Bool-cases (r.status == 204)) [
  | inl empty ↦
      let e : api_client (read r) ≡ unless_ok r returned_null = rw empty in
      subst (IsRight r) (sym e) (unless_ok-IsRight r returned_null (inl refl))
  | inr full ↦ elim (Bool-cases (is_json r.content_type)) [
    | inr other ↦
        let e : api_client (read r) ≡ unless_ok r (returned_response r) = rw (full, other) in
        subst (IsRight r) (sym e) (unless_ok-IsRight r (returned_response r) (inr (inl refl)))
    | inl said ↦
        let e : api_client (read r) ≡ use_json r r.json = rw (full, said) in
        subst (IsRight r) (sym e) (use_json-IsRight r r.json refl)
  ]
]
