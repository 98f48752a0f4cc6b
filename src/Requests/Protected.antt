-- ===== src/Requests/Protected.antt =====
-- front-end/src/api/client.js: which requests carry the token of the cookie.
use moonlit_ai_agent.Prelude.{
  ◌≡◌, ◌∙◌, refl, Option, none, some, [], ◌∷◌, Text, text_eq, text_eq_iff, codes, Dict, lookup,
  insert, lookup-insert, Bool-cases, inl, inr, if◌then◌else◌, arith, ℕ,
}
use moonlit_ai_agent.Requests.{
  value, Body, no_body, form_data, json_body, read_cookie, csrf_headers, csrf_header, is_changing,
  request_headers, spread, content_type,
}

lookup-spread :
    (k : Text) (base m : Dict Text) → lookup k m ≡ none → lookup k (spread base m) ≡ lookup k base
unfolding lookup
lookup-spread k base [] h = refl
lookup-spread k base ((j, v) ∷ m) h =
    ground
      (arith, h, text_eq_iff j k, lookup-insert j k v base, lookup-spread k (insert j v base) m)

lookup-content_type :
    (body : Body) (headers : Dict Text)
    → lookup csrf_header (content_type body headers) ≡ lookup csrf_header headers
unfolding text_eq
lookup-content_type no_body headers = refl
lookup-content_type form_data headers = refl
lookup-content_type (json_body v) headers =
    lookup-insert (codes "Content-Type") csrf_header (codes "application/json") headers

-- A request whose cookie has a token carries it in its header if the method changes something, and
-- does not carry it otherwise, whatever its body and the other headers that the caller gives.
pub lookup-request_headers :
    (decode : Text → Option Text) (cookies method : Text) (body : Body) (custom : Dict Text) (c : ℕ)
    (token : Text)
    → read_cookie decode (codes "csrf_token") cookies ≡ value (c ∷ token)
    → lookup csrf_header custom ≡ none
    → (headers : Dict Text) × (request_headers decode cookies method body custom ≡ some headers)
      × (lookup csrf_header headers ≡ (if is_changing method then some (c ∷ token) else none))
unfolding lookup text_eq csrf_headers request_headers
lookup-request_headers decode cookies method body custom c token cookie free =
    elim (Bool-cases (is_changing method)) [
      | inl changes ↦
          let sent : Dict Text = (csrf_header, c ∷ token) ∷ [] in
          let e : csrf_headers decode cookies method ≡ some sent =
            rw (csrf_headers, changes, cookie) in
          (
            content_type body (spread sent custom),
            rw (request_headers, e),
            rw changes (
                lookup-content_type body (spread sent custom)
                ∙ lookup-spread csrf_header sent custom free),
          )
      | inr reads ↦
          let e : csrf_headers decode cookies method ≡ some [] = rw (csrf_headers, reads) in
          (
            content_type body (spread [] custom),
            rw (request_headers, e),
            rw reads (
                lookup-content_type body (spread [] custom)
                ∙ lookup-spread csrf_header [] custom free),
          )
    ]
