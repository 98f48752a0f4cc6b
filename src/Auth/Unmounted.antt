-- ===== src/Auth/Unmounted.antt =====
-- front-end/src/contexts/AuthContext.jsx: once the provider is gone, the effect changes nothing that
-- it shows.
use mathlib.Core.Path.{subst}
use moonlit_ai_agent.Prelude.{◌≡◌, ◌∙◌, sym, refl, inl, inr, false, none, some, List, [], ◌∷◌}
use moonlit_ai_agent.Auth.{
  Auth, if_active, fulfilled, rejected, finish_initialize, fail_initialize, finish_redirect,
  auth_signed_out, finish_handshake, finish_failed_handshake, unmount,
}
use moonlit_ai_agent.Auth.Rejected.{finish_redirect-rejected}
use moonlit_ai_agent.Auth.Acts.{
  Event, on_event, initialized, not_initialized, redirected, signed_out, failed_handshake_over,
  handshake,
}

abbrev pub events : List Event → Auth → Auth
events [] s = s
events (e ∷ es) s = events es (on_event e s)

-- The pages see the same.
pub record IsShownAs (s t : Auth) : Type 0 where
  pub user : s.user ≡ t.user
  pub loading : s.loading ≡ t.loading
  pub error : s.error ≡ t.error
  pub initialized : s.initialized ≡ t.initialized
  pub active : s.active ≡ t.active

same : (s : Auth) → IsShownAs s s
same s = record { user = refl; loading = refl; error = refl; initialized = refl; active = refl }

chain : (s t u : Auth) → IsShownAs s t → IsShownAs t u → IsShownAs s u
chain s t u h i = record {
  user = h.user ∙ i.user;
  loading = h.loading ∙ i.loading;
  error = h.error ∙ i.error;
  initialized = h.initialized ∙ i.initialized;
  active = h.active ∙ i.active;
}

unchanged : (s t : Auth) → s.active ≡ false → IsShownAs (if_active s t) s
unchanged s t h = subst (λ u. IsShownAs u s) (sym (rw h)) (same s)

on_event-IsShownAs : (e : Event) (s : Auth) → s.active ≡ false → IsShownAs (on_event e s) s
unfolding finish_initialize fail_initialize finish_redirect auth_signed_out finish_handshake
    finish_failed_handshake
on_event-IsShownAs (initialized has_auth) s h = unchanged s _ h
on_event-IsShownAs (not_initialized message) s h = unchanged s _ h
on_event-IsShownAs (redirected now pending (fulfilled none)) s h = same s
on_event-IsShownAs (redirected now pending (fulfilled (some uid))) s h = record {
  user = refl;
  loading = refl;
  error = refl;
  initialized = refl;
  active = refl;
}
on_event-IsShownAs (redirected now pending (rejected e)) s h =
    elim (finish_redirect-rejected now pending e s) [
      | inl nothing ↦ subst (λ u. IsShownAs u s) (sym nothing) (same s)
      | inr shown ↦ subst (λ u. IsShownAs u s) (sym shown) (unchanged s _ h)
    ]
on_event-IsShownAs signed_out s h = unchanged s _ h
on_event-IsShownAs failed_handshake_over s h = unchanged s _ h
on_event-IsShownAs (handshake (fulfilled u)) s h = unchanged s _ h
on_event-IsShownAs (handshake (rejected e)) s h = unchanged s _ h

events-IsShownAs : (es : List Event) (s : Auth) → s.active ≡ false → IsShownAs (events es s) s
events-IsShownAs [] s h = same s
events-IsShownAs (e ∷ es) s h =
    let first = on_event-IsShownAs e s h in
    chain _ _ s (events-IsShownAs es (on_event e s) (first.active ∙ h)) first

-- Whatever events and answers come after the provider is gone, the user, the loading, the error and
-- the initialization stay as they were.
pub events-unmount :
    (es : List Event) (s : Auth)
    → ((events es (unmount s)).user ≡ s.user)
      × ((events es (unmount s)).loading ≡ s.loading)
      × ((events es (unmount s)).error ≡ s.error)
      × ((events es (unmount s)).initialized ≡ s.initialized)
unfolding unmount
events-unmount es s =
    let h = events-IsShownAs es (unmount s) refl in (h.user, h.loading, h.error, h.initialized)
