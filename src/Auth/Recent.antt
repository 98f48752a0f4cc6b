-- ===== src/Auth/Recent.antt =====
-- front-end/src/contexts/AuthContext.jsx: what it takes for a reauthentication to count as recent.
use moonlit_ai_agent.Prelude.{
  ℕ, ◌+◌, ◌≤◌, ◌≡◌, ◌⊎◌, inl, inr, refl, ap, sym, ◌∙◌, Bool, true, Option, none, some, List, [],
  ◌∷◌, ◌++◌, Text, text_eq_iff, codes, All, Bool-cases, arith,
}
use moonlit_ai_agent.Account.{Checked, thrown, returned}
use moonlit_ai_agent.Auth.{
  Auth, if_active, Outcome, fulfilled, rejected, PendingAction, Reauthentication, finish_redirect,
  max_age, is_recent, remember_redirect_reauthentication, has_recent_redirect_reauthentication,
  finish_initialize, fail_initialize, auth_signed_out, finish_handshake, finish_failed_handshake,
  unmount,
}
use moonlit_ai_agent.Auth.Actions.{
  begin_action, finish_request, finish_update, finish_refresh, update_display_name,
  unlink_auth_provider, link_auth_provider, reauthenticate_current_user, finish_delete,
  finish_logout, clear_error, fail_action, begin_checked, leave_for, recent_after, Way, already,
  choose_reauthentication,
}
use moonlit_ai_agent.Auth.Rejected.{finish_redirect-rejected}
use moonlit_ai_agent.Auth.Acts.{
  initialized, not_initialized, redirected, signed_out, failed_handshake_over, handshake, Act, act,
  acts, event, leave, begin, dismissed, request_over, updated, refreshed, display_name, unlink,
  link, reauthenticate, deleted, logged_out,
}

-- The act is not the end of the session: neither a logout nor a deletion of the account that has
-- succeeded.
abbrev pub KeepsSession : Act → Type 0
KeepsSession (deleted uid (fulfilled b)) = ⊥
KeepsSession (logged_out (fulfilled b)) = ⊥
KeepsSession a = Unit

-- The act is the return of a redirect that was made to reauthenticate with the provider.
abbrev pub IsReturnOf : Reauthentication → ℕ → Outcome (Option Text) → Option PendingAction → Type 0
IsReturnOf r now (fulfilled (some user_id)) (some p) =
    (r.user_id ≡ user_id)
    × (r.provider_id ≡ p.provider_id)
    × (r.completed_at ≡ now)
    × (p.type ≡ codes "reauthenticate")
IsReturnOf r now outcome pending = ⊥

abbrev pub IsReturn : Reauthentication → Act → Type 0
IsReturn r (event (redirected now pending outcome)) = IsReturnOf r now outcome pending
IsReturn r a = ⊥

recent-if_active : (s t : Auth) → t.recent ≡ s.recent → (if_active s t).recent ≡ s.recent
recent-if_active s t e = elim (Bool-cases s.active) [ inl on ↦ rw on e | inr off ↦ rw off ]

recent-begin_checked :
    {A : Type 0} (c : Checked A) (s : Auth) → (begin_checked c s).recent ≡ s.recent
unfolding begin_action fail_action
recent-begin_checked (thrown message) s = refl
recent-begin_checked (returned a) s = refl

recent-leave_for :
    (type : Text) (c : Checked Way) (s : Auth) → (leave_for type c s).recent ≡ s.recent
unfolding fail_action
recent-leave_for type (thrown message) s = refl
recent-leave_for type (returned way) s = refl

recent-recent_after :
    (now : ℕ) (uid provider : Text) (s : Auth) (r : Reauthentication)
    → (recent_after now uid provider s).recent ≡ some r
    → s.recent ≡ some r
unfolding has_recent_redirect_reauthentication
recent-recent_after now uid provider s r h = ground arith

remember-IsReturnOf :
    (now : ℕ) (uid : Text) (p : PendingAction) (recent : Option Reauthentication)
    (r : Reauthentication)
    → remember_redirect_reauthentication now uid (some p) recent ≡ some r
    → (recent ≡ some r) ⊎ IsReturnOf r now (fulfilled (some uid)) (some p)
unfolding remember_redirect_reauthentication
remember-IsReturnOf now uid p recent r h =
    ground (arith, text_eq_iff p.type (codes "reauthenticate"))

-- What one act makes of the stored reauthentication.
act-recent :
    (a : Act) (s : Auth) (r : Reauthentication)
    → (act a s).recent ≡ some r
    → ((s.recent ≡ some r) × KeepsSession a) ⊎ IsReturn r a
unfolding finish_initialize fail_initialize finish_redirect auth_signed_out finish_handshake
    finish_failed_handshake unmount begin_action finish_request finish_update finish_refresh
    update_display_name unlink_auth_provider link_auth_provider reauthenticate_current_user
    finish_delete finish_logout clear_error fail_action
act-recent (event (initialized has_auth)) s r h =
    inl (sym (recent-if_active s _ (ground arith)) ∙ h, tt)
act-recent (event (not_initialized message)) s r h = inl (sym (recent-if_active s _ refl) ∙ h, tt)
act-recent (event (redirected now pending (fulfilled none))) s r h = inl (h, tt)
act-recent (event (redirected now none (fulfilled (some uid)))) s r h =
    inl (unfold remember_redirect_reauthentication in h, tt)
act-recent (event (redirected now (some p) (fulfilled (some uid)))) s r h =
    elim (remember-IsReturnOf now uid p s.recent r h) [
      | inl old ↦ inl (old, tt)
      | inr new ↦ inr new
    ]
act-recent (event (redirected now pending (rejected e))) s r h =
    elim (finish_redirect-rejected now pending e s) [
      | inl nothing ↦ inl (ap (λ t. t.recent) (sym nothing) ∙ h, tt)
      | inr shown ↦ inl (sym (ap (λ t. t.recent) shown ∙ recent-if_active s _ refl) ∙ h, tt)
    ]
act-recent (event signed_out) s r h = inl (sym (recent-if_active s _ refl) ∙ h, tt)
act-recent (event failed_handshake_over) s r h = inl (sym (recent-if_active s _ refl) ∙ h, tt)
act-recent (event (handshake (fulfilled u))) s r h = inl (sym (recent-if_active s _ refl) ∙ h, tt)
act-recent (event (handshake (rejected e))) s r h = inl (sym (recent-if_active s _ refl) ∙ h, tt)
act-recent leave s r h = inl (h, tt)
act-recent begin s r h = inl (h, tt)
act-recent dismissed s r h = inl (h, tt)
act-recent (request_over (fulfilled b)) s r h = inl (h, tt)
act-recent (request_over (rejected e)) s r h = inl (h, tt)
act-recent (updated (fulfilled u)) s r h = inl (h, tt)
act-recent (updated (rejected e)) s r h = inl (h, tt)
act-recent (refreshed (fulfilled u)) s r h = inl (h, tt)
act-recent (refreshed (rejected e)) s r h = inl (h, tt)
act-recent (display_name value) s r h = inl (sym (recent-begin_checked _ s) ∙ h, tt)
act-recent (unlink provider) s r h = inl (sym (recent-begin_checked _ s) ∙ h, tt)
act-recent (link m provider email password own) s r h =
    inl (sym (recent-leave_for (codes "link") _ (begin_action s)) ∙ h, tt)
act-recent (reauthenticate now m uid provider password own) s r h = inl (
  recent-recent_after now uid _ (begin_action s) r
      (sym (recent-leave_for (codes "reauthenticate") _ _) ∙ h),
  tt,
)
act-recent (deleted uid (fulfilled b)) s r h = absurd cc
act-recent (deleted uid (rejected e)) s r h = inl (h, tt)
act-recent (logged_out (fulfilled b)) s r h = absurd cc
act-recent (logged_out (rejected e)) s r h = inl (h, tt)

-- Among the acts is the return, and the session is kept since.
pub record IsReturned (r : Reauthentication) (all : List Act) : Type 0 where
  pub before : List Act
  pub return : Act
  pub after : List Act
  pub split : all ≡ before ++ (return ∷ after)
  pub is_return : IsReturn r return
  pub kept : All KeepsSession after

acts-recent :
    (all : List Act) (s : Auth) (r : Reauthentication)
    → (acts all s).recent ≡ some r
    → ((s.recent ≡ some r) × All KeepsSession all) ⊎ IsReturned r all
acts-recent [] s r h = inl (h, tt)
acts-recent (a ∷ rest) s r h = elim (acts-recent rest (act a s) r h) [
  | inr later ↦ inr (record {
    before = a ∷ later.before;
    return = later.return;
    after = later.after;
    split = ap (◌∷◌ a) later.split;
    is_return = later.is_return;
    kept = later.kept;
  })
  | inl (stored, kept) ↦ elim (act-recent a s r stored) [
    | inl (old, keeps) ↦ inl (old, (keeps, kept))
    | inr here ↦ inr (record {
      before = [];
      return = a;
      after = rest;
      split = refl;
      is_return = here;
      kept = kept;
    })
  ]
]

-- What is found recent is stored, for the user and the provider, and not too old.
is_recent-stored :
    (now : ℕ) (uid provider : Text) (recent : Option Reauthentication)
    → is_recent now uid provider recent ≡ true
    → (r : Reauthentication) × (recent ≡ some r)
      × (r.user_id ≡ uid)
      × (r.provider_id ≡ provider)
      × (r.completed_at ≤ now)
      × (now ≤ r.completed_at + max_age)
is_recent-stored now uid provider none h = absurd cc
is_recent-stored now uid provider (some r) h = (
  r,
  refl,
  (text_eq_iff r.user_id uid).0 (ground arith),
  (text_eq_iff r.provider_id provider).0 (ground arith),
  ground arith,
  ground arith,
)

choose-already :
    (now : ℕ) (is_mobile : Bool) (uid provider password : Text) (own : Option Text) (s : Auth)
    → choose_reauthentication now is_mobile uid provider password own s ≡ returned already
    → is_recent now uid provider s.recent ≡ true
unfolding choose_reauthentication has_recent_redirect_reauthentication
choose-already now is_mobile uid provider password own s h = ground arith

-- A reauthentication is skipped only if, among all that has happened since nothing was stored, a
-- redirect has come back that was made to reauthenticate the same user with the same provider, at
-- most five minutes ago, and the user has neither logged out nor deleted the account since.
pub choose_reauthentication-already :
    (now : ℕ) (is_mobile : Bool) (uid provider password : Text) (own : Option Text) (all : List Act)
    (s : Auth)
    → s.recent ≡ none
    → choose_reauthentication now is_mobile uid provider password own (acts all s)
      ≡ returned already
    → (r : Reauthentication) × IsReturned r all
      × (r.user_id ≡ uid)
      × (r.provider_id ≡ provider)
      × (r.completed_at ≤ now)
      × (now ≤ r.completed_at + max_age)
choose_reauthentication-already now is_mobile uid provider password own all s empty h =
    let test = choose-already now is_mobile uid provider password own (acts all s) h in
    let (r, stored, of_user, by_provider, done, fresh) =
      is_recent-stored now uid provider (acts all s).recent test in
    elim (acts-recent all s r stored) [
      | inl (old, kept) ↦ absurd cc
      | inr back ↦ (r, back, of_user, by_provider, done, fresh)
    ]
