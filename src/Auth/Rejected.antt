-- ===== src/Auth/Rejected.antt =====
-- front-end/src/contexts/AuthContext.jsx: a redirect that has failed changes the error at most.
use moonlit_ai_agent.Prelude.{
  ℕ, ◌≡◌, ◌⊎◌, inl, inr, Option, some, text_eq, codes, is_empty, Option-cases, Bool-cases,
}
use moonlit_ai_agent.Auth.{
  Auth, AuthError, PendingAction, rejected, if_active, finish_redirect, get_error_message,
}

pub finish_redirect-rejected :
    (now : ℕ) (pending : Option PendingAction) (e : AuthError) (s : Auth)
    → (finish_redirect now pending (rejected e) s ≡ s)
      ⊎ (finish_redirect now pending (rejected e) s
          ≡ if_active s (record s { error = some (get_error_message e) }))
unfolding finish_redirect
finish_redirect-rejected now pending e s = elim (Option-cases e.code) [
  | inl plain ↦ inl (rw plain)
  | inr (code, coded) ↦ elim (Bool-cases (is_empty code)) [
    | inl blank ↦ inl (rw (coded, blank))
    | inr filled ↦ elim (Bool-cases (text_eq code (codes "auth/popup-closed-by-user"))) [
      | inl closed ↦ inl (rw (coded, filled, closed))
      | inr other ↦ inr (simp (coded, filled, other))
    ]
  ]
]
