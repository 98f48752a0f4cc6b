-- ===== src/Account/Unlinked.antt =====
-- front-end/src/features/dashboard/accountModel.js: when a way to sign in can be removed.
use moonlit_ai_agent.Prelude.{
  ◌≡◌, ◌∙◌, refl, Bool, true, false, not, List, [], ◌∷◌, Text, text_eq, text_eq_iff, filter, any,
  length, is_empty, ltb, ◌&&◌, Bool-cases, inl, inr, arith,
}
use moonlit_ai_agent.Account.{contains_text, filled, unique_texts, can_unlink_provider}

-- What a test does not hold of makes no difference to whether it holds of any.
any-filter-other :
    (f : Text → Bool) (t : Text) (ts : List Text)
    → f t ≡ false
    → any f (filter (λ s. not (text_eq s t)) ts) ≡ any f ts
any-filter-other f t [] h = refl
any-filter-other f t (s ∷ ts) h = ground (arith, text_eq_iff s t, any-filter-other f t ts)

any-unique_texts : (f : Text → Bool) (ts : List Text) → any f (unique_texts ts) ≡ any f ts
unfolding unique_texts
any-unique_texts f [] = refl
any-unique_texts f (t ∷ ts) = elim (Bool-cases (f t)) [
  | inl holds ↦ rw holds
  | inr fails ↦ rw fails (any-filter-other f t (unique_texts ts) fails ∙ any-unique_texts f ts)
]

any-filter-same :
    (p t : Text) (ts : List Text)
    → text_eq t p ≡ true
    → any (λ q. not (text_eq q p)) (filter (λ s. not (text_eq s t)) ts)
      ≡ not (is_empty (filter (λ s. not (text_eq s t)) ts))
any-filter-same p t [] h = refl
any-filter-same p t (s ∷ ts) h =
    ground (arith, text_eq_iff t p, text_eq_iff s t, text_eq_iff s p, any-filter-same p t ts h)

ltb-length : (t : Text) (ts : List Text) → ltb 1 (length (t ∷ ts)) ≡ not (is_empty ts)
ltb-length t [] = refl
ltb-length t (u ∷ ts) = ground arith

any-is_empty : (f : Text → Bool) (ts : List Text) → any f ts ≡ true → is_empty ts ≡ false
any-is_empty f [] h = absurd cc
any-is_empty f (t ∷ ts) h = refl

more_than_one :
    (p : Text) (ts : List Text)
    → (contains_text p (unique_texts ts) && ltb 1 (length (unique_texts ts)))
      ≡ (contains_text p (unique_texts ts) && any (λ q. not (text_eq q p)) (unique_texts ts))
unfolding unique_texts
more_than_one p [] = refl
more_than_one p (t ∷ ts) =
    let others = filter (λ s. not (text_eq s t)) (unique_texts ts) in
    elim (Bool-cases (text_eq t p)) [
      | inl same ↦
          ground (arith, same, ltb-length t others, any-filter-same p t (unique_texts ts) same)
      | inr other ↦
          ground (arith, other, ltb-length t others, any-is_empty (λ s. text_eq s p) others)
    ]

-- A way to sign in can be removed exactly if it is one of those of the account, and the account has
-- another one. Empty names count for nothing, and equal names for one.
pub can_unlink_provider_iff :
    (providers : List Text) (provider : Text)
    → can_unlink_provider providers provider ≡ (
        contains_text provider (filled providers)
        && any (λ p. not (text_eq p provider)) (filled providers))
unfolding can_unlink_provider
can_unlink_provider_iff providers provider =
    let named = filled providers in
    more_than_one provider named
    ∙ rw (
      any-unique_texts (λ p. text_eq p provider) named,
      any-unique_texts (λ p. not (text_eq p provider)) named,
    )
