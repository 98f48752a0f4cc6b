-- ===== src/Account/Stored.antt =====
-- front-end/src/features/dashboard/accountModel.js: what stays in the browser's storage when an
-- account is cleared.
use moonlit_ai_agent.Prelude.{
  ◌≡◌, ◌≢◌, refl, Bool, false, not, none, List, [], ◌∷◌, ◌++◌, Text, text_eq, text_eq_iff,
  text_eq-false, sym, codes, starts_with, trim, lookup, delete, lookup-delete, any, is_empty, ◌&&◌,
  ◌==◌, Dict, map, Bool-cases, inl, inr, if◌then◌else◌, arith,
}
use moonlit_ai_agent.Account.{
  returned, storage_key, get_account_storage_key, contains_text, filled, remove_keys,
  is_account_key, clear_account_storage,
}

lookup-remove_keys :
    (p : Text → Bool) (ks : List Text) (storage : Dict Text) (k : Text)
    → lookup k (remove_keys p ks storage)
      ≡ (if p k && contains_text k ks then none else lookup k storage)
lookup-remove_keys p [] storage k = ground arith
lookup-remove_keys p (j ∷ ks) storage k = elim (Bool-cases (p j)) [
  | inl taken ↦ rw taken (
      ground (
        arith,
        taken,
        text_eq_iff j k,
        lookup-delete j k storage,
        lookup-remove_keys p ks (delete j storage) k,
      ))
  | inr kept ↦ rw kept (ground (arith, kept, text_eq_iff j k, lookup-remove_keys p ks storage k))
]

contains_text-lookup :
    (storage : Dict Text) (k : Text)
    → contains_text k (filled (map (λ e. e.0) storage)) ≡ false
    → is_empty k ≡ false
    → lookup k storage ≡ none
unfolding lookup
contains_text-lookup [] k h e = refl
contains_text-lookup ((j, v) ∷ storage) k h e =
    ground (arith, text_eq_iff j k, contains_text-lookup storage k)

lookup-clear_account_storage :
    (user_id : Text) (storage : Dict Text) (k : Text)
    → is_empty k ≡ false
    → lookup k (clear_account_storage user_id storage)
      ≡ (if not (is_empty user_id) && is_account_key user_id k then none else lookup k storage)
unfolding clear_account_storage
lookup-clear_account_storage user_id storage k e = elim (Bool-cases (is_empty user_id)) [
  | inl anonymous ↦ rw anonymous
  | inr named ↦
      let keys = filled (map (λ e. e.0) storage) in
      rw named (
        ground (
          arith,
          lookup-remove_keys (is_account_key user_id) keys storage k,
          contains_text-lookup storage k,
        ))
]

-- No colon stands in the text.
abbrev pub HasNoColon : Text → Type 0
HasNoColon s = any (λ c. c == 58) s ≡ false

starts_with-colon :
    (s t u v : Text)
    → any (λ c. c == 58) s ≡ false
    → any (λ c. c == 58) u ≡ false
    → starts_with (s ++ (58 ∷ t)) (u ++ (58 ∷ v)) ≡ (text_eq s u && starts_with t v)
unfolding text_eq
starts_with-colon [] t [] v hs hu = refl
starts_with-colon [] t (d ∷ u) v hs hu = ground arith
starts_with-colon (c ∷ s) t [] v hs hu = ground arith
starts_with-colon (c ∷ s) t (d ∷ u) v hs hu = ground (arith, starts_with-colon s t u v)

is_account_key-storage_key :
    (user_id other resource : Text)
    → HasNoColon user_id
    → HasNoColon other
    → other ≢ codes "perspective"
    → is_account_key user_id (storage_key other resource) ≡ text_eq user_id other
unfolding is_account_key text_eq
is_account_key-storage_key user_id other resource hu ho named = ground (
  arith,
  starts_with-colon user_id [] other resource hu ho,
  starts_with-colon (codes "perspective") (codes "v4:") other resource refl ho,
  text_eq-false (codes "perspective") other (λ e. named (sym e)),
)

get_account_storage_key-returned :
    (user_id resource key : Text)
    → get_account_storage_key user_id resource ≡ returned key
    → (key ≡ storage_key (trim user_id) (trim resource)) × (is_empty (trim user_id) ≡ false)
unfolding get_account_storage_key
get_account_storage_key-returned user_id resource key h = ground arith

-- When an account is cleared, what was stored under a key of an account, with whatever resource, is
-- gone if the account is the one that is cleared, and stays as it is if it is another one. The ids of
-- both have no colon, and that of the other one is not the word `perspective`, whose keys with the
-- resource `v4:` are removed with every account.
pub lookup-clear_account_storage-account :
    (user_id other resource key : Text) (storage : Dict Text)
    → HasNoColon user_id
    → HasNoColon (trim other)
    → trim other ≢ codes "perspective"
    → get_account_storage_key other resource ≡ returned key
    → lookup key (clear_account_storage user_id storage)
      ≡ (if text_eq user_id (trim other) then none else lookup key storage)
lookup-clear_account_storage-account user_id other resource key storage hu ho named h =
    let made = get_account_storage_key-returned other resource key h in
    rw made.0 (
      ground (
        arith,
        lookup-clear_account_storage user_id storage (storage_key (trim other) (trim resource))
            refl,
        is_account_key-storage_key user_id (trim other) (trim resource) hu ho named,
        text_eq_iff user_id (trim other),
        made.1,
      ))
