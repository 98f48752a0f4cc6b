-- ===== src/Account/Examples.antt =====
-- Concrete accounts.
use moonlit_ai_agent.Prelude.{
  ◌≡◌, ◌≢◌, refl, true, false, none, some, [], ◌∷◌, Text, text_eq, codes, trim, trim_start,
  trim_end, is_space, lookup, Dict, if◌then◌else◌,
}
use moonlit_ai_agent.Account.{
  returned, get_account_storage_key, clear_account_storage, get_admin_route_decision, redirect_to,
}
use moonlit_ai_agent.Account.Stored.{HasNoColon, lookup-clear_account_storage-account}

abbrev storage : Dict Text
storage =
    (codes "moonlit:ann:theme", codes "dark") ∷ (codes "moonlit:bob:theme", codes "light") ∷ []

key_of_bob :
    get_account_storage_key (codes " bob") (codes "theme") ≡ returned (codes "moonlit:bob:theme")
unfolding get_account_storage_key trim trim_start trim_end is_space
key_of_bob = refl

bob-HasNoColon : HasNoColon (trim (codes " bob"))
unfolding trim trim_start trim_end is_space
bob-HasNoColon = refl

bob_is_no_perspective : trim (codes " bob") ≢ codes "perspective"
unfolding trim trim_start trim_end is_space
bob_is_no_perspective e = cc

lookup-clear_account_storage-account_example :
    lookup (codes "moonlit:bob:theme") (clear_account_storage (codes "ann") storage) ≡ (
      if text_eq (codes "ann") (trim (codes " bob"))
      then none
      else lookup (codes "moonlit:bob:theme") storage)
lookup-clear_account_storage-account_example =
    lookup-clear_account_storage-account (codes "ann") (codes " bob") (codes "theme")
      (codes "moonlit:bob:theme") storage refl bob-HasNoColon bob_is_no_perspective key_of_bob

-- No one is an administrator where none is configured.
nobody :
    get_admin_route_decision false true (some (codes "ann")) (some (codes " "))
    ≡ redirect_to (codes "/chat")
unfolding get_admin_route_decision trim trim_start trim_end is_space
nobody = refl
