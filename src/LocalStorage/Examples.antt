-- ===== src/LocalStorage/Examples.antt =====
-- A number that is counted up twice in one go, and one that is counted up after it was removed.
use moonlit_ai_agent.Prelude.{
  ℕ, ◌+◌, true, false, some, [], ◌∷◌, ◌≡◌, refl, Text, text_eq, codes, lookup, insert, delete,
}
use moonlit_ai_agent.LocalStorage.{
  Hook, Json, SetStateAction, value, updater, mount, set_value, remove_value, set_values,
  handle_storage_change,
}
use moonlit_ai_agent.LocalStorage.Shared.{set_values-shared}

abbrev number : Text → ℕ
number [] = 0
number (n ∷ s) = n

abbrev json : Json ℕ
json = record { parse = λ s. some (number s); stringify = λ n. n ∷ []; is_nullish = λ n. false }

abbrev hook : Hook ℕ
hook = mount json (codes "n") 5 []

abbrev count_up : SetStateAction ℕ
count_up = updater (λ n. n + 1)

set_values-shared_example :
    ((set_values json (count_up ∷ count_up ∷ []) (hook, [])).0.stored ≡ hook.latest + 1 + 1)
    × ((mount json hook.key 0 (set_values json (count_up ∷ count_up ∷ []) (hook, [])).1).stored
        ≡ hook.latest + 1 + 1)
    × ((handle_storage_change json hook.key
          (lookup hook.key (set_values json (count_up ∷ count_up ∷ []) (hook, [])).1)
          (record hook { initial = 0 })).stored
        ≡ hook.latest + 1 + 1)
set_values-shared_example =
    set_values-shared json (count_up ∷ []) count_up hook (record hook { initial = 0 }) [] refl refl

-- A function that is given before the component has been rendered again still has the removed value.
removed_value_counts :
    (set_value json true count_up
      (remove_value json (set_value json true (value 8) (hook, [])))).0.stored
    ≡ 9
unfolding mount set_value remove_value lookup insert delete text_eq
removed_value_counts = refl
