-- ===== src/Settings/Examples.antt =====
-- The default settings, sent and received.
use moonlit_ai_agent.Prelude.{
  none, true, false, [], ◌∷◌, ◌++◌, Option, some, ◌≡◌, refl, text_eq, codes, inr,
}
use moonlit_ai_agent.Prelude.Json.{end, member, Value, undefined, num, obj, get_member}
use moonlit_ai_agent.Settings.{
  default_user_settings, pick_syncable_settings, map_server_settings_to_client,
}
use moonlit_ai_agent.Settings.Synced.{
  IsNumberOrMissing, map_server_settings_to_client-pick_syncable_settings,
}
use moonlit_ai_agent.Settings.Sync.{
  Inputs, Sync, pending, loaded, commit, mount_sync, fire_save, hydrate, persist, reset, same_uid,
  same_session,
}
use moonlit_ai_agent.Settings.Debounced.{IsSaving, change, change_all, saved-change_all}

-- `Number` where nothing but numbers is given to it.
abbrev number : Value → Option Value
number v = some v

abbrev sent : Value
sent = obj (pick_syncable_settings number (obj default_user_settings))

is_number : IsNumberOrMissing (num 1000)
is_number = inr (inr (1000, refl))

map_server_settings_to_client-pick_syncable_settings_example :
    get_member (codes "maxRows") (obj (map_server_settings_to_client number sent)) ≡ num 1000
unfolding text_eq
map_server_settings_to_client-pick_syncable_settings_example =
    map_server_settings_to_client-pick_syncable_settings number (λ n. refl)
      (obj default_user_settings) (codes "maxRows") (λ e. is_number)

model_is_lost :
    get_member (codes "llmModel") (obj (map_server_settings_to_client number sent)) ≡ undefined
unfolding pick_syncable_settings map_server_settings_to_client text_eq
model_is_lost = refl

abbrev start : Inputs
start = record {
  uid = some (codes "u");
  is_authenticated = true;
  loading = false;
  query = pending;
  query_ref = 0;
  settings = obj default_user_settings;
  settings_ref = 0;
}

abbrev dark : Value
dark = obj (member (codes "maxRows") (num 50) end)

abbrev saving : Sync
saving =
    commit number (record start { query = loaded (obj end); query_ref = 1 })
      (mount_sync number start)

saving-IsSaving : IsSaving number saving
unfolding commit mount_sync hydrate persist reset same_uid same_session
    map_server_settings_to_client text_eq
saving-IsSaving = record { signed_in = refl; hydrated = refl; ready = refl }

saved-change_all_example :
    ((change_all number (dark ∷ obj end ∷ []) saving).saved ≡ saving.saved)
    × ((fire_save number (change_all number (dark ∷ obj end ∷ []) saving)).saved
        ≡ saving.saved ++ pick_syncable_settings number (obj end) ∷ [])
    × ((fire_save number (change_all number (dark ∷ obj end ∷ []) saving)).timer ≡ none)
saved-change_all_example = saved-change_all number (obj end ∷ []) dark saving saving-IsSaving

-- Settings that are loaded after the first commit are not saved when they have been taken over.
not_saved_back :
    (change number dark (
      commit number
        (record start { query = loaded dark; query_ref = 1 })
        (mount_sync number start))).timer
    ≡ none
unfolding commit mount_sync hydrate persist reset same_uid same_session
    map_server_settings_to_client text_eq
not_saved_back = refl

-- Those that are there in the first commit are.
saved_back :
    (change number dark (mount_sync number (record start { query = loaded dark }))).timer
    ≡ some dark
unfolding commit mount_sync hydrate persist reset same_uid same_session
    map_server_settings_to_client text_eq
saved_back = refl
