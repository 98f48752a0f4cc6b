-- ===== src/Settings.antt =====
-- front-end/src/config/userSettings.js: the preferences that an account keeps on the server. Settings
-- are an object of JSON. `number` is the language's `Number`: `none` stands for `NaN`.
pub mod Synced
pub mod Sync
pub mod Debounced
mod Examples
use moonlit_ai_agent.Prelude.{
  ℕ, Bool, true, false, not, ◌&&◌, Option, none, some, List, [], ◌∷◌, Text, text_eq, codes, any,
  is_empty, if◌then◌else◌,
}
use moonlit_ai_agent.Prelude.Json.{
  Value, undefined, null, bool, num, str, obj, Members, end, member, with_member, get_member,
  nullish_or,
}

abbrev pub default_user_settings : Members
default_user_settings = member (codes "confirmBeforeRun") (bool false) (
    member (codes "queryTimeout") (num 30) (
      member (codes "maxRows") (num 1000) (
        member (codes "nullDisplay") (str (codes "NULL")) (
          member (codes "rememberConnection") (bool false) (
            member (codes "defaultDbType") (str (codes "postgresql")) (
              member (codes "connectionPersistence") (num 0) (
                member (codes "enableReasoning") (bool true) (
                  member (codes "reasoningEffort") (str (codes "medium")) (
                    member (codes "responseStyle") (str (codes "balanced")) (
                      member (codes "taskMode") (str (codes "auto")) (
                        member (codes "llmProvider") null
                          (member (codes "llmModel") null end))))))))))))

abbrev pub keys : Members → List Text
keys end = []
keys (member k v ms) = k ∷ keys ms

abbrev pub syncable_setting_keys : List Text
syncable_setting_keys = keys default_user_settings

abbrev pub numeric_keys : List Text
numeric_keys = codes "queryTimeout" ∷ codes "maxRows" ∷ codes "connectionPersistence" ∷ []

abbrev pub contains : Text → List Text → Bool
contains k ks = any (λ j. text_eq j k) ks

abbrev reasoning_efforts : List Text
reasoning_efforts = codes "low" ∷ codes "medium" ∷ codes "high" ∷ []

abbrev known_effort : Value → Text
known_effort (str s) = if contains s reasoning_efforts then s else codes "medium"
known_effort _ = codes "medium"

abbrev effort_unless_off : Value → Value → Text
effort_unless_off (bool false) effort = codes "low"
effort_unless_off _ effort = known_effort effort

unfoldable pub get_effective_reasoning_effort : Value → Text
get_effective_reasoning_effort settings =
    effort_unless_off (get_member (codes "enableReasoning") settings)
      (get_member (codes "reasoningEffort") settings)

-- `auto`, or nothing, goes to the server as `normal`.
unfoldable pub to_backend_task_mode : Text → Text
to_backend_task_mode mode =
    if text_eq mode (codes "auto")
    then codes "normal"
    else if is_empty mode
    then codes "normal"
    else mode

-- The object of the keys that have a value.
unfoldable pub build : (Text → Option Value) → List Text → Members
build f [] = end
build f (k ∷ ks) = elim (f k) [ none ↦ build f ks | some v ↦ member k v (build f ks) ]

module _ (number : Value → Option Value) where
  -- The value that is sent for a setting, by whether it is a number.
  abbrev pub sent_value : Bool → Value → Option Value
  sent_value numeric undefined = none
  sent_value true null = some null
  sent_value true (str []) = some (str [])
  sent_value true v = number v
  sent_value false v = some v

  unfoldable pub pick_syncable_settings : Value → Members
  unfolding build
  pick_syncable_settings settings =
      build (λ k. sent_value (contains k numeric_keys) (get_member k settings))
        syncable_setting_keys

  abbrev pub received_value : Bool → Value → Option Value
  received_value numeric undefined = none
  received_value numeric null = none
  received_value true v = number v
  received_value false v = some v

  abbrev with_minutes : Option Value → Members → Members
  with_minutes none patch = patch
  with_minutes (some minutes) patch = with_member (codes "connectionPersistence") minutes patch

  -- The name under which the server kept the setting before.
  abbrev pub with_legacy : Value → Value → Members → Members
  with_legacy undefined legacy patch = with_minutes (received_value true legacy) patch
  with_legacy persistence legacy patch = patch

  unfoldable pub map_server_settings_to_client : Value → Members
  unfolding build with_member
  map_server_settings_to_client payload =
      let source = nullish_or (get_member (codes "settings") payload) payload in
      let patch =
        build (λ k. received_value (contains k numeric_keys) (get_member k source))
          syncable_setting_keys in
      with_legacy (get_member (codes "connectionPersistence") (obj patch))
        (get_member (codes "connectionPersistenceMinutes") source) patch
