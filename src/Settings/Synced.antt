-- ===== src/Settings/Synced.antt =====
-- front-end/src/config/userSettings.js: what comes back of the settings that were sent.
use moonlit_ai_agent.Prelude.{
  ℕ, Bool, true, false, Option, none, some, List, [], ◌∷◌, Text, text_eq, text_eq_iff, codes, ◌≡◌,
  ◌⊎◌, inl, inr, refl, ◌∙◌, arith, if◌then◌else◌,
}
use moonlit_ai_agent.Prelude.Json.{
  Value, undefined, null, bool, num, str, arr, obj, Members, member_of, get_member, nullish_or,
}
use moonlit_ai_agent.Settings.{
  contains, build, numeric_keys, syncable_setting_keys, sent_value, received_value,
  pick_syncable_settings, map_server_settings_to_client, with_legacy,
}

-- What stands in an object that a value was put in, or not.
abbrev put : Option Value → Value
put none = undefined
put (some v) = v

member_of-build :
    (f : Text → Option Value) (k : Text) (ks : List Text)
    → member_of k (build f ks) ≡ (if contains k ks then put (f k) else undefined)
unfolding build
member_of-build f k [] = refl
member_of-build f k (j ∷ ks) = ground (arith, text_eq_iff j k, member_of-build f k ks)

-- A number, or nothing.
abbrev pub IsNumberOrMissing : Value → Type 0
IsNumberOrMissing v = (v ≡ undefined) ⊎ ((v ≡ null) ⊎ ((n : ℕ) × (v ≡ num n)))

module _ (number : Value → Option Value) (own : (n : ℕ) → number (num n) ≡ some (num n)) where
  received_sent :
      (numeric : Bool) (v : Value)
      → (numeric ≡ true → IsNumberOrMissing v)
      → put (received_value number numeric (put (sent_value number numeric v)))
        ≡ nullish_or v undefined
  received_sent false undefined h = refl
  received_sent false null h = refl
  received_sent false (bool b) h = refl
  received_sent false (num n) h = refl
  received_sent false (str s) h = refl
  received_sent false (arr vs) h = refl
  received_sent false (obj ms) h = refl
  received_sent true v h = numeric_value (h refl)
    where
      numeric_value :
          (v ≡ undefined) ⊎ ((v ≡ null) ⊎ ((n : ℕ) × (v ≡ num n)))
          → put (received_value number true (put (sent_value number true v)))
            ≡ nullish_or v undefined
      numeric_value (inl e) = rw e
      numeric_value (inr (inl e)) = rw e
      numeric_value (inr (inr (n, e))) = rw (e, own n) (rw (own n))

  through :
      (syncable numeric : Bool) (v sent : Value)
      → sent ≡ (if syncable then put (sent_value number numeric v) else undefined)
      → (numeric ≡ true → IsNumberOrMissing v)
      → (if syncable then put (received_value number numeric sent) else undefined)
        ≡ (if syncable then nullish_or v undefined else undefined)
  through true numeric v sent e h = rw e (received_sent numeric v h)
  through false numeric v sent e h = refl

  with_legacy-undefined :
      (persistence : Value) (patch : Members)
      → with_legacy number persistence undefined patch ≡ patch
  with_legacy-undefined undefined patch = refl
  with_legacy-undefined null patch = refl
  with_legacy-undefined (bool b) patch = refl
  with_legacy-undefined (num n) patch = refl
  with_legacy-undefined (str s) patch = refl
  with_legacy-undefined (arr vs) patch = refl
  with_legacy-undefined (obj ms) patch = refl

  sent_member :
      (settings : Value) (k : Text)
      → member_of k (pick_syncable_settings number settings) ≡ (
          if contains k syncable_setting_keys
          then put (sent_value number (contains k numeric_keys) (get_member k settings))
          else undefined)
  unfolding pick_syncable_settings
  sent_member settings k =
      member_of-build (λ j. sent_value number (contains j numeric_keys) (get_member j settings)) k
        syncable_setting_keys

  received_all :
      (sent : Members)
      → member_of (codes "settings") sent ≡ undefined
      → member_of (codes "connectionPersistenceMinutes") sent ≡ undefined
      → map_server_settings_to_client number (obj sent)
        ≡ build
            (λ k. received_value number (contains k numeric_keys) (member_of k sent))
            syncable_setting_keys
  unfolding map_server_settings_to_client
  received_all sent whole legacy = rw (whole, legacy) (with_legacy-undefined _ _)

  -- A client that receives the settings that were sent has each of the account's settings as it was,
  -- except that one which is `null` is missing, and has nothing else; if what `Number` gives of a
  -- number is the number, and the setting, if it is one of those that are numbers, is one or is missing.
  pub map_server_settings_to_client-pick_syncable_settings :
      (settings : Value) (k : Text)
      → (contains k numeric_keys ≡ true → IsNumberOrMissing (get_member k settings))
      → get_member k (
          obj (map_server_settings_to_client number (obj (pick_syncable_settings number settings))))
        ≡ (if contains k syncable_setting_keys
            then nullish_or (get_member k settings) undefined
            else undefined)
  map_server_settings_to_client-pick_syncable_settings settings k h =
      let sent = pick_syncable_settings number settings in
      let all =
        received_all sent (unfold text_eq in sent_member settings (codes "settings"))
          (unfold text_eq in sent_member settings (codes "connectionPersistenceMinutes")) in
      rw all (
        member_of-build (λ j. received_value number (contains j numeric_keys) (member_of j sent)) k
          syncable_setting_keys
        ∙ through (contains k syncable_setting_keys) (contains k numeric_keys)
            (get_member k settings) (member_of k sent) (sent_member settings k) h)
