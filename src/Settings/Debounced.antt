-- ===== src/Settings/Debounced.antt =====
-- front-end/src/contexts/UserSettingsSync.jsx: what is saved of several changes.
use moonlit_ai_agent.Prelude.{
  ◌+◌, true, false, Option, none, some, List, [], ◌∷◌, ◌++◌, Text, text_eq_refl, ◌==◌, ◌≡◌, refl,
  ◌∙◌, arith,
}
use moonlit_ai_agent.Prelude.Json.{Value}
use moonlit_ai_agent.Settings.{pick_syncable_settings}
use moonlit_ai_agent.Settings.Sync.{
  Inputs, Sync, is_signed_in, commit, fire_save, persist, same_uid, same_session,
}

-- The settings are given a new value.
abbrev pub changed : Value → Inputs → Inputs
changed v i = record i { settings = v; settings_ref = i.settings_ref + 1 }

same_uid_refl : (u : Option Text) → same_uid u u ≡ true
unfolding same_uid
same_uid_refl none = refl
same_uid_refl (some u) = text_eq_refl u

same_session-changed : (v : Value) (i : Inputs) → same_session i (changed v i) ≡ true
unfolding same_session
same_session-changed v i = ground arith

module _ (number : Value → Option Value) where
  abbrev pub change : Value → Sync → Sync
  change v s = commit number (changed v s.inputs) s

  abbrev pub change_all : List Value → Sync → Sync
  change_all [] s = s
  change_all (v ∷ vs) s = change_all vs (change v s)

  abbrev pub last : Value → List Value → Value
  last v [] = v
  last v (w ∷ vs) = last w vs

  -- A signed-in client whose settings were loaded, and which saves what changes from now on.
  pub record IsSaving (s : Sync) : Type 0 where
    pub signed_in : is_signed_in s.inputs ≡ true
    pub hydrated : s.hydrated ≡ true
    pub ready : s.skip_persist ≡ false

  persist-IsSaving :
      (i : Inputs) (s : Sync)
      → is_signed_in i ≡ true
      → IsSaving s
      → persist i s ≡ record s { timer = some i.settings }
  unfolding persist
  persist-IsSaving i s e h = rw (e, h.hydrated, h.ready)

  change-eq :
      (v : Value) (s : Sync)
      → IsSaving s
      → change v s ≡ record s { inputs = changed v s.inputs; timer = some v }
  unfolding commit
  change-eq v s h =
      let same : (s.inputs.query_ref == s.inputs.query_ref) ≡ true = ground arith in
      let other : (s.inputs.settings_ref == s.inputs.settings_ref + 1) ≡ false = ground arith in
      rw (
        same_uid_refl s.inputs.uid,
        same_session-changed v s.inputs,
        same,
        other,
        persist-IsSaving (changed v s.inputs) s h.signed_in h,
      )

  change-IsSaving : (v : Value) (s : Sync) → IsSaving s → IsSaving (change v s)
  change-IsSaving v s h =
      rw (change-eq v s h)
        (record { signed_in = h.signed_in; hydrated = h.hydrated; ready = h.ready })

  change_all-eq :
      (vs : List Value) (v : Value) (s : Sync)
      → IsSaving s
      → ((change_all (v ∷ vs) s).timer ≡ some (last v vs))
        × ((change_all (v ∷ vs) s).saved ≡ s.saved)
  change_all-eq [] v s h = rw (change-eq v s h) (refl, refl)
  change_all-eq (w ∷ vs) v s h =
      let r = change_all-eq vs w (change v s) (change-IsSaving v s h) in
      (r.0, r.1 ∙ rw (change-eq v s h))

  -- When the settings of a signed-in client, which have been loaded, change a number of times before
  -- the delay is over, they are saved once, as the last change left them.
  pub saved-change_all :
      (vs : List Value) (v : Value) (s : Sync)
      → IsSaving s
      → ((change_all (v ∷ vs) s).saved ≡ s.saved)
        × ((fire_save number (change_all (v ∷ vs) s)).saved
            ≡ s.saved ++ pick_syncable_settings number (last v vs) ∷ [])
        × ((fire_save number (change_all (v ∷ vs) s)).timer ≡ none)
  unfolding fire_save
  saved-change_all vs v s h = let r = change_all-eq vs v s h in (r.1, rw (r.0, r.1), rw r.0)
