-- ===== src/Settings/Sync.antt =====
-- front-end/src/contexts/UserSettingsSync.jsx: when the settings of an account are loaded and saved. An
-- effect runs in a commit of the component if what it depends on has changed; an object that is
-- compared by identity has a number. `timer` holds the settings of the save that waits.
use moonlit_ai_agent.Prelude.{
  ℕ, Bool, true, false, not, ◌&&◌, Option, none, some, List, [], ◌∷◌, ◌++◌, Text, text_eq, ◌==◌,
  if◌then◌else◌,
}
use moonlit_ai_agent.Prelude.Json.{Value, Members, end, member}
use moonlit_ai_agent.Settings.{pick_syncable_settings, map_server_settings_to_client}

-- The state of the query: it loads or is fetched again, it has failed, or it has its data.
pub data Query : Type 0 where
  pending failed : Query
  loaded : Value → Query

-- What the component reads when it is rendered. `query_ref` and `settings_ref` change with what the
-- second effect and the settings are compared by.
pub record Inputs : Type 0 where
  pub uid : Option Text
  pub is_authenticated : Bool
  pub loading : Bool
  pub query : Query
  pub query_ref : ℕ
  pub settings : Value
  pub settings_ref : ℕ

-- The refs, the timer, and what was asked of the settings and of the server.
pub record Sync : Type 0 where
  pub inputs : Inputs
  pub hydrated : Bool
  pub skip_persist : Bool
  pub timer : Option Value
  pub patches : List Members
  pub saved : List Members

abbrev pub is_signed_in : Inputs → Bool
is_signed_in i = i.is_authenticated && not i.loading

unfoldable pub reset : Sync → Sync
reset s = record s { hydrated = false; skip_persist = true }

abbrev hydrate_with : Members → Sync → Sync
hydrate_with end s = record s { hydrated = true; skip_persist = false }
hydrate_with (member k v ms) s = record s {
  hydrated = true;
  skip_persist = true;
  patches = s.patches ++ member k v ms ∷ [];
}

abbrev hydrate_from : (Value → Option Value) → Query → Sync → Sync
hydrate_from number pending s = s
hydrate_from number failed s = record s { hydrated = true; skip_persist = false }
hydrate_from number (loaded payload) s =
    hydrate_with (map_server_settings_to_client number payload) s

unfoldable pub hydrate : (Value → Option Value) → Inputs → Sync → Sync
unfolding reset
hydrate number i s = if is_signed_in i then hydrate_from number i.query s else reset s

abbrev persist_for : (signed_in hydrated skip : Bool) → Value → Sync → Sync
persist_for true true true settings s = record s { skip_persist = false; timer = none }
persist_for true true false settings s = record s { timer = some settings }
persist_for _ _ _ settings s = record s { timer = none }

-- The timer that waits is cleared first.
unfoldable pub persist : Inputs → Sync → Sync
persist i s = persist_for (is_signed_in i) s.hydrated s.skip_persist i.settings s

abbrev pub same_bool : Bool → Bool → Bool
same_bool true b = b
same_bool false b = not b

unfoldable pub same_uid : Option Text → Option Text → Bool
unfolding text_eq
same_uid none none = true
same_uid (some u) (some v) = text_eq u v
same_uid _ _ = false

unfoldable pub same_session : Inputs → Inputs → Bool
same_session i j = same_bool i.is_authenticated j.is_authenticated && same_bool i.loading j.loading

-- The three effects, in order.
unfoldable pub commit : (Value → Option Value) → Inputs → Sync → Sync
commit number i s =
    let first = if same_uid s.inputs.uid i.uid then s else reset s in
    let second =
      if same_session s.inputs i && s.inputs.query_ref == i.query_ref
      then first
      else hydrate number i first in
    let third =
      if same_session s.inputs i && s.inputs.settings_ref == i.settings_ref
      then second
      else persist i second in
    record third { inputs = i }

-- When the component is mounted all of them run.
unfoldable pub mount_sync : (Value → Option Value) → Inputs → Sync
unfolding reset hydrate persist
mount_sync number i = persist i (
    hydrate number i (
      reset (record {
        inputs = i;
        hydrated = false;
        skip_persist = true;
        timer = none;
        patches = [];
        saved = [];
      })))

abbrev fire_timer : (Value → Option Value) → Option Value → Sync → Sync
fire_timer number none s = s
fire_timer number (some settings) s = record s {
  timer = none;
  saved = s.saved ++ pick_syncable_settings number settings ∷ [];
}

-- Nothing has changed for the time of the delay.
unfoldable pub fire_save : (Value → Option Value) → Sync → Sync
fire_save number s = fire_timer number s.timer s
