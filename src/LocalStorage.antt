-- ===== src/LocalStorage.antt =====
-- front-end/src/hooks/useLocalStorage.js and localStorageState.js: a value that a component keeps in the
-- browser's storage. `JSON.parse` gives `none` where it throws, and `JSON.stringify` a text. Whether the
-- storage can be written is an argument of an operation; an operation runs in a browser.
pub mod Shared
mod Examples
use moonlit_ai_agent.Prelude.{
  Bool, true, false, Option, none, some, List, [], ◌∷◌, Text, text_eq, Dict, lookup, insert, delete,
  if◌then◌else◌,
}

-- `stored` is the state of the component, `latest` the ref beside it.
pub record Hook (T : Type 0) : Type 0 where
  pub key : Text
  pub initial : T
  pub stored : T
  pub latest : T

pub record Json (T : Type 0) : Type 0 where
  pub parse : Text → Option T
  pub stringify : T → Text
  pub is_nullish : T → Bool

-- `setValue` takes a value or a function of the latest one.
pub data SetStateAction (T : Type 0) : Type 0 where
  value : T → SetStateAction T
  updater : (T → T) → SetStateAction T

module _ {T : Type 0} where
  abbrev pub resolve_stored_value : T → SetStateAction T → T
  resolve_stored_value latest (value v) = v
  resolve_stored_value latest (updater f) = f latest

  abbrev pub resolve_all : List (SetStateAction T) → T → T
  resolve_all [] v = v
  resolve_all (a ∷ rest) v = resolve_all rest (resolve_stored_value v a)

  abbrev pub or_initial : Option T → T → T
  or_initial none initial = initial
  or_initial (some v) initial = v

module _ {T : Type 0} (json : Json T) where
  abbrev pub read_item : Option Text → T → T
  read_item none initial = initial
  read_item (some item) initial = or_initial (json.parse item) initial

  -- What the component begins with, or comes to when it is given another key.
  unfoldable pub mount : Text → T → Dict Text → Hook T
  unfolding lookup
  mount key initial storage =
      let v = read_item (lookup key storage) initial in
      record { key = key; initial = initial; stored = v; latest = v }

  -- The effect that reads the storage again. The ref follows when the component has been rendered.
  unfoldable pub sync_key : Text → T → Dict Text → Hook T → Hook T
  unfolding lookup
  sync_key key initial storage h = record h {
    key = key;
    initial = initial;
    stored = read_item (lookup key storage) initial;
  }

  unfoldable pub rendered : Hook T → Hook T
  rendered h = record h { latest = h.stored }

  abbrev pub write_item : Text → T → Dict Text → Dict Text
  write_item key v storage =
      if json.is_nullish v then delete key storage else insert key (json.stringify v) storage

  -- A value that cannot be written changes nothing.
  unfoldable pub set_value : Bool → SetStateAction T → Hook T × Dict Text → Hook T × Dict Text
  unfolding insert delete
  set_value false action (h, storage) = (h, storage)
  set_value true action (h, storage) =
      let v = resolve_stored_value h.latest action in
      (record h { stored = v; latest = v }, write_item h.key v storage)

  -- The ref keeps the value until the component has been rendered.
  unfoldable pub remove_value : Hook T × Dict Text → Hook T × Dict Text
  unfolding delete
  remove_value (h, storage) = (record h { stored = h.initial }, delete h.key storage)

  abbrev pub stored_change : Option Text → Hook T → T
  stored_change none h = h.initial
  stored_change (some item) h = or_initial (json.parse item) h.stored

  -- Another page has changed the item of a key.
  unfoldable pub handle_storage_change : Text → Option Text → Hook T → Hook T
  unfolding text_eq
  handle_storage_change key item h =
      if text_eq key h.key then record h { stored = stored_change item h } else h

  abbrev pub set_values : List (SetStateAction T) → Hook T × Dict Text → Hook T × Dict Text
  set_values [] s = s
  set_values (a ∷ rest) s = set_values rest (set_value true a s)
