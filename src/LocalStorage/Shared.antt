-- ===== src/LocalStorage/Shared.antt =====
-- front-end/src/hooks/useLocalStorage.js: what other components and other pages see of a value.
use moonlit_ai_agent.Prelude.{
  true, Option, none, some, List, [], ◌∷◌, Text, text_eq_iff, text_eq_refl, Dict, lookup,
  lookup-insert, lookup-delete, if◌then◌else◌, ◌≡◌, refl, sym, ◌∙◌, Bool-cases, inl, inr,
}
use moonlit_ai_agent.LocalStorage.{
  Hook, Json, SetStateAction, resolve_stored_value, read_item, mount, write_item, set_value,
  handle_storage_change, set_values, resolve_all, stored_change,
}

module _ {T : Type 0} (json : Json T) where
  -- What stands in the storage for a value.
  abbrev pub item_of : T → Option Text
  item_of v = if json.is_nullish v then none else some (json.stringify v)

  lookup-write_item :
      (key : Text) (v : T) (storage : Dict Text)
      → lookup key (write_item json key v storage) ≡ item_of v
  lookup-write_item key v storage = elim (Bool-cases (json.is_nullish v)) [
    | inl e ↦ rw e (lookup-delete key key storage ∙ rw (text_eq_refl key))
    | inr e ↦ rw e (lookup-insert key key (json.stringify v) storage ∙ rw (text_eq_refl key))
  ]

  record IsKept (key : Text) (v : T) (s : Hook T × Dict Text) : Type 0 where
    stored : s.0.stored ≡ v
    latest : s.0.latest ≡ v
    keyed : s.0.key ≡ key
    item : lookup key s.1 ≡ item_of v

  set_value-IsKept :
      (a : SetStateAction T) (s : Hook T × Dict Text)
      → IsKept s.0.key (resolve_stored_value s.0.latest a) (set_value json true a s)
  unfolding set_value
  set_value-IsKept a (h, storage) = record {
    stored = refl;
    latest = refl;
    keyed = refl;
    item = lookup-write_item h.key (resolve_stored_value h.latest a) storage;
  }

  set_values-IsKept :
      (xs : List (SetStateAction T)) (a : SetStateAction T) (s : Hook T × Dict Text)
      → IsKept s.0.key (resolve_all (a ∷ xs) s.0.latest) (set_values json (a ∷ xs) s)
  unfolding set_value
  set_values-IsKept [] a s = set_value-IsKept a s
  set_values-IsKept (b ∷ ys) a (h, storage) =
      set_values-IsKept ys b (set_value json true a (h, storage))

  -- What another reader has for a value: nothing stands for a missing one.
  abbrev pub shared : T → T → T
  shared v initial = if json.is_nullish v then initial else v

  read_item-item_of :
      (v initial : T)
      → json.parse (json.stringify v) ≡ some v
      → read_item json (item_of v) initial ≡ shared v initial
  read_item-item_of v initial e = elim (Bool-cases (json.is_nullish v)) [
    | inl n ↦ rw n
    | inr n ↦ rw (n, e)
  ]

  stored_change-item_of :
      (v : T) (h : Hook T)
      → json.parse (json.stringify v) ≡ some v
      → stored_change json (item_of v) h ≡ shared v h.initial
  stored_change-item_of v h e = elim (Bool-cases (json.is_nullish v)) [
    | inl n ↦ rw n
    | inr n ↦ rw (n, e)
  ]

  -- After updates of a value that could be written, by values or by functions of the latest one, the
  -- component has the value that they come to in turn; and a component that begins then, and another
  -- page with the key that is told of the item, have it as well, or their initial value if it is missing; if the
  -- value is what is read of its text.
  pub set_values-shared :
      (xs : List (SetStateAction T)) (a : SetStateAction T) (h other : Hook T) (storage : Dict Text)
      → json.parse (json.stringify (resolve_all (a ∷ xs) h.latest))
        ≡ some (resolve_all (a ∷ xs) h.latest)
      → other.key ≡ h.key
      → ((set_values json (a ∷ xs) (h, storage)).0.stored ≡ resolve_all (a ∷ xs) h.latest)
        × ((mount json h.key other.initial (set_values json (a ∷ xs) (h, storage)).1).stored
            ≡ shared (resolve_all (a ∷ xs) h.latest) other.initial)
        × ((handle_storage_change json h.key
              (lookup h.key (set_values json (a ∷ xs) (h, storage)).1)
              other).stored
            ≡ shared (resolve_all (a ∷ xs) h.latest) other.initial)
  unfolding mount handle_storage_change
  set_values-shared xs a h other storage e same =
      let k = set_values-IsKept xs a (h, storage) in
      let v = resolve_all (a ∷ xs) h.latest in
      (
        k.stored,
        rw k.item (read_item-item_of v other.initial e),
        rw (k.item, (text_eq_iff h.key other.key).1 (sym same)) (stored_change-item_of v other e),
      )
