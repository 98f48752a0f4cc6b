-- ===== src/Diagram/Styles.antt =====
-- diagramFlowModel.js: the styles of nodes and edges.
use moonlit_ai_agent.Prelude.{
  ℕ, ◌-◌, Bool, true, false, Option, none, some, [], ◌∷◌, ◌++◌, Text, text_eq, codes, leb, not,
  ◌==◌, ◌&&◌, lookup, insert, if◌then◌else◌,
}
use moonlit_ai_agent.Prelude.Json.{
  Value, undefined, num, str, obj, Members, end, member, get_member, is_truthy, is_object, value_or,
}
use moonlit_ai_agent.Diagram.{Style, has, forbidden_style_keys}

abbrev is_small : ℕ → Bool
is_small c = leb 97 c && leb c 122

-- `replace(/-([a-z])/g, …)`.
unfoldable pub kebab_to_camel : Text → Text
kebab_to_camel [] = []
kebab_to_camel (c ∷ []) = c ∷ []
kebab_to_camel (c ∷ d ∷ s) =
    let met = kebab_to_camel s in
    let next = kebab_to_camel (d ∷ s) in if c == 45 && is_small d then (d - 32) ∷ met else c ∷ next

abbrev is_scalar : Value → Bool
is_scalar (str s) = true
is_scalar (num n) = true
is_scalar _ = false

-- An assignment to `__proto__` of what is no object changes nothing.
unfoldable pub is_kept : Text → Value → Bool
is_kept key v =
    not (has key forbidden_style_keys) && is_scalar v && not (text_eq key (codes "__proto__"))

unfoldable pub add_entries : Members → Style → Style
add_entries end style = style
add_entries (member k v ms) style =
    add_entries ms
      (if is_kept (kebab_to_camel k) v then insert (kebab_to_camel k) v style else style)

abbrev pub or_undefined : Style → Option Style
or_undefined [] = none
or_undefined (e ∷ style) = some (e ∷ style)

unfoldable pub normalize_diagram_style : Value → Option Style
normalize_diagram_style (obj ms) = or_undefined (add_entries ms [])
normalize_diagram_style _ = none

-- The object that the style is read from: that of the item or that of its `data`.
abbrev raw_style : Value → Value
raw_style item =
    let own = get_member (codes "style") item in
    let inner = get_member (codes "style") (get_member (codes "data") item) in
    if is_object own then own else if is_object inner then inner else obj end

unfoldable pub base_style : Value → Style
base_style item = elim (normalize_diagram_style (raw_style item)) [ none ↦ [] | some s ↦ s ]

-- `item.k || item.data?.k`.
abbrev pub own_or_data : Text → Value → Value
own_or_data k item = value_or (get_member k item) (get_member k (get_member (codes "data") item))

abbrev set_text : Text → Value → Style → Style
set_text k (str t) style = insert k (str t) style
set_text k _ style = style

-- `style[k] = style[k] || v`.
abbrev set_default : Text → Value → Style → Style
set_default k v style = elim (lookup k style) [
  | none ↦ insert k v style
  | some old ↦ if is_truthy old then style else insert k v style
]

abbrev set_border : Value → Style → Style
set_border (str t) style =
    set_default (codes "border") (str (codes "1px solid " ++ t))
      (insert (codes "borderColor") (str t) style)
set_border _ style = style

unfoldable pub normalize_node_style : Value → Option Style
normalize_node_style node = or_undefined (
    set_border (own_or_data (codes "borderColor") node) (
      set_text (codes "backgroundColor") (own_or_data (codes "backgroundColor") node)
        (set_text (codes "color") (own_or_data (codes "color") node) (base_style node))))

-- `edge.dashed !== undefined ? edge.dashed : edge.data?.dashed`.
abbrev pub unless_undefined : Value → Value → Value
unless_undefined undefined b = b
unless_undefined a b = a

unfoldable pub normalize_edge_style : Value → Option Style
normalize_edge_style edge =
    let coloured = set_text (codes "stroke") (own_or_data (codes "color") edge) (base_style edge) in
    let dashed =
      unless_undefined (get_member (codes "dashed") edge)
        (get_member (codes "dashed") (get_member (codes "data") edge)) in
    or_undefined (
      if is_truthy dashed
      then set_default (codes "strokeDasharray") (str (codes "6 4")) coloured
      else coloured)
