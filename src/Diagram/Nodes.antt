-- ===== src/Diagram/Nodes.antt =====
-- diagramFlowModel.js: the nodes of a diagram, of which those without an id and those whose id has
-- stood before are left out.
use moonlit_ai_agent.Prelude.{
  ℕ, Bool, Option, none, some, List, [], ◌∷◌, Text, codes, take, ◌||◌, is_empty, if◌then◌else◌,
}
use moonlit_ai_agent.Prelude.Json.{
  Value, bool, num, str, arr, obj, Values, nil, cons, get_member, nullish_or, trimmed, filled_text,
}
use moonlit_ai_agent.Diagram.{
  Cases, Column, Node, has, text_or, one_of, valid_node_types, node_statuses,
}
use moonlit_ai_agent.Diagram.Styles.{own_or_data, unless_undefined, normalize_node_style}

unfoldable pub tag_texts : Values → List Text
tag_texts nil = []
tag_texts (cons v vs) = elim (filled_text v) [ none ↦ tag_texts vs | some t ↦ t ∷ tag_texts vs ]

unfoldable pub normalize_tags : Value → List Text
normalize_tags (arr vs) = take 4 (tag_texts vs)
normalize_tags _ = []

-- `item.k ?? item.data?.k`.
abbrev pub own_else_data : Text → Value → Value
own_else_data k item =
    nullish_or (get_member k item) (get_member k (get_member (codes "data") item))

abbrev finite : Value → Option ℕ
finite (num n) = some n
finite _ = none

-- Numbers are finite.
unfoldable pub point_of : Value → Option (ℕ × ℕ)
point_of v = elim (finite (get_member (codes "x") v)) [
  | none ↦ none
  | some x ↦ elim (finite (get_member (codes "y") v)) [ none ↦ none | some y ↦ some (x, y) ]
]

abbrev or_text {ℓ} : {A : Type ℓ} → Option A → A → A
or_text none d = d
or_text (some t) d = t

-- The id of a node is text that is not blank.
abbrev pub node_id : Value → Text
node_id node = trimmed (get_member (codes "id") node)

abbrev boolean : Value → Option Bool
boolean (bool b) = some b
boolean _ = none

module _ (cases : Cases) where
  open cases use {to_lower, to_upper}

  -- A column with a name, which is text or an object.
  abbrev named_column : Value → Option Text → Option Column
  named_column column none = none
  named_column column (some name) = some (record {
    name = name;
    type = filled_text (get_member (codes "type") column);
    key = elim (filled_text (get_member (codes "key") column)) [
      | none ↦ none
      | some key ↦ some (to_upper key)
    ];
    nullable = boolean (get_member (codes "nullable") column);
  })

  unfoldable pub normalize_column : Value → Option Column
  normalize_column (str s) = named_column (str s) (filled_text (str s))
  normalize_column (obj ms) =
      named_column (obj ms) (filled_text (get_member (codes "name") (obj ms)))
  normalize_column _ = none

  unfoldable pub columns_of : Values → List Column
  columns_of nil = []
  columns_of (cons v vs) = elim (normalize_column v) [
    | none ↦ columns_of vs
    | some c ↦ c ∷ columns_of vs
  ]

  unfoldable pub normalize_columns : Value → List Column
  normalize_columns (arr vs) = columns_of vs
  normalize_columns _ = []

  abbrev known_status : Text → Option Text
  known_status s = if has s node_statuses then some s else none

  unfoldable pub make_node : Text → Value → Node
  make_node id node =
      let inner = get_member (codes "data") node in
      let label =
        nullish_or (get_member (codes "label") node)
          (nullish_or (get_member (codes "label") inner) inner) in
      let count =
        unless_undefined (get_member (codes "count") node) (get_member (codes "count") inner) in
      record {
        id = id;
        type =
            one_of valid_node_types
              (to_lower (text_or (own_or_data (codes "type") node) (codes "process")))
              (codes "process");
        label = or_text (filled_text label) id;
        subtitle = or_text (filled_text (own_else_data (codes "subtitle") node)) [];
        count = finite count;
        status = known_status (to_lower (text_or (own_or_data (codes "status") node) []));
        tags = normalize_tags (own_else_data (codes "tags") node);
        columns = normalize_columns (own_else_data (codes "columns") node);
        position = point_of (own_else_data (codes "position") node);
        style = normalize_node_style node;
      }

  -- `seen` is the set of the ids so far.
  unfoldable pub normalize_nodes : List Text → Values → List Node
  normalize_nodes seen nil = []
  normalize_nodes seen (cons v vs) =
      let id = node_id v in
      let skipped = normalize_nodes seen vs in
      let rest = normalize_nodes (id ∷ seen) vs in
      if is_empty id || has id seen then skipped else make_node id v ∷ rest
