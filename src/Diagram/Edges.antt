-- ===== src/Diagram/Edges.antt =====
-- diagramFlowModel.js: the edges of a diagram, of which those that do not join two nodes are left
-- out. An id that has stood before gets a number; the loop that searches for the number has fuel.
use moonlit_ai_agent.Prelude.{
  ℕ, zero, suc, ◌+◌, Option, none, some, List, [], ◌∷◌, ◌++◌, Text, codes, decimal, length, not,
  ◌||◌, if◌then◌else◌,
}
use moonlit_ai_agent.Prelude.Json.{
  Value, Values, nil, cons, get_member, is_truthy, trimmed, filled_text,
}
use moonlit_ai_agent.Diagram.{Cases, Edge, has, text_or, one_of, valid_edge_types, valid_markers}
use moonlit_ai_agent.Diagram.Styles.{own_or_data, normalize_edge_style}
use moonlit_ai_agent.Diagram.Nodes.{own_else_data}

-- `${baseId}-${duplicateIndex}`.
unfoldable pub numbered_id : Text → ℕ → Text
numbered_id base n = base ++ (45 ∷ decimal n)

-- `while (edgeIds.has(id))`; `none` when the fuel has run out.
unfoldable pub free_id : ℕ → List Text → Text → ℕ → Text → Option Text
free_id zero used base n id = none
free_id (suc fuel) used base n id =
    let next = free_id fuel used base (n + 1) (numbered_id base n) in
    if has id used then next else some id

abbrev default_id : Option Text → Text → Text → ℕ → Text
default_id (some id) source target index = id
default_id none source target index = source ++ (45 ∷ (target ++ (45 ∷ decimal index)))

-- The id without a number.
abbrev pub base_id : ℕ → Value → Text
base_id index edge =
    default_id (filled_text (get_member (codes "id") edge))
      (trimmed (get_member (codes "source") edge)) (trimmed (get_member (codes "target") edge))
      index

-- As many ids as there are, the id itself and the first number that is free.
unfoldable pub edge_id : List Text → ℕ → Value → Option Text
edge_id used index edge =
    free_id (suc (suc (length used))) used (base_id index edge) 2 (base_id index edge)

module _ (cases : Cases) where
  open cases use {to_lower}

  unfoldable pub make_edge : Text → Value → Edge
  make_edge id edge = record {
    id = id;
    source = trimmed (get_member (codes "source") edge);
    target = trimmed (get_member (codes "target") edge);
    type =
        one_of valid_edge_types
          (to_lower (text_or (own_or_data (codes "type") edge) (codes "floating")))
          (codes "floating");
    label = trimmed (own_else_data (codes "label") edge);
    style = normalize_edge_style edge;
    animated = is_truthy (own_else_data (codes "animated") edge);
    marker_start =
        one_of valid_markers
          (to_lower (text_or (own_or_data (codes "markerStart") edge) (codes "none")))
          (codes "none");
    marker_end =
        one_of valid_markers
          (to_lower (text_or (own_or_data (codes "markerEnd") edge) (codes "arrow-closed")))
          (codes "arrow-closed");
  }

  -- `used` is the set of the edges' ids so far, `nodes` that of the nodes' ids. `none` is a loop that
  -- has run out of fuel.
  unfoldable pub normalize_edges : List Text → List Text → ℕ → Values → Option (List Edge)
  normalize_edges nodes used index nil = some []
  normalize_edges nodes used index (cons v vs) =
      let skipped = normalize_edges nodes used (index + 1) vs in
      if not (has (trimmed (get_member (codes "source") v)) nodes)
        || not (has (trimmed (get_member (codes "target") v)) nodes)
      then skipped
      else elim (edge_id used index v) [
        | none ↦ none
        | some id ↦ elim (normalize_edges nodes (id ∷ used) (index + 1) vs) [
          | none ↦ none
          | some rest ↦ some (make_edge id v ∷ rest)
        ]
      ]
