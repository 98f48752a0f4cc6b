-- ===== src/Diagram/Normalize.antt =====
-- diagramFlowModel.js: `normalizeDiagram`.
use moonlit_ai_agent.Prelude.{
  Option, none, some, List, [], ◌∷◌, Text, text_eq, codes, map, if◌then◌else◌,
}
use moonlit_ai_agent.Prelude.Json.{Value, Values, nil, cons, arr, obj, Members, get_member}
use moonlit_ai_agent.Diagram.{
  Cases, Node, Edge, Diagram, text_or, one_of, valid_directions, valid_layouts,
}
use moonlit_ai_agent.Diagram.Nodes.{normalize_nodes}
use moonlit_ai_agent.Diagram.Edges.{normalize_edges}

-- What becomes of the data: a diagram, an exception with its message, or a loop without end.
pub data Normalized : Type 0 where
  normalized : Diagram → Normalized
  failed : Text → Normalized
  endless : Normalized

-- An upper-case text.
abbrev pub direction_of : Text → Text
direction_of t =
    if text_eq t (codes "TD") then codes "TB" else one_of valid_directions t (codes "LR")

abbrev pub node_ids : List Node → List Text
node_ids nodes = map (λ n. n.id) nodes

abbrev pub items_of : Value → Values
items_of (arr vs) = vs
items_of _ = nil

abbrev pub assemble : Text → Text → List Node → Option (List Edge) → Normalized
assemble direction layout nodes none = endless
assemble direction layout nodes (some edges) =
    normalized (record { direction = direction; layout = layout; nodes = nodes; edges = edges })

module _ (cases : Cases) where
  open cases use {to_lower, to_upper}

  -- With the nodes that are kept; edges that are no array are none.
  abbrev pub with_nodes : Members → List Node → Normalized
  with_nodes ms [] = failed (codes "Diagram nodes need stable string IDs.")
  with_nodes ms (n ∷ ns) =
      assemble (direction_of (to_upper (text_or (get_member (codes "direction") (obj ms)) [])))
        (one_of valid_layouts (to_lower (text_or (get_member (codes "layout") (obj ms)) []))
          (codes "hierarchical"))
        (n ∷ ns)
        (normalize_edges cases (node_ids (n ∷ ns)) [] 0
          (items_of (get_member (codes "edges") (obj ms))))

  abbrev pub with_items : Members → Value → Normalized
  with_items ms (arr (cons v vs)) = with_nodes ms (normalize_nodes cases [] (cons v vs))
  with_items ms _ = failed (codes "Diagram data needs at least one node.")

  unfoldable pub normalize_diagram : Value → Normalized
  normalize_diagram (obj ms) = with_items ms (get_member (codes "nodes") (obj ms))
  normalize_diagram _ = failed (codes "Diagram data must be a JSON object.")
