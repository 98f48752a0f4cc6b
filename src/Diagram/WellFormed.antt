-- ===== src/Diagram/WellFormed.antt =====
-- diagramFlowModel.js: what holds of every diagram that `normalizeDiagram` returns.
use moonlit_ai_agent.Prelude.{
  ℕ, ◌+◌, ◌≡◌, ◌≢◌, refl, true, false, some, List, [], ◌∷◌, Text, codes, All, Bool-cases, inl, inr,
  is_empty, text_eq, arith,
}
use moonlit_ai_agent.Prelude.Json.{Value, Values, nil, cons, get_member}
use moonlit_ai_agent.Diagram.{
  Cases, Node, Edge, Diagram, has, one_of, valid_directions, valid_layouts, valid_node_types,
  valid_edge_types, valid_markers,
}
use moonlit_ai_agent.Diagram.Nodes.{node_id, make_node, normalize_nodes}
use moonlit_ai_agent.Diagram.Edges.{make_edge, normalize_edges}
use moonlit_ai_agent.Diagram.Normalize.{
  normalized, normalize_diagram, node_ids, items_of, direction_of,
}
use moonlit_ai_agent.Diagram.Parts.{normalize_diagram-IsMadeOf}
use moonlit_ai_agent.Diagram.Joined.{is_joined, normalize_edges-cons}

-- No item has a key of the set, or the key of an item before it.
abbrev pub AreFresh : {A : Type 0} → (A → Text) → List Text → List A → Type 0
AreFresh key seen [] = Unit
AreFresh key seen (x ∷ xs) = (has (key x) seen ≡ false) × AreFresh key (key x ∷ seen) xs

-- A node has an id that is not empty and a type that is drawn.
pub IsDrawnNode : Node → Type 0
IsDrawnNode n = (n.id ≢ []) × (has n.type valid_node_types ≡ true)

-- An edge joins two of the nodes, and its type and its markers are drawn.
pub IsDrawnEdge : List Text → Edge → Type 0
IsDrawnEdge nodes e =
    (has e.source nodes ≡ true)
    × (has e.target nodes ≡ true)
    × (has e.type valid_edge_types ≡ true)
    × (has e.marker_start valid_markers ≡ true)
    × (has e.marker_end valid_markers ≡ true)

pub record IsWellFormed (d : Diagram) : Type 0 where
  pub filled : d.nodes ≢ []
  pub nodes_distinct : AreFresh (λ n. n.id) [] d.nodes
  pub nodes_drawn : All IsDrawnNode d.nodes
  pub edges_distinct : AreFresh (λ e. e.id) [] d.edges
  pub edges_drawn : All (IsDrawnEdge (node_ids d.nodes)) d.edges
  pub direction_known : has d.direction valid_directions ≡ true
  pub layout_known : has d.layout valid_layouts ≡ true

has-one_of : (set : List Text) (t d : Text) → has d set ≡ true → has (one_of set t d) set ≡ true
unfolding one_of
has-one_of set t d h = ground arith

-- The defaults are known.
defaults_known :
    (has (codes "process") valid_node_types ≡ true)
    × (has (codes "floating") valid_edge_types ≡ true)
    × (has (codes "none") valid_markers ≡ true)
    × (has (codes "arrow-closed") valid_markers ≡ true)
    × (has (codes "TB") valid_directions ≡ true)
    × (has (codes "LR") valid_directions ≡ true)
    × (has (codes "hierarchical") valid_layouts ≡ true)
unfolding has text_eq
defaults_known = (refl, refl, refl, refl, refl, refl, refl)

has-direction_of : (t : Text) → has (direction_of t) valid_directions ≡ true
has-direction_of t = elim (Bool-cases (text_eq t (codes "TD"))) [
  | inl down ↦ rw down defaults_known.4
  | inr other ↦ rw other (has-one_of valid_directions t (codes "LR") defaults_known.5)
]

module _ (cases : Cases) where
  make_node-IsDrawnNode :
      (id : Text) (v : Value) → is_empty id ≡ false → IsDrawnNode (make_node cases id v)
  unfolding IsDrawnNode make_node
  make_node-IsDrawnNode [] v h = absurd cc
  make_node-IsDrawnNode (c ∷ id) v h =
      (λ e. cc, has-one_of valid_node_types _ (codes "process") defaults_known.0)

  make_edge-IsDrawnEdge :
      (nodes : List Text) (id : Text) (v : Value)
      → is_joined nodes v ≡ true
      → IsDrawnEdge nodes (make_edge cases id v)
  unfolding IsDrawnEdge make_edge
  make_edge-IsDrawnEdge nodes id v joins = (
    ground (arith, joins),
    ground (arith, joins),
    has-one_of valid_edge_types _ (codes "floating") defaults_known.1,
    has-one_of valid_markers _ (codes "none") defaults_known.2,
    has-one_of valid_markers _ (codes "arrow-closed") defaults_known.3,
  )

  normalize_nodes-AreFresh :
      (seen : List Text) (vs : Values)
      → AreFresh (λ n. n.id) seen (normalize_nodes cases seen vs)
        × All IsDrawnNode (normalize_nodes cases seen vs)
  unfolding normalize_nodes make_node
  normalize_nodes-AreFresh seen nil = (tt, tt)
  normalize_nodes-AreFresh seen (cons v vs) = elim (Bool-cases (is_empty (node_id v))) [
    | inl blank ↦ rw blank (normalize_nodes-AreFresh seen vs)
    | inr named ↦ elim (Bool-cases (has (node_id v) seen)) [
      | inl again ↦ rw (named, again) (normalize_nodes-AreFresh seen vs)
      | inr new ↦
          let rest = normalize_nodes-AreFresh (node_id v ∷ seen) vs in
          rw (named, new) ((new, rest.0), (make_node-IsDrawnNode (node_id v) v named, rest.1))
    ]
  ]

  normalize_edges-AreFresh :
      (nodes used : List Text) (index : ℕ) (vs : Values) (es : List Edge)
      → normalize_edges cases nodes used index vs ≡ some es
      → AreFresh (λ e. e.id) used es × All (IsDrawnEdge nodes) es
  unfolding normalize_edges make_edge
  normalize_edges-AreFresh nodes used index nil [] h = (tt, tt)
  normalize_edges-AreFresh nodes used index nil (e ∷ es) h = absurd cc
  normalize_edges-AreFresh nodes used index (cons v vs) es h =
      elim (normalize_edges-cons cases nodes used index v vs es h) [
        | inl (loose, left_out) ↦ normalize_edges-AreFresh nodes used (index + 1) vs es left_out
        | inr (joins, id, rest, e, new, more) ↦
            let drawn = make_edge-IsDrawnEdge nodes id v joins in
            let ih = normalize_edges-AreFresh nodes (id ∷ used) (index + 1) vs rest more in
            rw e ((new, ih.0), (drawn, ih.1))
      ]

  -- A diagram that comes out of the normalization has a node, no two of its nodes share an id, and
  -- no id is empty. No two of its edges share an id, and each edge joins two of the nodes. The types
  -- of nodes and edges, the markers, the direction and the layout are among those that are drawn.
  pub normalize_diagram-IsWellFormed :
      (v : Value) (d : Diagram) → normalize_diagram cases v ≡ normalized d → IsWellFormed d
  normalize_diagram-IsWellFormed v d h =
      let made = normalize_diagram-IsMadeOf cases v d h in
      let nodes = normalize_nodes-AreFresh [] (items_of (get_member (codes "nodes") v)) in
      let edges = normalize_edges-AreFresh (node_ids d.nodes) [] 0 _ d.edges made.edges in
      record {
        filled = made.filled;
        nodes_distinct = rw made.nodes nodes.0;
        nodes_drawn = rw made.nodes nodes.1;
        edges_distinct = edges.0;
        edges_drawn = edges.1;
        direction_known = rw made.direction (has-direction_of _);
        layout_known = rw made.layout (has-one_of valid_layouts _ _ defaults_known.6);
      }
