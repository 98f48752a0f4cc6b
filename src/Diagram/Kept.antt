-- ===== src/Diagram/Kept.antt =====
-- diagramFlowModel.js: what the normalization keeps.
use moonlit_ai_agent.Prelude.{
  ℕ, ◌+◌, ◌≡◌, refl, Bool, true, some, List, [], ◌∷◌, Text, text_eq, text_eq_iff, codes, map,
  Bool-cases, inl, inr, ◌||◌, is_empty, if◌then◌else◌, arith,
}
use moonlit_ai_agent.Prelude.Json.{Value, Values, nil, cons, get_member, trimmed}
use moonlit_ai_agent.Diagram.{Cases, Edge, Diagram, has}
use moonlit_ai_agent.Diagram.Nodes.{node_id, make_node, normalize_nodes}
use moonlit_ai_agent.Diagram.Edges.{make_edge, normalize_edges}
use moonlit_ai_agent.Diagram.Joined.{is_joined, normalize_edges-cons}
use moonlit_ai_agent.Diagram.Normalize.{normalized, normalize_diagram, node_ids, items_of}
use moonlit_ai_agent.Diagram.Parts.{normalize_diagram-IsMadeOf}

-- The ids that nodes have in the data, those that are not empty.
pub given_ids : Values → List Text
given_ids nil = []
given_ids (cons v vs) = if is_empty (node_id v) then given_ids vs else node_id v ∷ given_ids vs

-- The sources and targets in the data that are both among the ids of nodes.
pub given_ends : List Text → Values → List (Text × Text)
given_ends nodes nil = []
given_ends nodes (cons v vs) =
    let source = trimmed (get_member (codes "source") v) in
    let target = trimmed (get_member (codes "target") v) in
    if is_joined nodes v then (source, target) ∷ given_ends nodes vs else given_ends nodes vs

or_known :
    (a b c e : Bool) → (e ≡ true → a ≡ true) → (a || b) ≡ (a || c) → (a || b) ≡ (a || (e || c))
or_known a b c e h i = ground arith

or_moved : (a b c e : Bool) → ((e || a) || b) ≡ ((e || a) || c) → (a || (e || b)) ≡ (a || (e || c))
or_moved a b c e i = ground arith

module _ (cases : Cases) where
  has-normalize_nodes :
      (t : Text) (seen : List Text) (vs : Values)
      → (has t seen || has t (node_ids (normalize_nodes cases seen vs)))
        ≡ (has t seen || has t (given_ids vs))
  unfolding normalize_nodes given_ids make_node has
  has-normalize_nodes t seen nil = refl
  has-normalize_nodes t seen (cons v vs) = elim (Bool-cases (is_empty (node_id v))) [
    | inl blank ↦ rw blank (has-normalize_nodes t seen vs)
    | inr named ↦ elim (Bool-cases (has (node_id v) seen)) [
      | inl again ↦
          rw (named, again)
            (or_known (has t seen) _ _ (text_eq (node_id v) t)
              (λ same. rw (← (text_eq_iff (node_id v) t).0 same) again)
              (has-normalize_nodes t seen vs))
      | inr new ↦
          rw (named, new)
            (or_moved (has t seen) _ _ (text_eq (node_id v) t)
              (has-normalize_nodes t (node_id v ∷ seen) vs))
    ]
  ]

  ends-normalize_edges :
      (nodes used : List Text) (index : ℕ) (vs : Values) (es : List Edge)
      → normalize_edges cases nodes used index vs ≡ some es
      → map (λ (e : Edge). (e.source, e.target)) es ≡ given_ends nodes vs
  unfolding normalize_edges given_ends make_edge
  ends-normalize_edges nodes used index nil [] h = refl
  ends-normalize_edges nodes used index nil (e ∷ es) h = absurd cc
  ends-normalize_edges nodes used index (cons v vs) es h =
      elim (normalize_edges-cons cases nodes used index v vs es h) [
        | inl (loose, left_out) ↦
            rw loose (ends-normalize_edges nodes used (index + 1) vs es left_out)
        | inr (joins, id, rest, e, new, more) ↦
            rw (joins, e, ends-normalize_edges nodes (id ∷ used) (index + 1) vs rest more)
      ]

  -- A diagram that comes out of the normalization has a node for every id in the data that is not
  -- empty, and no other node. Its edges are those of the data that join two of its nodes, in their
  -- order and with their ends.
  pub normalize_diagram-kept :
      (v : Value) (d : Diagram)
      → normalize_diagram cases v ≡ normalized d
      → ((id : Text)
          → has id (node_ids d.nodes)
            ≡ has id (given_ids (items_of (get_member (codes "nodes") v))))
        × (map (λ (e : Edge). (e.source, e.target)) d.edges
            ≡ given_ends (node_ids d.nodes) (items_of (get_member (codes "edges") v)))
  unfolding has
  normalize_diagram-kept v d h =
      let made = normalize_diagram-IsMadeOf cases v d h in
      (
        (λ id. rw made.nodes (has-normalize_nodes id [] _)),
        ends-normalize_edges (node_ids d.nodes) [] 0 _ d.edges made.edges,
      )
