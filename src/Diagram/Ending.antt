-- ===== src/Diagram/Ending.antt =====
-- diagramFlowModel.js: the normalization comes to an end on every input.
use moonlit_ai_agent.Prelude.{
  ℕ, ◌+◌, ◌≢◌, ◌∙◌, ap, sym, not, none, some, List, [], ◌∷◌, Text, codes, Bool-cases, Option-cases,
  inl, inr, ◌||◌,
}
use moonlit_ai_agent.Prelude.Json.{
  Value, Values, Members, undefined, null, bool, num, str, arr, obj, nil, cons, get_member, trimmed,
}
use moonlit_ai_agent.Diagram.{Cases, Node, Edge, has}
use moonlit_ai_agent.Diagram.Nodes.{normalize_nodes}
use moonlit_ai_agent.Diagram.Edges.{edge_id, normalize_edges}
use moonlit_ai_agent.Diagram.Normalize.{
  endless, normalize_diagram, node_ids, items_of, with_nodes, with_items, assemble,
}
use moonlit_ai_agent.Diagram.Numbered.{edge_id-enough}

assemble-ne-endless :
    (direction layout : Text) (nodes : List Node) (edges : List Edge)
    → assemble direction layout nodes (some edges) ≢ endless
assemble-ne-endless direction layout nodes edges h = cc

module _ (cases : Cases) where
  normalize_edges-ends :
      (nodes used : List Text) (index : ℕ) (vs : Values)
      → normalize_edges cases nodes used index vs ≢ none
  unfolding normalize_edges
  normalize_edges-ends nodes used index nil = λ h. cc
  normalize_edges-ends nodes used index (cons v vs) =
      elim (Bool-cases (
        not (has (trimmed (get_member (codes "source") v)) nodes)
        || not (has (trimmed (get_member (codes "target") v)) nodes))) [
          | inl loose ↦ rw loose (normalize_edges-ends nodes used (index + 1) vs)
          | inr joined ↦ elim (Option-cases (edge_id used index v)) [
            | inl stuck ↦ absurd (edge_id-enough used index v stuck)
            | inr (id, found) ↦
                elim (Option-cases (normalize_edges cases nodes (id ∷ used) (index + 1) vs)) [
                  | inl stuck ↦ absurd (normalize_edges-ends nodes (id ∷ used) (index + 1) vs stuck)
                  | inr (rest, e) ↦ rw (joined, found, e) (λ h. cc)
                ]
          ]
        ]

  with_nodes-ends : (ms : Members) (ns : List Node) → with_nodes cases ms ns ≢ endless
  with_nodes-ends ms [] h = cc
  with_nodes-ends ms (n ∷ ns) h =
      let edges = items_of (get_member (codes "edges") (obj ms)) in
      elim (Option-cases (normalize_edges cases (node_ids (n ∷ ns)) [] 0 edges)) [
        | inl stuck ↦ normalize_edges-ends (node_ids (n ∷ ns)) [] 0 edges stuck
        | inr (es, e) ↦ assemble-ne-endless _ _ (n ∷ ns) es (sym (ap (assemble _ _ (n ∷ ns)) e) ∙ h)
      ]

  with_items-ends : (ms : Members) (v : Value) → with_items cases ms v ≢ endless
  with_items-ends ms undefined h = cc
  with_items-ends ms null h = cc
  with_items-ends ms (bool b) h = cc
  with_items-ends ms (num n) h = cc
  with_items-ends ms (str s) h = cc
  with_items-ends ms (obj os) h = cc
  with_items-ends ms (arr nil) h = cc
  with_items-ends ms (arr (cons v vs)) h =
      with_nodes-ends ms (normalize_nodes cases [] (cons v vs)) h

  -- The normalization ends on every value: whatever ids the edges have, the loop that numbers an id
  -- which has stood before comes to one that has not, within as many rounds as there are ids, and
  -- two more.
  pub normalize_diagram-ends : (v : Value) → normalize_diagram cases v ≢ endless
  unfolding normalize_diagram
  normalize_diagram-ends (obj ms) h = with_items-ends ms _ h
  normalize_diagram-ends undefined h = cc
  normalize_diagram-ends null h = cc
  normalize_diagram-ends (bool b) h = cc
  normalize_diagram-ends (num n) h = cc
  normalize_diagram-ends (str s) h = cc
  normalize_diagram-ends (arr vs) h = cc
