-- ===== src/Diagram/Parts.antt =====
-- diagramFlowModel.js: what the parts of a normalized diagram are made of.
use moonlit_ai_agent.Prelude.{
  ◌≡◌, ◌≢◌, ◌∙◌, refl, sym, ap, some, [], ◌∷◌, List, codes, Option-cases, inl, inr,
}
use moonlit_ai_agent.Prelude.Json.{
  Value, Members, undefined, null, bool, num, str, arr, obj, nil, cons, get_member,
}
use moonlit_ai_agent.Diagram.{Cases, Node, Diagram, text_or, one_of, valid_layouts}
use moonlit_ai_agent.Diagram.Nodes.{normalize_nodes}
use moonlit_ai_agent.Diagram.Edges.{normalize_edges}
use moonlit_ai_agent.Diagram.Normalize.{
  normalized, endless, normalize_diagram, node_ids, items_of, with_nodes, with_items, assemble,
  direction_of,
}

normalized_injective : {d e : Diagram} → normalized d ≡ normalized e → d ≡ e
normalized_injective h = cc

ne-endless : {d : Diagram} → normalized d ≢ endless
ne-endless h = cc

module _ (cases : Cases) where
  open cases use {to_lower, to_upper}

  pub record IsMadeOf (v : Value) (d : Diagram) : Type 0 where
    pub filled : d.nodes ≢ []
    pub nodes : d.nodes ≡ normalize_nodes cases [] (items_of (get_member (codes "nodes") v))
    pub edges :
        normalize_edges cases (node_ids d.nodes) [] 0 (items_of (get_member (codes "edges") v))
        ≡ some d.edges
    pub direction :
        d.direction ≡ direction_of (to_upper (text_or (get_member (codes "direction") v) []))
    pub layout :
        d.layout
        ≡ one_of valid_layouts
            (to_lower (text_or (get_member (codes "layout") v) []))
            (codes "hierarchical")

  with_nodes-IsMadeOf :
      (ms : Members) (ns : List Node) (d : Diagram)
      → ns ≡ normalize_nodes cases [] (items_of (get_member (codes "nodes") (obj ms)))
      → with_nodes cases ms ns ≡ normalized d
      → IsMadeOf (obj ms) d
  with_nodes-IsMadeOf ms [] d from h = absurd cc
  with_nodes-IsMadeOf ms (n ∷ ns) d from h =
      let edges = items_of (get_member (codes "edges") (obj ms)) in
      elim (Option-cases (normalize_edges cases (node_ids (n ∷ ns)) [] 0 edges)) [
        | inl stuck ↦ absurd (ne-endless (sym h ∙ ap (assemble _ _ (n ∷ ns)) stuck))
        | inr (es, e) ↦
            let whole = normalized_injective (sym h ∙ ap (assemble _ _ (n ∷ ns)) e) in
            rw whole (record {
              filled = λ i. cc;
              nodes = from;
              edges = e;
              direction = refl;
              layout = refl;
            })
      ]

  with_items-IsMadeOf :
      (ms : Members) (v : Value) (d : Diagram)
      → v ≡ get_member (codes "nodes") (obj ms)
      → with_items cases ms v ≡ normalized d
      → IsMadeOf (obj ms) d
  with_items-IsMadeOf ms undefined d from h = absurd cc
  with_items-IsMadeOf ms null d from h = absurd cc
  with_items-IsMadeOf ms (bool b) d from h = absurd cc
  with_items-IsMadeOf ms (num n) d from h = absurd cc
  with_items-IsMadeOf ms (str s) d from h = absurd cc
  with_items-IsMadeOf ms (obj os) d from h = absurd cc
  with_items-IsMadeOf ms (arr nil) d from h = absurd cc
  with_items-IsMadeOf ms (arr (cons v vs)) d from h =
      with_nodes-IsMadeOf ms (normalize_nodes cases [] (cons v vs)) d
        (ap (λ x. normalize_nodes cases [] (items_of x)) from) h

  pub normalize_diagram-IsMadeOf :
      (v : Value) (d : Diagram) → normalize_diagram cases v ≡ normalized d → IsMadeOf v d
  unfolding normalize_diagram
  normalize_diagram-IsMadeOf (obj ms) d h = with_items-IsMadeOf ms _ d refl h
  normalize_diagram-IsMadeOf undefined d h = absurd cc
  normalize_diagram-IsMadeOf null d h = absurd cc
  normalize_diagram-IsMadeOf (bool b) d h = absurd cc
  normalize_diagram-IsMadeOf (num n) d h = absurd cc
  normalize_diagram-IsMadeOf (str s) d h = absurd cc
  normalize_diagram-IsMadeOf (arr vs) d h = absurd cc
