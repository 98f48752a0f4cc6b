-- ===== src/Diagram/Joined.antt =====
-- diagramFlowModel.js: what becomes of one edge in the normalization.
use moonlit_ai_agent.Prelude.{
  ℕ, ◌+◌, ◌≡◌, ◌⊎◌, ◌∙◌, sym, Bool, true, false, not, none, some, List, ◌∷◌, Text, codes,
  Bool-cases, Option-cases, inl, inr, ◌||◌, ◌&&◌, arith,
}
use moonlit_ai_agent.Prelude.Json.{Value, Values, cons, get_member, trimmed}
use moonlit_ai_agent.Diagram.{Cases, Edge, has}
use moonlit_ai_agent.Diagram.Edges.{edge_id, make_edge, normalize_edges}
use moonlit_ai_agent.Diagram.Numbered.{edge_id-enough, edge_id-new}

-- Both ends of the edge are among the ids of nodes.
abbrev pub is_joined : List Text → Value → Bool
is_joined nodes v =
    has (trimmed (get_member (codes "source") v)) nodes
    && has (trimmed (get_member (codes "target") v)) nodes

joined_test : (a b : Bool) → (a && b) ≡ true → (not a || not b) ≡ false
joined_test a b h = ground arith

loose_test : (a b : Bool) → (a && b) ≡ false → (not a || not b) ≡ true
loose_test a b h = ground arith

module _ (cases : Cases) where
  -- An edge that does not join two nodes is left out. One that does is made with a new id, before
  -- the edges that follow.
  pub normalize_edges-cons :
      (nodes used : List Text) (index : ℕ) (v : Value) (vs : Values) (es : List Edge)
      → normalize_edges cases nodes used index (cons v vs) ≡ some es
      → ((is_joined nodes v ≡ false) × (normalize_edges cases nodes used (index + 1) vs ≡ some es))
        ⊎ ((is_joined nodes v ≡ true)
            × (id : Text) × (rest : List Edge) × (es ≡ make_edge cases id v ∷ rest)
            × (has id used ≡ false)
            × (normalize_edges cases nodes (id ∷ used) (index + 1) vs ≡ some rest))
  unfolding normalize_edges
  normalize_edges-cons nodes used index v vs es h = elim (Bool-cases (is_joined nodes v)) [
    | inr loose ↦
        let step : normalize_edges cases nodes used index (cons v vs)
            ≡ normalize_edges cases nodes used (index + 1) vs =
          rw (loose_test _ _ loose) in
        inl (loose, sym step ∙ h)
    | inl joins ↦ elim (Option-cases (edge_id used index v)) [
      | inl stuck ↦ absurd (edge_id-enough used index v stuck)
      | inr (id, found) ↦
          elim (Option-cases (normalize_edges cases nodes (id ∷ used) (index + 1) vs)) [
            | inl stuck ↦
                let step : normalize_edges cases nodes used index (cons v vs) ≡ none =
                  rw (joined_test _ _ joins, found, stuck) in
                absurd cc
            | inr (rest, e) ↦
                let step : normalize_edges cases nodes used index (cons v vs)
                    ≡ some (make_edge cases id v ∷ rest) =
                  rw (joined_test _ _ joins, found, e) in
                inr (joins, id, rest, cc, edge_id-new used index v id found, e)
          ]
    ]
  ]
