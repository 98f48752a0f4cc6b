-- ===== src/Diagram/Numbered.antt =====
-- diagramFlowModel.js: the search for an edge's id that has not stood before comes to an end, since
-- the ids that it tries are all different.
use moonlit_ai_agent.Prelude.{
  ℕ, zero, suc, ◌+◌, ◌≤◌, ◌<◌, ◌≡◌, ◌≢◌, true, false, not, none, some, List, [], ◌∷◌, ◌++◌, Text,
  text_eq, text_eq_iff, decimal_injective, length, filter, Bool-cases, inl, inr, arith,
}
use moonlit_ai_agent.Prelude.Json.{Value}
use moonlit_ai_agent.Diagram.{has}
use moonlit_ai_agent.Diagram.Edges.{numbered_id, free_id, edge_id}

append_cancel : (s t u : Text) → s ++ t ≡ s ++ u → t ≡ u
append_cancel [] t u e = e
append_cancel (c ∷ s) t u e = append_cancel s t u cc

numbered_id_injective : (base : Text) (n m : ℕ) → numbered_id base n ≡ numbered_id base m → n ≡ m
unfolding numbered_id
numbered_id_injective base n m e = let f = append_cancel base _ _ e in decimal_injective n m cc

-- The set without a text.
without : Text → List Text → List Text
without t set = filter (λ s. not (text_eq s t)) set

has-without :
    (t u : Text) (set : List Text) → u ≢ t → has u set ≡ true → has u (without t set) ≡ true
unfolding has without
has-without t u [] d h = h
has-without t u (s ∷ set) d h =
    ground (arith, text_eq_iff s t, text_eq_iff s u, has-without t u set d)

length-without-le : (t : Text) (set : List Text) → length (without t set) ≤ length set
unfolding without
length-without-le t [] = omega arith
length-without-le t (s ∷ set) = ground (arith, length-without-le t set)

length-without :
    (t : Text) (set : List Text) → has t set ≡ true → length (without t set) < length set
unfolding has without
length-without t [] h = absurd cc
length-without t (s ∷ set) h =
    ground (arith, text_eq_iff s t, length-without t set, length-without-le t set)

-- From a number on: the set `rest` has all of the numbered ids that stand in `used` and are still to
-- be tried.
free_id-numbered :
    (fuel : ℕ) (used rest : List Text) (base : Text) (n : ℕ)
    → ((m : ℕ)
        → n ≤ m
        → has (numbered_id base m) used ≡ true
        → has (numbered_id base m) rest ≡ true)
    → length rest < fuel
    → free_id fuel used base (n + 1) (numbered_id base n) ≢ none
unfolding free_id
free_id-numbered zero used rest base n left h = absurd (omega arith)
free_id-numbered (suc fuel) used rest base n left h =
    elim (Bool-cases (has (numbered_id base n) used)) [
      | inl again ↦ rw again (
          free_id-numbered fuel used (without (numbered_id base n) rest) base (n + 1)
            (λ m le stands.
              has-without _ _ rest (λ e. absurd (omega (arith, numbered_id_injective base m n e)))
                (left m (omega arith) stands))
            (omega (arith, length-without _ rest (left n (omega arith) again))))
      | inr free ↦ rw free (λ e. cc)
    ]

free_id-enough :
    (used : List Text) (base : Text) (n : ℕ)
    → free_id (suc (suc (length used))) used base n base ≢ none
unfolding free_id
free_id-enough used base n = elim (Bool-cases (has base used)) [
  | inl again ↦
      rw again (free_id-numbered (suc (length used)) used used base n (λ m le h. h) (omega arith))
  | inr free ↦ rw free (λ e. cc)
]

-- What the loop ends with is not in the set.
free_id-new :
    (fuel : ℕ) (used : List Text) (base : Text) (n : ℕ) (id found : Text)
    → free_id fuel used base n id ≡ some found
    → has found used ≡ false
unfolding free_id
free_id-new zero used base n id found h = absurd cc
free_id-new (suc fuel) used base n id found h =
    ground (arith, free_id-new fuel used base (n + 1) (numbered_id base n) found)

-- The fuel is always enough, and the id that an edge gets is new.
pub edge_id-enough : (used : List Text) (index : ℕ) (edge : Value) → edge_id used index edge ≢ none
unfolding edge_id
edge_id-enough used index edge = free_id-enough used _ 2

pub edge_id-new :
    (used : List Text) (index : ℕ) (edge : Value) (id : Text)
    → edge_id used index edge ≡ some id
    → has id used ≡ false
unfolding edge_id
edge_id-new used index edge id h = free_id-new _ used _ 2 _ id h
