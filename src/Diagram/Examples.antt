-- ===== src/Diagram/Examples.antt =====
-- Concrete diagrams, with a language that changes only the letters of ASCII.
use moonlit_ai_agent.Prelude.{
  ◌+◌, ◌-◌, ◌≡◌, ◌≢◌, refl, false, none, [], ◌∷◌, Text, text_eq, codes, decimal, map, leb, ◌&&◌,
  trim, trim_start, trim_end, is_space, insert, lookup, if◌then◌else◌,
}
use moonlit_ai_agent.Prelude.Json.{
  Value, Members, str, arr, obj, nil, cons, end, member, get_member, trimmed, filled_text, to_text,
}
use moonlit_ai_agent.Diagram.{Cases, Node, Edge, Diagram, has, text_or, one_of}
use moonlit_ai_agent.Diagram.Styles.{
  kebab_to_camel, is_kept, add_entries, normalize_diagram_style, base_style, normalize_node_style,
  normalize_edge_style,
}
use moonlit_ai_agent.Diagram.Nodes.{
  tag_texts, normalize_tags, point_of, normalize_column, columns_of, normalize_columns, make_node,
  normalize_nodes,
}
use moonlit_ai_agent.Diagram.Edges.{numbered_id, free_id, edge_id, make_edge, normalize_edges}
use moonlit_ai_agent.Diagram.Normalize.{normalized, endless, normalize_diagram, items_of}
use moonlit_ai_agent.Diagram.WellFormed.{IsWellFormed, normalize_diagram-IsWellFormed}
use moonlit_ai_agent.Diagram.Ending.{normalize_diagram-ends}
use moonlit_ai_agent.Diagram.Kept.{given_ids, given_ends, normalize_diagram-kept}

abbrev ascii : Cases
ascii = record {
  to_lower = map (λ c. if leb 65 c && leb c 90 then c + 32 else c);
  to_upper = map (λ c. if leb 97 c && leb c 122 then c - 32 else c);
}

abbrev node : Text → Value
node id = obj (member (codes "id") (str id) end)

abbrev edge : Text → Text → Text → Value
edge id source target = obj (
    member (codes "id") (str id)
      (member (codes "source") (str source) (member (codes "target") (str target) end)))

-- A node twice, a blank id, an edge to nowhere, and an id of edges three times.
abbrev members : Members
members = member (codes "direction") (str (codes "td")) (
    member (codes "nodes")
      (arr (
        cons (node (codes " a "))
          (cons (node (codes "a")) (cons (node (codes " ")) (cons (node (codes "b")) nil)))))
      (member (codes "edges")
        (arr (
          cons (edge (codes "e") (codes "a") (codes "b")) (
            cons (edge (codes "e") (codes "a") (codes "c")) (
              cons (edge (codes "e") (codes "b") (codes "a"))
                (cons (edge (codes "e") (codes "b") (codes "b")) nil)))))
        end))

abbrev edge_result : Text → Text → Text → Edge
edge_result id source target = record {
  id = id;
  source = source;
  target = target;
  type = codes "floating";
  label = [];
  style = none;
  animated = false;
  marker_start = codes "none";
  marker_end = codes "arrow-closed";
}

abbrev node_result : Text → Node
node_result id = record {
  id = id;
  type = codes "process";
  label = id;
  subtitle = [];
  count = none;
  status = none;
  tags = [];
  columns = [];
  position = none;
  style = none;
}

abbrev result : Diagram
result = record {
  direction = codes "TB";
  layout = codes "hierarchical";
  nodes = node_result (codes "a") ∷ node_result (codes "b") ∷ [];
  edges =
      edge_result (codes "e") (codes "a") (codes "b")
      ∷ edge_result (codes "e-2") (codes "b") (codes "a")
      ∷ edge_result (codes "e-3") (codes "b") (codes "b")
      ∷ [];
}

normalize_diagram_run : normalize_diagram ascii (obj members) ≡ normalized result
unfolding normalize_diagram normalize_nodes normalize_edges make_node make_edge edge_id free_id
    numbered_id decimal has text_eq text_or one_of trimmed filled_text trim trim_start trim_end
    is_space to_text normalize_tags tag_texts point_of columns_of normalize_columns normalize_column
    normalize_node_style normalize_edge_style base_style normalize_diagram_style add_entries is_kept
    kebab_to_camel insert lookup
normalize_diagram_run = refl

normalize_diagram-IsWellFormed_example : IsWellFormed result
normalize_diagram-IsWellFormed_example =
    normalize_diagram-IsWellFormed ascii (obj members) result normalize_diagram_run

normalize_diagram-ends_example : normalize_diagram ascii (obj members) ≢ endless
normalize_diagram-ends_example = normalize_diagram-ends ascii (obj members)

normalize_diagram-kept_example :
    ((id : Text)
      → has id (codes "a" ∷ codes "b" ∷ [])
        ≡ has id (given_ids (items_of (get_member (codes "nodes") (obj members)))))
    × (map (λ (e : Edge). (e.source, e.target)) result.edges
        ≡ given_ends
            (codes "a" ∷ codes "b" ∷ [])
            (items_of (get_member (codes "edges") (obj members))))
normalize_diagram-kept_example =
    normalize_diagram-kept ascii (obj members) result normalize_diagram_run
