-- ===== src/Diagram.antt =====
-- front-end/src/features/sidebar-right/artifacts/diagram-flow/diagramFlowModel.js: the data of a
-- diagram. `toLowerCase` and `toUpperCase` are the language's, the record `Cases`.
pub mod Styles
pub mod Nodes
pub mod Edges
pub mod Normalize
pub mod Numbered
pub mod Joined
pub mod Parts
pub mod WellFormed
pub mod Ending
pub mod Kept
mod Examples
use moonlit_ai_agent.Prelude.{
  ℕ, Bool, false, Option, List, [], ◌∷◌, Text, text_eq, codes, any, ◌||◌, Dict, if◌then◌else◌,
}
use moonlit_ai_agent.Prelude.Json.{Value, str, to_text, is_truthy}

pub record Cases : Type 0 where
  pub to_lower : Text → Text
  pub to_upper : Text → Text

abbrev pub Style : Type 0
Style = Dict Value

pub record Column : Type 0 where
  pub name : Text
  pub type : Option Text
  pub key : Option Text
  pub nullable : Option Bool

pub record Node : Type 0 where
  pub id : Text
  pub type : Text
  pub label : Text
  pub subtitle : Text
  pub count : Option ℕ
  pub status : Option Text
  pub tags : List Text
  pub columns : List Column
  pub position : Option (ℕ × ℕ)
  pub style : Option Style

pub record Edge : Type 0 where
  pub id : Text
  pub source : Text
  pub target : Text
  pub type : Text
  pub label : Text
  pub style : Option Style
  pub animated : Bool
  pub marker_start : Text
  pub marker_end : Text

pub record Diagram : Type 0 where
  pub direction : Text
  pub layout : Text
  pub nodes : List Node
  pub edges : List Edge

-- `set.has(t)`.
unfoldable pub has : Text → List Text → Bool
has t [] = false
has t (s ∷ set) = text_eq s t || has t set

abbrev pub valid_directions : List Text
valid_directions = codes "LR" ∷ codes "RL" ∷ codes "TB" ∷ codes "BT" ∷ []

abbrev pub valid_layouts : List Text
valid_layouts = codes "hierarchical" ∷ codes "radial" ∷ codes "manual" ∷ []

abbrev pub valid_node_types : List Text
valid_node_types =
    codes "actor"
    ∷ codes "aggregate"
    ∷ codes "data"
    ∷ codes "decision"
    ∷ codes "entity"
    ∷ codes "event"
    ∷ codes "filter"
    ∷ codes "group"
    ∷ codes "input"
    ∷ codes "join"
    ∷ codes "note"
    ∷ codes "output"
    ∷ codes "process"
    ∷ codes "scan"
    ∷ codes "sort"
    ∷ []

abbrev pub valid_edge_types : List Text
valid_edge_types =
    codes "default"
    ∷ codes "floating"
    ∷ codes "simplebezier"
    ∷ codes "smoothstep"
    ∷ codes "step"
    ∷ codes "straight"
    ∷ []

abbrev pub valid_markers : List Text
valid_markers = codes "none" ∷ codes "arrow" ∷ codes "arrow-closed" ∷ []

abbrev pub node_statuses : List Text
node_statuses =
    codes "active"
    ∷ codes "blocked"
    ∷ codes "cached"
    ∷ codes "disabled"
    ∷ codes "error"
    ∷ codes "pending"
    ∷ codes "ready"
    ∷ codes "running"
    ∷ codes "success"
    ∷ codes "warning"
    ∷ []

abbrev pub forbidden_style_keys : List Text
forbidden_style_keys =
    codes "bottom"
    ∷ codes "display"
    ∷ codes "height"
    ∷ codes "left"
    ∷ codes "position"
    ∷ codes "right"
    ∷ codes "top"
    ∷ codes "width"
    ∷ codes "zIndex"
    ∷ []

-- `String(v || d)`.
unfoldable pub text_or : Value → Text → Text
text_or v d = if is_truthy v then to_text v else d

-- `set.has(t) ? t : d`.
unfoldable pub one_of : List Text → Text → Text → Text
one_of set t d = if has t set then t else d
