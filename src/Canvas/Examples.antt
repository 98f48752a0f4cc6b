-- ===== src/Canvas/Examples.antt =====
-- A canvas in which a query is opened, another one from the history, and the first one once more.
use moonlit_ai_agent.Prelude.{
  ◌≡◌, refl, true, false, Option, none, some, List, [], ◌∷◌, Text, text_eq, codes, map, ◌≤◌, ◌+◌,
  ◌⊎◌,
}
use moonlit_ai_agent.Prelude.Json.{null}
use moonlit_ai_agent.Canvas.{
  Artifact, Canvas, no_canvas, sql_editor, open_canvas_artifact, close_workspace_canvas,
}
use moonlit_ai_agent.Canvas.Width.{drag, left, change_width, new_sizes, change_width_bounds}
use moonlit_ai_agent.Canvas.Page.{Page}
use moonlit_ai_agent.Canvas.WellFormed.{Act, opens, closes, acts, Holds, acts-no_canvas-Holds}

abbrev past : Artifact
past = record (sql_editor (codes "SELECT 1") null) { id = codes "m:0" }

abbrev three : List Act
three =
    opens (codes "a") 7 null (past ∷ []) (sql_editor (codes "SELECT 1") null)
    ∷ opens (codes "b") 8 null (past ∷ []) (sql_editor (codes "SELECT 2") null)
    ∷ closes
    ∷ opens (codes "c") 9 null (past ∷ []) (sql_editor (codes "SELECT 1") null)
    ∷ []

abbrev ids : Option Canvas → List Text
ids none = []
ids (some c) = map (λ a. a.id) c.outputs

ids-three : ids (acts three (some no_canvas)) ≡ codes "b" ∷ codes "m:0" ∷ []
unfolding open_canvas_artifact close_workspace_canvas text_eq
ids-three = refl

acts-no_canvas-Holds_example : Holds (acts three (some no_canvas))
acts-no_canvas-Holds_example = acts-no_canvas-Holds three

abbrev page : Page
page = record {
  session = some no_canvas;
  is_connected = true;
  settings_open = false;
  db_modal_open = false;
  snackbars = [];
}

change_width_bounds_example :
    (320 ≤ (change_width (drag (left 900)) 1000 new_sizes).width)
    × (((change_width (drag (left 900)) 1000 new_sizes).width + 360 ≤ 1000)
        ⊎ ((change_width (drag (left 900)) 1000 new_sizes).width ≤ 500))
change_width_bounds_example = change_width_bounds (drag (left 900)) 1000 new_sizes
