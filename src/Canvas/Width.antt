-- ===== src/Canvas/Width.antt =====
-- front-end/src/hooks/chat-page/useWorkspaceCanvas.js: the width of the canvas. A width below zero, which
-- a drag could ask for, counts as zero: both are below the least width.
use moonlit_ai_agent.Prelude.{
  ℕ, ◌+◌, ◌-◌, ◌/◌, ◌≤◌, ◌⊎◌, min, max, Bool, true, false, inl, inr, Bool-cases, ltb, ltb→lt,
  if◌then◌else◌, arith,
}

abbrev min_canvas_width_floor : ℕ
min_canvas_width_floor = 320

abbrev min_chat_width : ℕ
min_chat_width = 360

abbrev pub default_canvas_width : ℕ
default_canvas_width = 520

-- `window.innerWidth` less the sidebar.
unfoldable pub get_workspace_width : ℕ → ℕ → ℕ
get_workspace_width inner_width sidebar_width = inner_width - sidebar_width

unfoldable pub min_width : ℕ → ℕ
min_width workspace = min min_canvas_width_floor (workspace / 2)

unfoldable pub max_width : ℕ → ℕ
unfolding min_width
max_width workspace = max (max (min_width workspace) (workspace / 2)) (workspace - min_chat_width)

unfoldable pub clamp_canvas_width : ℕ → ℕ → ℕ
unfolding min_width max_width
clamp_canvas_width width workspace = min (max_width workspace) (max (min_width workspace) width)

-- `prev - deltaX`.
pub data Drag : Type 0 where
  left right : ℕ → Drag

abbrev dragged : ℕ → Drag → ℕ
dragged prev (left n) = prev + n
dragged prev (right n) = prev - n

pub record Sizes : Type 0 where
  pub has_been_resized : Bool
  pub width : ℕ

abbrev pub new_sizes : Sizes
new_sizes = record { has_been_resized = false; width = default_canvas_width }

-- A drag, or a turn of the browser after the canvas was opened or the window or the sidebar changed.
pub data Change : Type 0 where
  drag : Drag → Change
  sync : Change

unfoldable pub change_width : Change → ℕ → Sizes → Sizes
change_width (drag d) workspace s = record {
  has_been_resized = true;
  width = clamp_canvas_width (dragged s.width d) workspace;
}
change_width sync workspace s = record s {
  width =
      if s.has_been_resized
      then clamp_canvas_width s.width workspace
      else clamp_canvas_width (workspace / 2) workspace;
}

clamp_room :
    (width workspace : ℕ)
    → (min 320 (workspace / 2) ≤ clamp_canvas_width width workspace)
      × ((clamp_canvas_width width workspace + 360 ≤ workspace)
          ⊎ (clamp_canvas_width width workspace ≤ workspace / 2))
unfolding clamp_canvas_width
clamp_room width workspace = elim (Bool-cases (ltb (workspace / 2) (workspace - 360))) [
  | inl wide ↦ (omega arith, inl (omega (arith, ltb→lt _ _ wide)))
  | inr narrow ↦ (omega arith, inr (ground arith))
]

-- Whatever is dragged, and however the window or the sidebar has changed, the canvas is then at least
-- as wide as the lesser of 320 pixels and half of the workspace, and it leaves the chat 360 pixels or
-- half of the workspace.
pub change_width_bounds :
    (c : Change) (workspace : ℕ) (s : Sizes)
    → (min 320 (workspace / 2) ≤ (change_width c workspace s).width)
      × (((change_width c workspace s).width + 360 ≤ workspace)
          ⊎ ((change_width c workspace s).width ≤ workspace / 2))
unfolding change_width
change_width_bounds (drag d) workspace s = clamp_room (dragged s.width d) workspace
change_width_bounds sync workspace s = elim (Bool-cases s.has_been_resized) [
  | inl resized ↦ rw resized (clamp_room s.width workspace)
  | inr untouched ↦ rw untouched (clamp_room (workspace / 2) workspace)
]
