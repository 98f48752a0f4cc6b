-- ===== src/Canvas/Toggled.antt =====
-- front-end/src/hooks/chat-page/useChatPageCanvas.js: the button of the editor, and the editor of an agent.
use moonlit_ai_agent.Prelude.{
  ℕ, true, false, not, Option, none, some, List, [], Text, text_eq, ◌≡◌, refl, Bool-cases, inl, inr,
}
use moonlit_ai_agent.Prelude.Json.{Value, null}
use moonlit_ai_agent.Canvas.{
  Artifact, Canvas, open_canvas_artifact, close_workspace_canvas, sql_editor,
}
use moonlit_ai_agent.Canvas.Page.{
  Page, is_sql_editor_open, handle_toggle_sql_editor, handle_open_sql_editor, open_artifact,
  is_canvas_open, is_editor, canvas_artifact, connection_source, close_canvas,
}

is_canvas_open-close_workspace_canvas :
    (o : Option Canvas) → is_canvas_open (close_workspace_canvas o) ≡ false
unfolding close_workspace_canvas
is_canvas_open-close_workspace_canvas none = refl
is_canvas_open-close_workspace_canvas (some c) = refl

module _ (uuid : Text) (fresh : ℕ) (database schema : Value) (history : List Artifact) where
  is_editor-open_canvas_artifact :
      (source : Value) (query : Text) (results : Value) (c : Canvas)
      → (is_canvas_open
            (open_canvas_artifact uuid fresh source history (sql_editor query results) (some c))
          ≡ true)
        × (is_editor (
              canvas_artifact (
                open_canvas_artifact uuid fresh source history (sql_editor query results) (some c)))
            ≡ true)
  unfolding open_canvas_artifact text_eq
  is_editor-open_canvas_artifact source query results c = (refl, refl)

  -- While a database is connected and the session is there, the button of the editor opens it if it
  -- is not to be seen, also when another artifact is, and closes it if it is.
  pub is_sql_editor_open-handle_toggle_sql_editor :
      (p : Page) (c : Canvas)
      → p.session ≡ some c
      → p.is_connected ≡ true
      → is_sql_editor_open (handle_toggle_sql_editor uuid fresh database schema history p)
        ≡ not (is_sql_editor_open p)
  unfolding handle_toggle_sql_editor handle_open_sql_editor open_artifact close_canvas
      open_canvas_artifact close_workspace_canvas
  is_sql_editor_open-handle_toggle_sql_editor p c s k =
      let editor =
        is_editor-open_canvas_artifact (connection_source p.is_connected database schema) [] null
          c in
      elim (Bool-cases (is_sql_editor_open p)) [
        | inl e ↦ rw e (rw (is_canvas_open-close_workspace_canvas p.session))
        | inr e ↦ rw (e, k) (rw s editor.1)
      ]
