-- ===== src/Canvas/Page.antt =====
-- front-end/src/hooks/chat-page/useChatPageCanvas.js: the canvas of the page, with the editor that an agent
-- writes into.
use moonlit_ai_agent.Prelude.{
  ℕ, Bool, true, false, not, ◌&&◌, Option, none, some, List, [], ◌∷◌, ◌++◌, Text, text_eq, codes,
  any, if◌then◌else◌,
}
use moonlit_ai_agent.Prelude.Json.{Value, null, bool, obj, Members, end, member, with_member}
use moonlit_ai_agent.Message.{Message, Item, tool, running}
use moonlit_ai_agent.Canvas.{
  Artifact, Canvas, open_canvas_artifact, sql_editor, close_workspace_canvas,
}

pub record Page : Type 0 where
  pub session : Option Canvas
  pub is_connected : Bool
  pub settings_open : Bool
  pub db_modal_open : Bool
  pub snackbars : List Text

abbrev pub connection_source : Bool → Value → Value → Value
connection_source is_connected database schema =
    if is_connected
    then obj (member (codes "database") database (member (codes "schema") schema end))
    else null

abbrev pub canvas_artifact : Option Canvas → Option Artifact
canvas_artifact none = none
canvas_artifact (some c) = c.artifact

abbrev pub is_canvas_open : Option Canvas → Bool
is_canvas_open none = false
is_canvas_open (some c) = c.is_open

abbrev pub outputs_of : Option Canvas → List Artifact
outputs_of none = []
outputs_of (some c) = c.outputs

-- `new Map(...)` and `records.set`: a record of the canvas takes the place of the one in the history.
unfoldable pub put_record : Artifact → List Artifact → List Artifact
put_record a [] = a ∷ []
put_record a (b ∷ bs) = if text_eq b.id a.id then a ∷ bs else b ∷ put_record a bs

unfoldable pub put_records : List Artifact → List Artifact → List Artifact
put_records [] records = records
put_records (a ∷ rest) records = put_records rest (put_record a records)

unfoldable pub conversation_outputs : List Artifact → Option Canvas → List Artifact
unfolding put_records put_record
conversation_outputs history session = put_records (outputs_of session) (put_records history [])

abbrev last : {A : Type 0} → List A → Option A
last [] = none
last (x ∷ []) = some x
last (x ∷ y ∷ ys) = last (y ∷ ys)

abbrev is_writing : Item → Bool
is_writing (tool id name running args result) = text_eq name (codes "write_sql_editor_query")
is_writing _ = false

abbrev is_last_writing : Option Message → Bool
is_last_writing none = false
is_last_writing (some m) = any is_writing m.steps

unfoldable pub is_sql_editor_streaming : Bool → List Message → Bool
is_sql_editor_streaming is_currently_streaming messages =
    is_currently_streaming && is_last_writing (last messages)

abbrev pub is_editor : Option Artifact → Bool
is_editor none = false
is_editor (some a) = text_eq a.type (codes "sql-editor")

abbrev members_of : Value → Members
members_of (obj ms) = ms
members_of _ = end

-- The artifact that is shown: an editor is told whether the agent writes into it.
unfoldable pub workspace_canvas_artifact : Option Artifact → Bool → Option Artifact
unfolding with_member
workspace_canvas_artifact none is_streaming = none
workspace_canvas_artifact (some a) is_streaming =
    if text_eq a.type (codes "sql-editor")
    then some (record a {
      props = obj (with_member (codes "isStreaming") (bool is_streaming) (members_of a.props));
    })
    else some a

abbrev pub is_sql_editor_open : Page → Bool
is_sql_editor_open p = is_canvas_open p.session && is_editor (canvas_artifact p.session)

unfoldable pub close_canvas : Page → Page
unfolding close_workspace_canvas
close_canvas p = record p { session = close_workspace_canvas p.session }

-- What a new id and a new cache would be, what the page is connected to, and the history.
module _ (uuid : Text) (fresh : ℕ) (database schema : Value) (history : List Artifact) where
  unfoldable pub open_artifact : Artifact → Page → Page
  unfolding open_canvas_artifact
  open_artifact a p =
      let source = connection_source p.is_connected database schema in
      record p { session = open_canvas_artifact uuid fresh source history a p.session }

  unfoldable pub handle_open_sql_editor : Text → Value → Page → Page
  unfolding open_artifact
  handle_open_sql_editor query results p =
      if p.is_connected then open_artifact (sql_editor query results) p else record p {
        settings_open = false;
        db_modal_open = true;
        snackbars = p.snackbars ++ codes "Connect a database to use the SQL editor." ∷ [];
      }

  unfoldable pub handle_toggle_sql_editor : Page → Page
  unfolding handle_open_sql_editor close_canvas
  handle_toggle_sql_editor p =
      if is_sql_editor_open p then close_canvas p else handle_open_sql_editor [] null p

  -- The effect that opens the editor while the agent writes a query.
  unfoldable pub follow_agent : Bool → Page → Page
  unfolding open_artifact
  follow_agent is_streaming p =
      if is_streaming && (not (is_editor (canvas_artifact p.session)) && p.is_connected)
      then open_artifact (sql_editor [] null) p
      else p
