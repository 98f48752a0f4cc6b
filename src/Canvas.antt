-- ===== src/Canvas.antt =====
-- front-end/src/hooks/chat-page/useWorkspaceCanvas.js: the panel beside a chat, which shows an
-- artifact. A session without a canvas is one whose canvas is closed and empty. Widths are whole
-- numbers of pixels; an editor's cache is an object, and has a number.
pub mod Width
pub mod Page
pub mod WellFormed
pub mod Toggled
mod Examples
use moonlit_ai_agent.Prelude.{
  ℕ, Bool, true, false, not, ◌&&◌, ◌||◌, Option, none, some, List, [], ◌∷◌, ◌++◌, Text, text_eq,
  codes, is_empty, find, filter, ◌==◌, if◌then◌else◌,
}
use moonlit_ai_agent.Prelude.Json.{
  Value, undefined, null, bool, num, str, obj, end, member, get_member, nullish_or, trimmed,
}

-- A `source` that is not there is `undefined`.
pub record Artifact : Type 0 where
  pub id : Text
  pub type : Text
  pub title : Value
  pub source : Value
  pub props : Value
  pub workspace_cache : Option ℕ

pub record Canvas : Type 0 where
  pub is_open : Bool
  pub artifact : Option Artifact
  pub outputs : List Artifact
  pub workspace_cache : Option ℕ

abbrev pub no_canvas : Canvas
no_canvas = record { is_open = false; artifact = none; outputs = []; workspace_cache = none }

-- `===`. Neither a list nor an object stands where the code compares.
abbrev pub same_value : Value → Value → Bool
same_value undefined undefined = true
same_value null null = true
same_value (bool true) (bool b) = b
same_value (bool false) (bool b) = not b
same_value (num n) (num m) = n == m
same_value (str s) (str t) = text_eq s t
same_value _ _ = false

abbrev same_member : Text → Value → Value → Bool
same_member k a b = same_value (get_member k a) (get_member k b)

-- The output of the conversation's history that is opened.
abbrev pub is_history_of : Artifact → Artifact → Bool
is_history_of artifact item =
    text_eq item.type artifact.type
    && ((text_eq artifact.type (codes "sql-editor")
          && same_member (codes "initialQuery") item.props artifact.props)
        || (text_eq artifact.type (codes "react-flow")
            && same_member (codes "code") item.props artifact.props))

abbrev pub or_text : Text → Text → Text
or_text [] t = t
or_text (c ∷ s) t = c ∷ s

abbrev pub id_of : Option Artifact → Text
id_of none = []
id_of (some item) = item.id

-- What is opened from the history has no source of its own, or the one it is stored with.
abbrev pub source_of : Value → Option Artifact → Value → Value
source_of undefined none source = source
source_of undefined (some item) source = nullish_or item.source null
source_of own item source = own

abbrev pub cache_or : Option ℕ → ℕ → ℕ
cache_or none fresh = fresh
cache_or (some cache) fresh = cache

-- The empty editor is no output.
abbrev pub is_output : Artifact → Bool
is_output a =
    not (text_eq a.type (codes "sql-editor"))
    || not (is_empty (trimmed (get_member (codes "initialQuery") a.props)))

abbrev pub without : Text → List Artifact → List Artifact
without id outputs = filter (λ item. not (text_eq item.id id)) outputs

-- `artifact` as it is kept. What `crypto.randomUUID` and `createEditorCache` would give are arguments.
abbrev pub opened : Text → Value → List Artifact → Artifact → ℕ → Artifact
opened uuid source history artifact cache =
    let item = find (is_history_of artifact) history in
    record artifact {
      id = or_text artifact.id (or_text (id_of item) uuid);
      source = source_of artifact.source item source;
      workspace_cache = some cache;
    }

abbrev put_artifact : Artifact → ℕ → Canvas → Canvas
put_artifact a cache c =
    let others = without a.id c.outputs in
    record {
      is_open = true;
      artifact = some a;
      outputs = if is_output a then others ++ a ∷ [] else others;
      workspace_cache = some cache;
    }

-- A session that is gone stays gone; an artifact without a type is not opened.
unfoldable pub open_canvas_artifact :
    Text → ℕ → Value → List Artifact → Artifact → Option Canvas → Option Canvas
unfolding trimmed
open_canvas_artifact uuid fresh source history artifact none = none
open_canvas_artifact uuid fresh source history artifact (some c) =
    let cache = cache_or c.workspace_cache fresh in
    if is_empty artifact.type
    then some c
    else some (put_artifact (opened uuid source history artifact cache) cache c)

abbrev pub sql_editor : Text → Value → Artifact
sql_editor query results = record {
  id = [];
  type = codes "sql-editor";
  title = str (codes "SQL editor");
  source = undefined;
  props =
      obj (member (codes "initialQuery") (str query) (member (codes "initialResults") results end));
  workspace_cache = none;
}

unfoldable pub close_workspace_canvas : Option Canvas → Option Canvas
close_workspace_canvas none = none
close_workspace_canvas (some c) = some (record c { is_open = false })
