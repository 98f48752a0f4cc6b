-- ===== src/Steps/Actions.antt =====
-- front-end/src/config/toolActions.js and uiActions.js: what the client says of a tool while it runs
-- and when it has run. No tool is named like a member that every object has.
use moonlit_ai_agent.Prelude.{◌∷◌, [], Text, Dict, codes}

-- The agent's own tools.
abbrev pub agent_actions : Dict (Text × Text)
agent_actions =
    (codes "read_skill", (codes "Reading skill instructions", codes "Read skill instructions"))
    ∷ (
      codes "get_connection_status",
      (codes "Checking connection status", codes "Checked connection status"),
    )
    ∷ (
      codes "get_database_list",
      (codes "Listing available databases", codes "Listed available databases"),
    )
    ∷ (codes "execute_query", (codes "Executing SQL query", codes "Executed SQL query"))
    ∷ (
      codes "analyze_query_result",
      (codes "Analyzing query result", codes "Analyzed query result"),
    )
    ∷ (codes "get_table_indexes", (codes "Fetching indexes", codes "Fetched indexes"))
    ∷ (
      codes "get_schema_overview",
      (codes "Fetching schema overview", codes "Fetched schema overview"),
    )
    ∷ (codes "explain_query", (codes "Explaining SQL query", codes "Explained SQL query"))
    ∷ (codes "get_table_details", (codes "Fetching table details", codes "Fetched table details"))
    ∷ (codes "get_table_row_counts", (codes "Counting table rows", codes "Counted table rows"))
    ∷ (codes "get_foreign_keys", (codes "Fetching foreign keys", codes "Fetched foreign keys"))
    ∷ (codes "list_views", (codes "Listing database views", codes "Listed database views"))
    ∷ (codes "web_search", (codes "Searching the web", codes "Searched the web"))
    ∷ (
      codes "get_query_history",
      (codes "Retrieving query history", codes "Retrieved query history"),
    )
    ∷ (
      codes "retrieve_memory",
      (codes "Searching conversation memory", codes "Searched conversation memory"),
    )
    ∷ []

-- The actions on the user interface, of the agent and of the front end.
abbrev pub ui_actions : Dict (Text × Text)
ui_actions =
    (codes "open_sql_editor", (codes "Opening SQL editor", codes "Opened SQL editor"))
    ∷ (codes "write_sql_editor_query", (codes "Preparing SQL query", codes "Prepared SQL query"))
    ∷ (
      codes "open_database_modal",
      (codes "Opening database connection", codes "Opened database connection"),
    )
    ∷ (codes "open_settings_modal", (codes "Opening settings", codes "Opened settings"))
    ∷ (
      codes "navigate_new_chat",
      (codes "Preparing new chat", codes "Awaiting new chat confirmation"),
    )
    ∷ (codes "complete_navigate_new_chat", (codes "Starting new chat", codes "Started new chat"))
    ∷ (codes "usage_metrics", (codes "Updating usage metrics", codes "Updated usage metrics"))
    ∷ []
