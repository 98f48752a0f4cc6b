-- ===== src/Database/Requests.antt =====
-- front-end/src/contexts/DatabaseContext.jsx: what the provider of the connection does with an answer
-- of the server, to its state and to the query cache. A request itself is the server's.
use moonlit_ai_agent.Prelude.{
  ℕ, Bool, true, false, Option, none, some, List, [], ◌∷◌, Text, text_eq, codes, not, if◌then◌else◌,
}
use moonlit_ai_agent.QueryCache.{
  QueryClient, db_key, db_status, db_databases, db_schemas, db_tables,
}
use moonlit_ai_agent.Database.{
  DatabaseState, ConnectionData, Action, database_reducer, connect_success, disconnected,
  switch_database, select_schema, sync_status, set_error, or_value, or_text, filled_or,
  get_selected_database, get_database_list, get_schema_list, get_current_schema,
}

-- What the query cache holds: a connection's status, a list of databases, or what a fetch has put
-- there.
pub data Cached : Type 0 where
  status : ConnectionData → Cached
  databases : List Text → Option Text → Bool → Cached
  fetched : List Text → Cached

pub record Provider (C : Type 0) : Type 0 where
  pub state : DatabaseState
  pub queries : C

abbrev pub dispatch : {C : Type 0} → Action → Provider C → Provider C
dispatch a p = record p { state = database_reducer p.state a }

abbrev has_text : Option Text → Bool
has_text none = false
has_text (some []) = false
has_text (some (c ∷ s)) = true

-- The status that `connect` writes into the cache.
abbrev pub connected_status : ConnectionData → ConnectionData
connected_status d = record {
  connected = some true;
  selected_database = none;
  current_database = get_selected_database (some d);
  database = none;
  config_database = none;
  config_schema = none;
  db_type = d.db_type;
  is_remote = some (or_value d.is_remote false);
  databases = some (get_database_list d);
  schemas = some (get_schema_list d);
  current_schema = get_current_schema d;
  schema = none;
}

-- What becomes of a request: an answer that says `success`, with its data if it has any, another
-- answer, with its message, or an exception. No answer's data is `null`.
pub data Answer : Type 0 where
  succeeded : Option ConnectionData → Answer
  refused : Option Text → Answer
  thrown : Answer

abbrev is_current : Text → Option Text → Bool
is_current t none = false
is_current t (some c) = text_eq t c

-- Whether `switchDatabase` and `selectSchema` make a request at all.
unfoldable pub asks_database : {C : Type 0} → Text → Provider C → Bool
asks_database name p = not (is_current name p.state.current_database)

unfoldable pub asks_schema : {C : Type 0} → Text → Provider C → Bool
asks_schema name p = not (is_current name p.state.current_schema)

abbrev schemas_of : Option ConnectionData → List Text
schemas_of none = []
schemas_of (some d) = get_schema_list d

abbrev schema_of : Option ConnectionData → Option Text
schema_of none = none
schema_of (some d) = get_current_schema d

module _ {C : Type 0} (client : QueryClient C Cached) where
  open client use {set_query_data, remove_queries}

  unfoldable pub invalidate_schema_tables : Option Text → C → C
  invalidate_schema_tables database qs =
      if has_text database
      then remove_queries (codes "db" ∷ codes "tableSchema" ∷ or_value database [] ∷ [])
          (remove_queries (db_tables database) (remove_queries (db_schemas database) qs))
      else remove_queries db_key qs

  unfoldable pub connect : ℕ → ConnectionData → Provider C → Provider C
  connect now d p =
      let database = get_selected_database (some d) in
      dispatch
        (connect_success database d.db_type (some (or_value d.is_remote false))
          (some (get_database_list d)) (some (get_schema_list d)) (get_current_schema d) now)
        (record p {
          queries =
              set_query_data db_databases
                (databases (get_database_list d) d.db_type (or_value d.is_remote false))
                (set_query_data db_status (status (connected_status d))
                  (invalidate_schema_tables database p.queries));
        })

  abbrev pub forget_queries : Provider C → Provider C
  forget_queries p = record p {
    queries = remove_queries db_key (invalidate_schema_tables none p.queries);
  }

  -- `disconnect`, when the server has answered; `false` stands for a request that failed.
  unfoldable pub disconnect : Bool → Provider C → Provider C
  disconnect ok p =
      dispatch (disconnected (if ok then none else some (codes "Failed to disconnect")))
        (forget_queries p)

  unfoldable pub reset_connection_state : Provider C → Provider C
  reset_connection_state p = dispatch (disconnected none) (forget_queries p)

  -- `switchDatabase` with the answer. An invalidation only marks the status for a later fetch.
  unfoldable pub finish_switch : Text → Answer → Provider C → Provider C
  finish_switch name (succeeded d) p =
      let resolved = or_text (get_selected_database d) (some name) in
      dispatch (switch_database resolved (some (schemas_of d)) (schema_of d))
        (record p { queries = invalidate_schema_tables resolved p.queries })
  finish_switch name (refused message) p =
      dispatch (set_error (or_value (or_text message none) (codes "Switch failed"))) p
  finish_switch name thrown p = dispatch (set_error (codes "Failed to switch database")) p

  -- `selectSchema` with the answer; the database and the schemas are those at its call. An answer with
  -- no data is an exception.
  unfoldable pub finish_select : Text → Option Text → List Text → Answer → Provider C → Provider C
  finish_select name database old (succeeded none) p =
      dispatch (set_error (codes "Failed to switch schema"))
        (record p { queries = invalidate_schema_tables database p.queries })
  finish_select name database old (succeeded (some d)) p =
      dispatch
        (select_schema (some (filled_or d.schemas old))
          (or_text d.current_schema (or_text d.schema (some name))))
        (record p { queries = invalidate_schema_tables database p.queries })
  finish_select name database old (refused message) p =
      dispatch (set_error (or_value (or_text message none) (codes "Schema switch failed"))) p
  finish_select name database old thrown p =
      dispatch (set_error (codes "Failed to switch schema")) p

  -- `refreshStatus` with the status it has fetched, and the check at sign-in, of which the library puts
  -- the status into the cache as well.
  unfoldable pub finish_refresh : ConnectionData → Provider C → Provider C
  finish_refresh d p =
      dispatch (sync_status d)
        (record p { queries = set_query_data db_status (status d) p.queries })
