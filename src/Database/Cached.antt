-- ===== src/Database/Cached.antt =====
-- What the query cache holds after the operations of front-end/src/contexts/DatabaseContext.jsx.
use moonlit_ai_agent.Prelude.{
  ℕ, ◌≡◌, ◌∙◌, refl, true, Option, none, some, List, [], ◌∷◌, Text, text_eq, text_eq_refl, arith,
}
use moonlit_ai_agent.QueryCache.{
  Key, QueryClient, has_prefix, key_eq, db_key, db_status, db_databases, db_schemas, db_tables,
  db_table_schema,
}
use moonlit_ai_agent.Database.{
  ConnectionData, or_option, database_reducer, sync_status, get_selected_database,
}
use moonlit_ai_agent.Database.Requests.{
  Provider, Cached, Answer, connect, connected_status, invalidate_schema_tables, finish_switch,
  finish_select,
}

or_option-none : (o : Option Text) → or_option o none ≡ o
or_option-none none = refl
or_option-none (some t) = refl

module _ {C : Type 0} (client : QueryClient C Cached) where
  open client use {get_query_data, remove_queries, get-set_query_data, get-remove_queries}

  -- A removal leaves no entry under a key that begins with its own, and brings none back.
  remove_queries-none-prefix :
      (p k : Key) (c : C) → has_prefix p k ≡ true → get_query_data k (remove_queries p c) ≡ none
  remove_queries-none-prefix p k c h = ground (arith, get-remove_queries p k c)

  remove_queries-none :
      (p k : Key) (c : C) → get_query_data k c ≡ none → get_query_data k (remove_queries p c) ≡ none
  remove_queries-none p k c h = ground (arith, get-remove_queries p k c)

  -- Right after a connection the cache holds its status, and a state that is brought in line with that
  -- status, as the next refresh from the cache does it, is the state that the connection has left.
  pub connect-Cached :
      (now : ℕ) (d : ConnectionData) (p : Provider C)
      → (get_query_data db_status (connect client now d p).queries
          ≡ some (Cached.status (connected_status d)))
        × (database_reducer (connect client now d p).state (sync_status (connected_status d))
            ≡ (connect client now d p).state)
  unfolding connect database_reducer key_eq text_eq
  connect-Cached now d p = (
    get-set_query_data db_databases db_status _ _ ∙ get-set_query_data db_status db_status _ _,
    rw (or_option-none (get_selected_database (some d))),
  )

  -- Nothing is cached of the schemas, of the tables or of a table's columns of the database.
  pub IsForgotten : Option Text → C → Type 0
  IsForgotten database qs =
      (get_query_data (db_schemas database) qs ≡ none)
      × (get_query_data (db_tables database) qs ≡ none)
      × ((table : Text) → get_query_data (db_table_schema database table) qs ≡ none)

  invalidate_schema_tables-IsForgotten :
      (database : Option Text) (qs : C)
      → IsForgotten database (invalidate_schema_tables client database qs)
  unfolding IsForgotten invalidate_schema_tables has_prefix text_eq db_schemas db_tables
      db_table_schema
  invalidate_schema_tables-IsForgotten none qs = (
    remove_queries-none-prefix db_key _ qs refl,
    remove_queries-none-prefix db_key _ qs refl,
    λ t. remove_queries-none-prefix db_key _ qs refl,
  )
  invalidate_schema_tables-IsForgotten (some []) qs = (
    remove_queries-none-prefix db_key _ qs refl,
    remove_queries-none-prefix db_key _ qs refl,
    λ t. remove_queries-none-prefix db_key _ qs refl,
  )
  invalidate_schema_tables-IsForgotten (some (c ∷ s)) qs = (
    remove_queries-none _ _ _ (
        remove_queries-none _ _ _
          (remove_queries-none-prefix _ _ qs (ground (arith, text_eq_refl s)))),
    remove_queries-none _ _ _ (remove_queries-none-prefix _ _ _ (ground (arith, text_eq_refl s))),
    λ t. remove_queries-none-prefix _ _ _ (ground (arith, text_eq_refl s)),
  )

  -- The status and the list of databases stand under other keys.
  connect-IsForgotten :
      (now : ℕ) (d : ConnectionData) (p : Provider C)
      → IsForgotten (connect client now d p).state.current_database (connect client now d p).queries
  unfolding connect IsForgotten key_eq text_eq db_schemas db_tables db_table_schema database_reducer
  connect-IsForgotten now d p =
      let database = get_selected_database (some d) in
      let h = invalidate_schema_tables-IsForgotten database p.queries in
      (
        get-set_query_data db_databases (db_schemas database) _ _
            ∙ (get-set_query_data db_status (db_schemas database) _ _ ∙ h.0),
        get-set_query_data db_databases (db_tables database) _ _
            ∙ (get-set_query_data db_status (db_tables database) _ _ ∙ h.1),
        λ t.
            get-set_query_data db_databases (db_table_schema database t) _ _
            ∙ (get-set_query_data db_status (db_table_schema database t) _ _ ∙ h.2 t),
      )

  -- After a connection, and after a switch of the database that the server confirms, nothing is cached
  -- of the schemas, of the tables or of any table's columns of the database that is then current. After
  -- a confirmed switch of the schema the same holds of the database that was current at its call, with
  -- or without data in the answer, and the switch leaves the current database as it is.
  pub operations-IsForgotten :
      (now : ℕ) (d : ConnectionData) (name : Text) (answer : Option ConnectionData) (p : Provider C)
      → IsForgotten (connect client now d p).state.current_database (connect client now d p).queries
        × IsForgotten
            (finish_switch client name (Answer.succeeded answer) p).state.current_database
            (finish_switch client name (Answer.succeeded answer) p).queries
        × ((database : Option Text) (old : List Text)
            → IsForgotten database
                (finish_select client name database old (Answer.succeeded answer) p).queries
              × ((finish_select client name database old
                    (Answer.succeeded answer)
                    p).state.current_database
                  ≡ p.state.current_database))
  unfolding finish_switch finish_select database_reducer
  operations-IsForgotten now d name none p = (
    connect-IsForgotten now d p,
    invalidate_schema_tables-IsForgotten _ p.queries,
    λ database old. (invalidate_schema_tables-IsForgotten database p.queries, refl),
  )
  operations-IsForgotten now d name (some e) p = (
    connect-IsForgotten now d p,
    invalidate_schema_tables-IsForgotten _ p.queries,
    λ database old. (invalidate_schema_tables-IsForgotten database p.queries, refl),
  )
