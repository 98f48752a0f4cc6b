-- ===== src/Database/Disconnected.antt =====
-- What is left of a connection that has ended, in front-end/src/contexts/DatabaseContext.jsx.
use moonlit_ai_agent.Prelude.{◌≡◌, refl, Bool, none, some, codes, if◌then◌else◌, arith}
use moonlit_ai_agent.QueryCache.{has_prefix, db_key, Key, QueryClient}
use moonlit_ai_agent.Database.{initial_state, database_reducer}
use moonlit_ai_agent.Database.Requests.{
  Provider, Cached, disconnect, reset_connection_state, forget_queries, invalidate_schema_tables,
}

module _ {C : Type 0} (client : QueryClient C Cached) where
  open client use {get_query_data, remove_queries, get-remove_queries}

  get-forget_queries :
      (k : Key) (p : Provider C)
      → get_query_data k (forget_queries client p).queries
        ≡ (if has_prefix db_key k then none else get_query_data k p.queries)
  unfolding invalidate_schema_tables
  get-forget_queries k p = ground (
    arith,
    get-remove_queries db_key k (remove_queries db_key p.queries),
    get-remove_queries db_key k p.queries,
  )

  -- A disconnection, whether the server has answered it or the request has failed, and a reset leave
  -- the initial state, but for the message on a failure. Of the query cache they drop every entry whose
  -- key begins with that of databases, and no other.
  pub disconnect-state :
      (ok : Bool) (k : Key) (p : Provider C)
      → ((disconnect client ok p).state ≡ record initial_state {
        error = if ok then none else some (codes "Failed to disconnect");
      })
        × ((reset_connection_state client p).state ≡ initial_state)
        × (get_query_data k (disconnect client ok p).queries
            ≡ (if has_prefix db_key k then none else get_query_data k p.queries))
        × (get_query_data k (reset_connection_state client p).queries
            ≡ (if has_prefix db_key k then none else get_query_data k p.queries))
  unfolding disconnect reset_connection_state database_reducer
  disconnect-state ok k p = (refl, refl, get-forget_queries k p, get-forget_queries k p)
