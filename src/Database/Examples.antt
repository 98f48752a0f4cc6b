-- ===== src/Database/Examples.antt =====
-- Concrete connections.
use moonlit_ai_agent.Prelude.{
  ◌≡◌, refl, true, false, Option, none, some, List, [], ◌∷◌, Text, codes,
}
use moonlit_ai_agent.QueryCache.{Key, db_tables}
use moonlit_ai_agent.QueryCache.Lists.{list_client}
use moonlit_ai_agent.Database.{
  ConnectionData, initial_state, database_reducer, get_database_list, get_selected_database,
}
use moonlit_ai_agent.Database.Requests.{
  Provider, Cached, Answer, connect, disconnect, finish_switch, finish_select,
}
use moonlit_ai_agent.Database.Cached.{IsForgotten, operations-IsForgotten}

abbrev shop : ConnectionData
shop = record {
  connected = none;
  selected_database = none;
  current_database = none;
  database = some (codes "shop");
  config_database = none;
  config_schema = some (codes "public");
  db_type = some (codes "PostgreSQL");
  is_remote = some true;
  databases = some [];
  schemas = some (codes "public" ∷ codes "sales" ∷ []);
  current_schema = some [];
  schema = none;
}

-- A cache that holds the tables of the database, and something that is not a database's.
abbrev provider : Provider (List (Key × Cached))
provider = record {
  state = initial_state;
  queries =
      (db_tables (some (codes "shop")), Cached.fetched (codes "orders" ∷ []))
      ∷ (codes "conversations" ∷ [], Cached.fetched [])
      ∷ [];
}

list_of_shop : get_database_list shop ≡ codes "shop" ∷ []
unfolding get_database_list get_selected_database
list_of_shop = refl

operations-IsForgotten_example :
    IsForgotten list_client
      (connect list_client 5 shop provider).state.current_database
      (connect list_client 5 shop provider).queries
    × IsForgotten list_client
        (finish_switch list_client
          (codes "hr")
          (Answer.succeeded (some shop))
          provider).state.current_database
        (finish_switch list_client (codes "hr") (Answer.succeeded (some shop)) provider).queries
    × ((database : Option Text) (old : List Text)
        → IsForgotten list_client database
            (finish_select list_client
              (codes "hr")
              database
              old
              (Answer.succeeded (some shop))
              provider).queries
          × ((finish_select list_client
                (codes "hr")
                database
                old
                (Answer.succeeded (some shop))
                provider).state.current_database
              ≡ none))
operations-IsForgotten_example =
    operations-IsForgotten list_client 5 shop (codes "hr") (some shop) provider

-- An answer that comes after the disconnection still sets the database.
late_switch :
    let p =
      finish_switch list_client
        (codes "shop")
        (Answer.succeeded (some shop))
        (disconnect list_client true provider) in
    (p.state.is_connected ≡ false) × (p.state.current_database ≡ some (codes "shop"))
unfolding finish_switch disconnect database_reducer get_selected_database
late_switch = (refl, refl)
