-- ===== src/QueryCache/Lists.antt =====
-- A query cache that is a list of entries, which has the laws of the library's.
use moonlit_ai_agent.Prelude.{◌≡◌, refl, Option, none, some, List, [], ◌∷◌, if◌then◌else◌, arith}
use moonlit_ai_agent.QueryCache.{Key, key_eq, key_eq_iff, has_prefix, QueryClient}

module _ {V : Type 0} where
  abbrev pub get_query_data : Key → List (Key × V) → Option V
  get_query_data k [] = none
  get_query_data k ((j, v) ∷ c) = if key_eq j k then some v else get_query_data k c

  abbrev pub set_query_data : Key → V → List (Key × V) → List (Key × V)
  set_query_data k v [] = (k, v) ∷ []
  set_query_data k v ((j, w) ∷ c) = if key_eq j k then (j, v) ∷ c else (j, w) ∷ set_query_data k v c

  abbrev pub remove_queries : Key → List (Key × V) → List (Key × V)
  remove_queries p [] = []
  remove_queries p ((j, w) ∷ c) =
      if has_prefix p j then remove_queries p c else (j, w) ∷ remove_queries p c

  pub get-set_query_data :
      (k j : Key) (v : V) (c : List (Key × V))
      → get_query_data j (set_query_data k v c)
        ≡ (if key_eq k j then some v else get_query_data j c)
  get-set_query_data k j v [] = refl
  get-set_query_data k j v ((i, w) ∷ c) =
      ground (arith, key_eq_iff k j, key_eq_iff i k, key_eq_iff i j, get-set_query_data k j v c)

  pub get-remove_queries :
      (p j : Key) (c : List (Key × V))
      → get_query_data j (remove_queries p c)
        ≡ (if has_prefix p j then none else get_query_data j c)
  get-remove_queries p j [] = ground arith
  get-remove_queries p j ((i, w) ∷ c) = ground (arith, key_eq_iff i j, get-remove_queries p j c)

abbrev pub list_client : {V : Type 0} → QueryClient (List (Key × V)) V
list_client = record {
  get_query_data = get_query_data;
  set_query_data = set_query_data;
  remove_queries = remove_queries;
  get-set_query_data = get-set_query_data;
  get-remove_queries = get-remove_queries;
}
