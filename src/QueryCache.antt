-- ===== src/QueryCache.antt =====
-- front-end/src/api/queryClient.js: the keys of the query cache. The cache itself is the library's, and
-- a parameter with the laws that its documentation gives of it.
pub mod Lists
use moonlit_ai_agent.Prelude.{
  ◌≡◌, refl, Bool, true, false, not, ◌&&◌, Option, none, some, List, [], ◌∷◌, Text, text_eq,
  text_eq_iff, codes, filter, if◌then◌else◌, ◌↔◌, arith,
}

abbrev pub Key : Type 0
Key = List Text

unfoldable pub key_eq : Key → Key → Bool
key_eq [] [] = true
key_eq (s ∷ k) (t ∷ l) = text_eq s t && key_eq k l
key_eq _ _ = false

pub key_eq_iff : (k l : Key) → (key_eq k l ≡ true) ↔ (k ≡ l)
unfolding key_eq
key_eq_iff [] [] = ground arith
key_eq_iff [] (t ∷ l) = ground arith
key_eq_iff (s ∷ k) [] = ground arith
key_eq_iff (s ∷ k) (t ∷ l) = ground (arith, key_eq_iff k l, text_eq_iff s t)

-- Whether the key begins with the first one.
unfoldable pub has_prefix : Key → Key → Bool
has_prefix [] k = true
has_prefix (s ∷ p) [] = false
has_prefix (s ∷ p) (t ∷ k) = text_eq s t && has_prefix p k

-- The library's client: what it holds under a key after an entry is set, and after the removal of the
-- entries whose keys begin with the given one.
pub record QueryClient (C V : Type 0) : Type 0 where
  pub get_query_data : Key → C → Option V
  pub set_query_data : Key → V → C → C
  pub remove_queries : Key → C → C
  pub get-set_query_data :
      (k j : Key) (v : V) (c : C)
      → get_query_data j (set_query_data k v c)
        ≡ (if key_eq k j then some v else get_query_data j c)
  pub get-remove_queries :
      (p j : Key) (c : C)
      → get_query_data j (remove_queries p c)
        ≡ (if has_prefix p j then none else get_query_data j c)

abbrev pub db_key : Key
db_key = codes "db" ∷ []

abbrev pub db_status : Key
db_status = codes "db" ∷ codes "status" ∷ []

abbrev pub db_databases : Key
db_databases = codes "db" ∷ codes "databases" ∷ []

-- `database || '__current__'`.
abbrev or_current : Option Text → Text
or_current none = codes "__current__"
or_current (some []) = codes "__current__"
or_current (some (c ∷ s)) = c ∷ s

unfoldable pub db_schemas : Option Text → Key
db_schemas database = codes "db" ∷ codes "schemas" ∷ or_current database ∷ []

unfoldable pub db_tables : Option Text → Key
db_tables database = codes "db" ∷ codes "tables" ∷ or_current database ∷ []

unfoldable pub db_table_schema : Option Text → Text → Key
db_table_schema database table = codes "db" ∷ codes "tableSchema" ∷ or_current database ∷ table ∷ []
