-- ===== src/ToolResults/Examples.antt =====
-- The result of a query, which is short.
use moonlit_ai_agent.Prelude.{◌≡◌, refl, true, codes}
use moonlit_ai_agent.Prelude.Json.{Value, bool, num, str, arr, obj, nil, cons, end, member}
use moonlit_ai_agent.ToolResults.{bound_value}

abbrev result : Value
result = obj (
    member (codes "rows") (arr (cons (num 1) (cons (str (codes "Ada")) nil)))
      (member (codes "success") (bool true) end))

result_whole : (bound_value 0 result).0 ≡ result
unfolding bound_value
result_whole = refl
