-- ===== src/Outputs/Examples.antt =====
-- A message with a query and its result.
use moonlit_ai_agent.Prelude.{
  none, some, List, [], ◌∷◌, ◌≡◌, refl, text_eq, codes, decimal, trim, insert,
}
use moonlit_ai_agent.Prelude.Json.{Value, null, num, str, arr, obj, nil, cons, end, member, to_text}
use moonlit_ai_agent.Message.{Message, assistant, stopped, Item, tool, done}
use moonlit_ai_agent.Outputs.{
  ExecutionMeta, query, query_result, collect_conversation_outputs, normalize_execution_result,
}
use moonlit_ai_agent.Outputs.Fences.{fences, scan, match_fence}
use moonlit_ai_agent.Outputs.Found.{Block, written, fences_from, fences-written}

abbrev blocks : List Block
blocks =
    record { before = codes "First:\n"; query = codes "SELECT 1\n" }
    ∷ record { before = codes "\nThen:\n"; query = codes "SELECT 2\n" }
    ∷ []

fences-written_example : fences (written blocks (codes "\nDone.")) ≡ fences_from 0 blocks
fences-written_example = fences-written blocks (codes "\nDone.") refl refl

abbrev step : Item
step = tool none (codes "execute_query") done (obj end) (
    obj (
      member (codes "execution_id") (str (codes "e"))
        (member (codes "execution_time_ms") (num 1500) end)))

abbrev message : Message
message = record {
  id = codes "m";
  role = assistant;
  text = written blocks [];
  steps = step ∷ [];
  timeline = [];
  status = stopped;
  usage = none;
}

abbrev meta : ExecutionMeta
meta = record { execution_id = str (codes "e"); conversation_id = str (codes "c") }

collected :
    collect_conversation_outputs (message ∷ []) (str (codes "c"))
    ≡ (codes "m:7", query (codes "SELECT 1"))
      ∷ (codes "m:33", query (codes "SELECT 2"))
      ∷ (codes "execution:c:e", query_result meta (str []) (some 1500))
      ∷ []
unfolding collect_conversation_outputs scan match_fence insert text_eq decimal trim to_text
collected = refl

abbrev row : Value
row = obj (member (codes "a") (num 1) (member (codes "b") null end))

rows :
    (normalize_execution_result (obj (member (codes "data") (arr (cons row nil)) end))).rows
    ≡ cons (num 1) (cons null nil) ∷ []
unfolding normalize_execution_result text_eq to_text
rows = refl
