-- ===== src/Executions.antt =====
-- front-end/src/api/conversations.js: the reading of the results of executions. At most four reads run
-- at a time, the others wait in a queue, and what has been asked for is kept in a map. A read has a
-- number, in the order of the calls; `running` and `started` record the reads that have been begun.
pub mod Steps
pub mod Scheduled
pub mod Cached
pub mod Waiting
mod Examples
use moonlit_ai_agent.Prelude.{
  ℕ, suc, ◌+◌, ◌-◌, Bool, true, false, not, Option, none, some, List, [], ◌∷◌, ◌++◌, Text, codes,
  length, find, ltb, leb, ◌==◌, Dict, lookup, insert, delete, if◌then◌else◌,
}

pub record Read : Type 0 where
  pub id : ℕ
  pub key : Text

pub record Executions : Type 0 where
  pub active : ℕ
  pub queue : List Read
  pub running : List Read
  pub started : List ℕ
  pub requests : Dict ℕ
  pub issued : ℕ

abbrev pub no_executions : Executions
no_executions = record {
  active = 0;
  queue = [];
  running = [];
  started = [];
  requests = [];
  issued = 0;
}

abbrev pub max_concurrent : ℕ
max_concurrent = 4

abbrev pub max_cached : ℕ
max_cached = 200

-- `drainExecutionResultQueue`, on the queue that is left.
unfoldable pub drain : List Read → ℕ → List Read → List ℕ → Executions → Executions
drain [] active running started s = record s {
  active = active;
  queue = [];
  running = running;
  started = started;
}
drain (r ∷ rs) active running started s =
    let next = drain rs (active + 1) (running ++ r ∷ []) (started ++ r.id ∷ []) s in
    if ltb active max_concurrent
    then next
    else record s { active = active; queue = r ∷ rs; running = running; started = started }

unfoldable pub schedule : Read → Executions → Executions
schedule r s = drain (s.queue ++ r ∷ []) s.active s.running s.started s

abbrev pub cache_key : Text → Text → Text
cache_key conversation_id execution_id = conversation_id ++ (58 ∷ execution_id)

-- `requests.delete(requests.keys().next().value)`.
abbrev pub drop_oldest : Dict ℕ → Dict ℕ
drop_oldest [] = []
drop_oldest ((k, n) ∷ m) = delete k ((k, n) ∷ m)

abbrev pub make_room : Dict ℕ → Dict ℕ
make_room m = if leb max_cached (length m) then drop_oldest m else m

abbrev pub new_read : Text → Executions → Read
new_read key s = record { id = s.issued; key = key }

-- Room is made and the read is queued before it is kept under its key.
abbrev pub issue : Text → Executions → Executions
issue key s =
    let t =
      schedule (new_read key s)
        (record s { requests = make_room s.requests; issued = suc s.issued }) in
    record t { requests = insert key s.issued t.requests }

-- `getExecutionResult`, with the number of the read whose promise it returns.
unfoldable pub get_execution_result : Text → Text → Executions → Executions × ℕ
get_execution_result conversation_id execution_id s =
    let key = cache_key conversation_id execution_id in
    elim (lookup key s.requests) [ some n ↦ (s, n) | none ↦ (issue key s, s.issued) ]

-- The read with the number runs no longer.
unfoldable pub remove_read : ℕ → List Read → List Read
remove_read n [] = []
remove_read n (r ∷ rs) = if r.id == n then rs else r ∷ remove_read n rs

abbrev pub forget : Bool → Text → Dict ℕ → Dict ℕ
forget ok key m = if ok then m else delete key m

-- The end of a read, good or bad. What is not running does not end.
unfoldable pub settle : ℕ → Bool → Executions → Executions
settle n ok s = elim (find (λ (r : Read). r.id == n) s.running) [
  | none ↦ s
  | some r ↦
      drain s.queue (s.active - 1) (remove_read n s.running) s.started
        (record s { requests = forget ok r.key s.requests })
]
