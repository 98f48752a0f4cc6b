-- ===== src/Registry.antt =====
-- front-end/src/hooks/chat-page/chatStreamRegistry.js: the streams that run, one to a session.
-- An entry object is named by its session and its generation. What happens to it after it has left
-- the map is kept in two logs, newest first: the calls of `settle`, that is how each promise
-- `finished` is resolved, and the calls of `controller.abort()`.
pub mod Settled
pub mod Generations
mod Examples
use moonlit_ai_agent.Prelude.{
  ℕ, ◌+◌, Bool, true, false, Option, none, some, List, [], ◌∷◌, ◌++◌, Text, Dict, lookup, insert,
  delete, length, ◌==◌, if◌then◌else◌,
}

-- The last two fields are set by the hook that holds the entry.
pub record Entry : Type 0 where
  pub generation : ℕ
  pub assistant_message_id : Option Text
  pub resume_queued : Bool

pub record Settlement : Type 0 where
  pub session : Text
  pub generation : ℕ
  pub value : Bool

pub record Registry : Type 0 where
  pub streams : Dict Entry
  pub generations : Dict ℕ
  pub settled : List Settlement
  pub aborted : List (Text × ℕ)

abbrev pub empty : Registry
empty = record { streams = []; generations = []; settled = []; aborted = [] }

abbrev pub get_or_zero : Option ℕ → ℕ
get_or_zero none = 0
get_or_zero (some n) = n

-- `generations.get(sessionKey) || 0`.
unfoldable pub last_generation : Text → Registry → ℕ
last_generation k r = get_or_zero (lookup k r.generations)

abbrev pub new_entry : ℕ → Entry
new_entry n = record { generation = n; assistant_message_id = none; resume_queued = false }

abbrev pub settlement : Text → ℕ → Bool → Settlement
settlement k n b = record { session = k; generation = n; value = b }

abbrev run_new : Text → ℕ → Registry → Registry
run_new k n r = record r {
  generations = insert k n r.generations;
  streams = insert k (new_entry n) r.streams;
}

-- `null` if the session has a stream.
unfoldable pub start : Text → Registry → Registry × Option Entry
unfolding last_generation
start k r = elim (lookup k r.streams) [
  | some e ↦ (r, none)
  | none ↦ let n = last_generation k r + 1 in (run_new k n r, some (new_entry n))
]

unfoldable pub get : Text → Registry → Option Entry
get k r = lookup k r.streams

unfoldable pub is_active : Text → Registry → Bool
is_active k r = elim (lookup k r.streams) [ none ↦ false | some e ↦ true ]

unfoldable pub finish : Text → ℕ → Registry → Registry × Bool
finish k n r = elim (lookup k r.streams) [
  | none ↦ (r, false)
  | some e ↦
      if e.generation == n
      then (
        record r {
          streams = delete k r.streams;
          settled = settlement k e.generation true ∷ r.settled;
        },
        true,
      )
      else (r, false)
]

unfoldable pub stop : Text → Registry → Registry × Bool
stop k r = elim (lookup k r.streams) [
  | none ↦ (r, false)
  | some e ↦ (
    record r {
      streams = delete k r.streams;
      aborted = (k, e.generation) ∷ r.aborted;
      settled = settlement k e.generation false ∷ r.settled;
    },
    true,
  )
]

-- The loop of `stopAll`; its callback is run by the caller's model, on the same entries in the same
-- order.
unfoldable pub abort_each : Dict Entry → Registry → Registry
abort_each [] r = r
abort_each ((k, e) ∷ m) r = abort_each m (record r {
  aborted = (k, e.generation) ∷ r.aborted;
  settled = settlement k e.generation false ∷ r.settled;
})

unfoldable pub stop_all : Registry → Registry
unfolding abort_each
stop_all r = let aborted = abort_each r.streams r in record aborted { streams = [] }

unfoldable pub size : Registry → ℕ
size r = length r.streams

-- What a holder of the entry writes into it: nothing that the map shows, if the entry has left it.
unfoldable pub annotate : Text → ℕ → Option Text → Bool → Registry → Registry
annotate k n id queued r = elim (lookup k r.streams) [
  | none ↦ r
  | some e ↦
      if e.generation == n
      then record r {
        streams =
            insert k
              (record {
                generation = e.generation;
                assistant_message_id = id;
                resume_queued = queued;
              })
              r.streams;
      }
      else r
]

-- The calls that change a registry.
pub data Call : Type 0 where
  starts : Text → Call
  finishes : Text → ℕ → Call
  stops : Text → Call
  stops_all : Call
  annotates : Text → ℕ → Option Text → Bool → Call

abbrev pub apply : Call → Registry → Registry
apply (starts k) r = (start k r).0
apply (finishes k n) r = (finish k n r).0
apply (stops k) r = (stop k r).0
apply stops_all r = stop_all r
apply (annotates k n id queued) r = annotate k n id queued r

abbrev pub run : List Call → Registry → Registry
run [] r = r
run (c ∷ cs) r = run cs (apply c r)
