-- ===== src/Registry/Settled.antt =====
-- Every promise `finished` is resolved exactly once.
use moonlit_ai_agent.Prelude.{
  ℕ, ◌+◌, ◌≡◌, refl, Bool, true, false, ◌&&◌, Option, none, some, List, [], ◌∷◌, Text, Dict, lookup,
  HasDistinctKeys, lookup-insert, lookup-delete, insert-HasDistinctKeys, delete-HasDistinctKeys,
  text_eq, text_eq_iff, leb, ◌==◌, arith,
}
use moonlit_ai_agent.Registry.{
  Entry, Settlement, Registry, empty, last_generation, start, finish, stop, abort_each, stop_all,
  new_entry, settlement, annotate, Call, starts, finishes, stops, stops_all, annotates, apply, run,
}

abbrev one_if : Bool → ℕ
one_if true = 1
one_if false = 0

-- How often the log settles the stream of a session with a generation.
pub settled_count : Text → ℕ → List Settlement → ℕ
settled_count k n [] = 0
settled_count k n (s ∷ log) =
    one_if (text_eq s.session k && (s.generation == n)) + settled_count k n log

abbrev runs_as : ℕ → Option Entry → ℕ
runs_as n none = 0
runs_as n (some e) = one_if (e.generation == n)

-- 1 if the stream runs, else 0.
abbrev pub running_count : Text → ℕ → Registry → ℕ
running_count k n r = runs_as n (lookup k r.streams)

-- 1 if the generation has been started for the session, else 0.
abbrev pub started_count : Text → ℕ → Registry → ℕ
started_count k n r = one_if (leb 1 n && leb n (last_generation k r))

-- A stream that was started either runs, and its promise is pending, or its promise has been
-- settled, once; no other promise is settled, and no stream runs that was not started.
pub record IsBalanced (r : Registry) : Type 0 where
  pub distinct : HasDistinctKeys r.streams
  pub balance :
      (k : Text) (n : ℕ) → running_count k n r + settled_count k n r.settled ≡ started_count k n r

empty-IsBalanced : IsBalanced empty
unfolding lookup last_generation settled_count
empty-IsBalanced = record { distinct = tt; balance = λ k n. ground arith }

start-IsBalanced : (k : Text) {r : Registry} → IsBalanced r → IsBalanced (start k r).0
unfolding start last_generation
start-IsBalanced k {r} v =
    let e = new_entry (last_generation k r + 1) in
    record {
      distinct = ground (arith, insert-HasDistinctKeys k e r.streams, v.distinct);
      balance = λ j n. ground (
        arith,
        v.balance j n,
        lookup-insert k j e r.streams,
        lookup-insert k j e.generation r.generations,
        text_eq_iff k j,
      );
    }

finish-IsBalanced : (k : Text) (n : ℕ) {r : Registry} → IsBalanced r → IsBalanced (finish k n r).0
unfolding finish last_generation settled_count
finish-IsBalanced k n {r} v = record {
  distinct = ground (arith, delete-HasDistinctKeys k r.streams, v.distinct);
  balance = λ j m. ground (arith, v.balance j m, lookup-delete k j r.streams, text_eq_iff k j);
}

stop-IsBalanced : (k : Text) {r : Registry} → IsBalanced r → IsBalanced (stop k r).0
unfolding stop last_generation settled_count
stop-IsBalanced k {r} v = record {
  distinct = ground (arith, delete-HasDistinctKeys k r.streams, v.distinct);
  balance = λ j m. ground (arith, v.balance j m, lookup-delete k j r.streams, text_eq_iff k j);
}

-- `stopAll` settles each stream of the map.
settled_count-abort_each :
    (k : Text) (n : ℕ) (m : Dict Entry) (r : Registry)
    → HasDistinctKeys m
    → settled_count k n (abort_each m r).settled
      ≡ runs_as n (lookup k m) + settled_count k n r.settled
unfolding abort_each settled_count lookup
settled_count-abort_each k n [] r h = omega arith
settled_count-abort_each k n ((j, e) ∷ m) r h = ground (
  arith,
  text_eq_iff j k,
  settled_count-abort_each k n m
      (record r {
        aborted = (j, e.generation) ∷ r.aborted;
        settled = settlement j e.generation false ∷ r.settled;
      })
      h.1,
)

pub generations-abort_each :
    (m : Dict Entry) (r : Registry) → (abort_each m r).generations ≡ r.generations
unfolding abort_each
generations-abort_each [] r = refl
generations-abort_each ((k, e) ∷ m) r = generations-abort_each m _

stop_all-IsBalanced : {r : Registry} → IsBalanced r → IsBalanced (stop_all r)
unfolding stop_all last_generation
stop_all-IsBalanced {r} v = record {
  distinct = tt;
  balance = λ k n. rw (generations-abort_each r.streams r) (
      unfold lookup in
      omega (arith, settled_count-abort_each k n r.streams r v.distinct, v.balance k n));
}

annotate-IsBalanced :
    (k : Text) (n : ℕ) (id : Option Text) (queued : Bool) {r : Registry}
    → IsBalanced r
    → IsBalanced (annotate k n id queued r)
unfolding annotate last_generation
annotate-IsBalanced k n id queued {r} v =
    let e : Entry = record { generation = n; assistant_message_id = id; resume_queued = queued } in
    record {
      distinct = ground (arith, insert-HasDistinctKeys k e r.streams, v.distinct);
      balance =
          λ j m. ground (arith, v.balance j m, lookup-insert k j e r.streams, text_eq_iff k j);
    }

apply-IsBalanced : (c : Call) {r : Registry} → IsBalanced r → IsBalanced (apply c r)
apply-IsBalanced (starts k) v = start-IsBalanced k v
apply-IsBalanced (finishes k n) v = finish-IsBalanced k n v
apply-IsBalanced (stops k) v = stop-IsBalanced k v
apply-IsBalanced stops_all v = stop_all-IsBalanced v
apply-IsBalanced (annotates k n id queued) v = annotate-IsBalanced k n id queued v

run_from-IsBalanced : (cs : List Call) {r : Registry} → IsBalanced r → IsBalanced (run cs r)
run_from-IsBalanced [] v = v
run_from-IsBalanced (c ∷ cs) v = run_from-IsBalanced cs (apply-IsBalanced c v)

-- After any calls, the sessions of the map are distinct, and for every session and generation: it
-- was started exactly if either it runs, with its promise pending, or its promise has been settled,
-- exactly once.
pub run-IsBalanced : (cs : List Call) → IsBalanced (run cs empty)
run-IsBalanced cs = run_from-IsBalanced cs empty-IsBalanced
