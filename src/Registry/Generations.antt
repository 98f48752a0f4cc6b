-- ===== src/Registry/Generations.antt =====
-- Generations tell a session's streams apart: a call for an old one has no effect on a new one.
use moonlit_ai_agent.Prelude.{
  ℕ, ◌+◌, ◌≤◌, ◌<◌, ◌≡◌, Bool, false, Option, some, List, [], ◌∷◌, Text, lookup, lookup-insert,
  lookup-delete, text_eq_refl, Option-cases, inl, inr, text_eq_iff, arith,
}
use moonlit_ai_agent.Registry.{
  Entry, Registry, last_generation, start, finish, stop, stop_all, new_entry, annotate, Call,
  starts, finishes, stops, stops_all, annotates, apply, run,
}
use moonlit_ai_agent.Registry.Settled.{generations-abort_each}

-- The session has had the generation `n`, and runs none below `b`, which is `n` or the next one.
pub record HasReached (k : Text) (n b : ℕ) (r : Registry) : Type 0 where
  pub near : b ≤ n + 1
  pub last : n ≤ last_generation k r
  pub running : (e : Entry) → lookup k r.streams ≡ some e → b ≤ e.generation

start-HasReached :
    (j k : Text) (n b : ℕ) {r : Registry} → HasReached k n b r → HasReached k n b (start j r).0
unfolding start last_generation
start-HasReached j k n b {r} v =
    let new = new_entry (last_generation j r + 1) in
    record {
      near = v.near;
      last =
          ground (arith, v.last, lookup-insert j k new.generation r.generations, text_eq_iff j k);
      running = λ e h.
          ground
            (arith, v.near, v.last, v.running e, lookup-insert j k new r.streams, text_eq_iff j k);
    }

finish-HasReached :
    (j k : Text) (m n b : ℕ) {r : Registry} → HasReached k n b r → HasReached k n b (finish j m r).0
unfolding finish last_generation
finish-HasReached j k m n b {r} v = record {
  near = v.near;
  last = ground (arith, v.last);
  running = λ e h. ground (arith, v.running e, lookup-delete j k r.streams, text_eq_iff j k);
}

stop-HasReached :
    (j k : Text) (n b : ℕ) {r : Registry} → HasReached k n b r → HasReached k n b (stop j r).0
unfolding stop last_generation
stop-HasReached j k n b {r} v = record {
  near = v.near;
  last = ground (arith, v.last);
  running = λ e h. ground (arith, v.running e, lookup-delete j k r.streams, text_eq_iff j k);
}

stop_all-HasReached :
    (k : Text) (n b : ℕ) {r : Registry} → HasReached k n b r → HasReached k n b (stop_all r)
unfolding stop_all last_generation lookup
stop_all-HasReached k n b {r} v = record {
  near = v.near;
  last = rw (generations-abort_each r.streams r) v.last;
  running = λ e h. cc;
}

annotate-HasReached :
    (j k : Text) (m n b : ℕ) (id : Option Text) (queued : Bool) {r : Registry}
    → HasReached k n b r
    → HasReached k n b (annotate j m id queued r)
unfolding annotate last_generation
annotate-HasReached j k m n b id queued {r} v =
    let new : Entry = record {
      generation = m;
      assistant_message_id = id;
      resume_queued = queued;
    } in
    record {
      near = v.near;
      last = ground (arith, v.last);
      running = λ e h. elim (Option-cases (lookup j r.streams)) [
        | inl absent ↦ ground (arith, v.running e)
        | inr (old, found) ↦
            ground
              (arith, v.running e, v.running old, lookup-insert j k new r.streams, text_eq_iff j k)
      ];
    }

apply-HasReached :
    (c : Call) (k : Text) (n b : ℕ) {r : Registry}
    → HasReached k n b r
    → HasReached k n b (apply c r)
apply-HasReached (starts j) k n b v = start-HasReached j k n b v
apply-HasReached (finishes j m) k n b v = finish-HasReached j k m n b v
apply-HasReached (stops j) k n b v = stop-HasReached j k n b v
apply-HasReached stops_all k n b v = stop_all-HasReached k n b v
apply-HasReached (annotates j m id queued) k n b v = annotate-HasReached j k m n b id queued v

pub run-HasReached :
    (cs : List Call) (k : Text) (n b : ℕ) {r : Registry}
    → HasReached k n b r
    → HasReached k n b (run cs r)
run-HasReached [] k n b v = v
run-HasReached (c ∷ cs) k n b v = run-HasReached cs k n b (apply-HasReached c k n b v)

-- A stream that starts reaches its generation.
pub start-eq-some :
    (k : Text) (r r' : Registry) {e : Entry}
    → start k r ≡ (r', some e)
    → HasReached k e.generation e.generation r'
      × (lookup k r'.streams ≡ some e)
      × (e.generation ≡ last_generation k r + 1)
unfolding start last_generation
start-eq-some k r r' {e} h =
    let new = new_entry (last_generation k r + 1) in
    (
      record {
        near = omega arith;
        last = ground (arith, lookup-insert k k new.generation r.generations, text_eq_refl k);
        running = λ e' h'. ground (arith, lookup-insert k k new r.streams, text_eq_refl k);
      },
      ground (arith, lookup-insert k k new r.streams, text_eq_refl k),
      ground arith,
    )

-- Two starts of one session, whatever is called in between, give different generations: the later
-- one is greater.
pub start-run-start :
    (k : Text) (cs : List Call) (r r' r'' : Registry) {e e' : Entry}
    → start k r ≡ (r', some e)
    → start k (run cs r') ≡ (r'', some e')
    → e.generation < e'.generation
start-run-start k cs r r' r'' h h' =
    let reached = run-HasReached cs k _ _ (start-eq-some k r r' h).0 in
    omega (arith, reached.last, (start-eq-some k (run cs r') r'' h').2)

pub finish-below :
    (k : Text) (n : ℕ) (r : Registry)
    → ((e : Entry) → lookup k r.streams ≡ some e → n < e.generation)
    → finish k n r ≡ (r, false)
unfolding finish
finish-below k n r h = elim (Option-cases (lookup k r.streams)) [
  | inl absent ↦ ground arith
  | inr (e, found) ↦ ground (arith, h e)
]

-- A stopped session runs nothing, and the generations stay.
pub stop-HasReached_next :
    (k : Text) (n : ℕ) (r : Registry)
    → n ≤ last_generation k r
    → HasReached k n (n + 1) (stop k r).0
unfolding stop last_generation
stop-HasReached_next k n r h = record {
  near = omega arith;
  last = ground arith;
  running = λ e held. ground (arith, lookup-delete k k r.streams, text_eq_refl k);
}

-- Once a stream of the session has started, and whatever is called after that, `finish` for an
-- older generation returns false and changes nothing: a response that ends late cannot end the
-- stream that replaced it.
pub finish-stale :
    (k : Text) (n : ℕ) (cs : List Call) (r r' : Registry) {e : Entry}
    → start k r ≡ (r', some e)
    → n < e.generation
    → finish k n (run cs r') ≡ (run cs r', false)
finish-stale k n cs r r' h older =
    let reached = run-HasReached cs k _ _ (start-eq-some k r r' h).0 in
    finish-below k n _ (λ e' held. omega (arith, reached.running e' held))
