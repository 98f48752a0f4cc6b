-- ===== src/Chat/Late.antt =====
-- A stream that is over can no longer change anything: its late flushes, its end and its failure find
-- that the session has another stream, or none.
use moonlit_ai_agent.Prelude.{
  ℕ, ◌+◌, ◌≡◌, refl, ap, ◌∙◌, Bool, true, false, not, ◌&&◌, Option, none, some, List, [], ◌∷◌, Text,
  filter, text_eq, text_eq_iff, lookup, ◌==◌, arith, Option-cases, Bool-cases, inl, inr,
}
use moonlit_ai_agent.Message.Upsert.{MessageData}
use moonlit_ai_agent.Session.{StreamStatus}
use moonlit_ai_agent.Timeline.{Stream}
use moonlit_ai_agent.Response.{Write, last_flush}
use moonlit_ai_agent.Registry.{get}
use moonlit_ai_agent.Registry.Generations.{
  HasReached, run-HasReached, stop-HasReached_next, finish-below,
}
use moonlit_ai_agent.Registry.Settled.{IsBalanced}
use moonlit_ai_agent.Store.{World, owns_stream, set_owner_messages, open_response}
use moonlit_ai_agent.Chat.{
  apply_write, apply_last, complete, close_response, settle_request, stop_session,
}
use moonlit_ai_agent.Chat.Failures.{fail_send, fail_resume, RequestError}
use moonlit_ai_agent.Chat.Actions.{
  Action, act, acts, sends, opens, flushes, closes, fails_send, fails_resume, settles,
  requests_resume, resumes, session_stops, all_stop, unmounts, selects, updates,
}
use moonlit_ai_agent.Chat.Calls.{act-keeps, registry-stop_session}

-- What a request does after its `await`s, by the session and the generation of its stream.
abbrev pub is_of : Text → ℕ → Action → Bool
is_of k n (opens j m _ _ _) = text_eq j k && (m == n)
is_of k n (flushes j m _ _) = text_eq j k && (m == n)
is_of k n (closes j m _ _ _) = text_eq j k && (m == n)
is_of k n (fails_send j m _ _ _) = text_eq j k && (m == n)
is_of k n (fails_resume j m _ _ _) = text_eq j k && (m == n)
is_of k n (settles j m) = text_eq j k && (m == n)
is_of k n _ = false

-- The session had the generation, and runs none up to it.
abbrev pub IsOver : Text → ℕ → World → Type 0
IsOver k n w = HasReached k n (n + 1) w.registry

owns_stream-over : (k : Text) (n : ℕ) (w : World) → IsOver k n w → owns_stream k n w ≡ false
unfolding owns_stream get
owns_stream-over k n w v = elim (Option-cases (lookup k w.registry.streams)) [
  | inl absent ↦ rw (absent, owns_stream)
  | inr (e, found) ↦ rw (found, owns_stream) (ground (arith, v.running e found))
]

module _ (k : Text) (n : ℕ) (w : World) (over : owns_stream k n w ≡ false) where
  apply_write-over : (id : Text) (write : Write) → apply_write k n id write w ≡ w
  unfolding apply_write set_owner_messages
  apply_write-over id write = rw over

  complete-over : (outcome : StreamStatus) → complete k n outcome w ≡ w
  complete-over outcome = rw over

  apply_last-over : (id : Text) (write : Option Write) → apply_last k n id write w ≡ w
  apply_last-over id none = refl
  apply_last-over id (some write) = apply_write-over id write

  close_response-over :
      (id : Text) (base : Option MessageData) (s : Stream) → close_response k n id base s w ≡ w
  unfolding close_response
  close_response-over id base s =
      rw (apply_last-over id (last_flush base s).1, apply_write-over id _) (complete-over _)

  open_response-over :
      (conversation header : Option Text) (prompt : Text)
      → open_response k n conversation header prompt w ≡ w
  unfolding open_response
  open_response-over conversation header prompt = rw over

  fail_send-over : (id : Text) (online : Bool) (e : RequestError) → fail_send k n id online e w ≡ w
  unfolding fail_send
  fail_send-over id online e = rw over

  fail_resume-over :
      (id : Text) (online : Bool) (e : RequestError) → fail_resume k n id online e w ≡ w
  unfolding fail_resume
  fail_resume-over id online e = rw over

is_of-eq :
    (k : Text) (n : ℕ) (j : Text) (m : ℕ) → (text_eq j k && (m == n)) ≡ true → (j ≡ k) × (m ≡ n)
is_of-eq k n j m h = ground (arith, text_eq_iff j k)

settle_request-over : (k : Text) (n : ℕ) (w : World) → IsOver k n w → settle_request k n w ≡ w
unfolding settle_request
settle_request-over k n w v =
    rw (finish-below k n w.registry (λ e held. omega (arith, v.running e held)))

-- The action of a stream that is over changes nothing.
act-over :
    (k : Text) (n : ℕ) (a : Action) (w : World) → IsOver k n w → is_of k n a ≡ true → act a w ≡ w
act-over k n (opens j m conversation header prompt) w v h =
    let (e, f) = is_of-eq k n j m h in
    rw (e, f) (open_response-over k n w (owns_stream-over k n w v) conversation header prompt)
act-over k n (flushes j m id write) w v h =
    let (e, f) = is_of-eq k n j m h in
    rw (e, f) (apply_write-over k n w (owns_stream-over k n w v) id write)
act-over k n (closes j m id base s) w v h =
    let (e, f) = is_of-eq k n j m h in
    rw (e, f) (close_response-over k n w (owns_stream-over k n w v) id base s)
act-over k n (fails_send j m id online err) w v h =
    let (e, f) = is_of-eq k n j m h in
    rw (e, f) (fail_send-over k n w (owns_stream-over k n w v) id online err)
act-over k n (fails_resume j m id online err) w v h =
    let (e, f) = is_of-eq k n j m h in
    rw (e, f) (fail_resume-over k n w (owns_stream-over k n w v) id online err)
act-over k n (settles j m) w v h =
    let (e, f) = is_of-eq k n j m h in rw (e, f) (settle_request-over k n w v)
act-over k n (sends _ _ _ _) w v h = cc
act-over k n (requests_resume _) w v h = cc
act-over k n (resumes _ _ _) w v h = cc
act-over k n (session_stops _) w v h = cc
act-over k n all_stop w v h = cc
act-over k n unmounts w v h = cc
act-over k n (selects _) w v h = cc
act-over k n (updates _ _) w v h = cc

act-IsOver : (k : Text) (n : ℕ) (a : Action) (w : World) → IsOver k n w → IsOver k n (act a w)
act-IsOver k n a w v =
    act-keeps (HasReached k n (n + 1)) (λ cs r h. run-HasReached cs k n (n + 1) h) a w v

abbrev pub others : Text → ℕ → List Action → List Action
others k n = filter (λ a. not (is_of k n a))

acts-over :
    (k : Text) (n : ℕ) (actions : List Action) (w : World)
    → IsOver k n w
    → acts actions w ≡ acts (others k n actions) w
acts-over k n [] w v = refl
acts-over k n (a ∷ later) w v = elim (Bool-cases (is_of k n a)) [
  | inl late ↦ rw late (ap (acts later) (act-over k n a w v late) ∙ acts-over k n later w v)
  | inr other ↦ rw other (acts-over k n later (act a w) (act-IsOver k n a w v))
]

stop_session-IsOver :
    (k : Text) (n : ℕ) (w : World)
    → IsBalanced w.registry
    → owns_stream k n w ≡ true
    → IsOver k n (stop_session k w).0
unfolding owns_stream get
stop_session-IsOver k n w v h =
    rw (registry-stop_session k w)
      (stop-HasReached_next k n w.registry (ground (arith, v.balance k n)))

-- In a store whose registry is balanced, as it is after any calls: once the user has stopped the
-- stream that a session runs, nothing of it arrives any more. Whatever happens later, in whatever
-- order, new streams of the session included, the store is what it would be had the stopped
-- stream's response, its flushes, its end, its failure and its `finally` never come.
pub stop_session-final :
    (k : Text) (n : ℕ) (actions : List Action) (w : World)
    → IsBalanced w.registry
    → owns_stream k n w ≡ true
    → acts actions (stop_session k w).0 ≡ acts (others k n actions) (stop_session k w).0
stop_session-final k n actions w v h =
    acts-over k n actions (stop_session k w).0 (stop_session-IsOver k n w v h)
