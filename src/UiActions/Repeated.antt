-- ===== src/UiActions/Repeated.antt =====
-- front-end/src/hooks/chat-page/useUiActionDispatcher.js: an action that comes twice.
use moonlit_ai_agent.Prelude.{
  ℕ, Bool, ◌+◌, ◌≤◌, ◌<◌, true, false, Option, none, some, List, [], ◌∷◌, Text, text_eq_iff,
  text_eq_refl, lookup, lookup-insert, ◌≡◌, refl, ap, sym, ◌∙◌, arith,
}
use moonlit_ai_agent.Prelude.Json.{Value}
use moonlit_ai_agent.UiActions.{
  Handlers, Event, Dispatcher, has_registered_handler, normalize_payload, get_event_key,
  is_repeated, dedupe_window, handle, run_known, dispatch, run_unless_recent, report_status, Act,
  dispatches, waits, wait, acts,
}
use moonlit_ai_agent.UiActions.Validate.{Validation, accepted, rejected, validate}
use moonlit_ai_agent.UiActions.Queued.{dispatch-eq-handle, handle-kept}

module _ {P : Type 0} (stringify : Value → Text) (clock : ℕ → ℕ) where
  handle-ticks :
      (h : Handlers P) (e : Event) (s : Dispatcher P)
      → s.ticks ≤ (handle stringify clock h e s).ticks
  unfolding handle run_unless_recent
  handle-ticks h e s = ground arith

  run-seen :
      (key : Text) (t : ℕ) (h : Handlers P) (f : Value → P → P × Bool) (a : Text) (v : Value)
      (s : Dispatcher P)
      → 0 < t
      → clock s.ticks < t + dedupe_window
      → lookup key s.seen ≡ some t
      → lookup key (run_unless_recent stringify clock h f a v s).seen ≡ some t
  unfolding run_unless_recent
  run-seen key t h f a v s pos early k = ground (
    arith,
    lookup-insert (get_event_key stringify a v) key (clock s.ticks) s.seen,
    text_eq_iff (get_event_key stringify a v) key,
  )

  known-seen :
      (key : Text) (t : ℕ) (h : Handlers P) (v : Option Validation)
      (f : Option (Value → P → P × Bool)) (a : Text) (p : Value) (s : Dispatcher P)
      → 0 < t
      → clock s.ticks < t + dedupe_window
      → lookup key s.seen ≡ some t
      → lookup key (run_known stringify clock h v f a p s).seen ≡ some t
  known-seen key t h none f a p s pos early k = k
  known-seen key t h (some v) none a p s pos early k = k
  known-seen key t h (some (rejected reason)) (some f) a p s pos early k = k
  known-seen key t h (some (accepted w)) (some f) a p s pos early k =
      run-seen key t h f a w s pos early k

  -- What the acts come to when nothing waits.
  abbrev handle_acts : Handlers P → List Act → Dispatcher P → Dispatcher P
  handle_acts h [] s = s
  handle_acts h (dispatches e ∷ xs) s = handle_acts h xs (handle stringify clock h e s)
  handle_acts h (waits n ∷ xs) s = handle_acts h xs (wait n s)

  acts-eq-handle_acts :
      (h : Handlers P) (xs : List Act) (s : Dispatcher P)
      → has_registered_handler (some h) ≡ true
      → s.handlers ≡ some h
      → s.pending ≡ []
      → acts stringify clock xs s ≡ handle_acts h xs s
  acts-eq-handle_acts h [] s r k p = refl
  acts-eq-handle_acts h (dispatches e ∷ xs) s r k p =
      let kept = handle-kept stringify clock h e s in
      rw (dispatch-eq-handle stringify clock h e s r k p)
        (acts-eq-handle_acts h xs (handle stringify clock h e s) r (kept.0 ∙ k) (kept.1 ∙ p))
  acts-eq-handle_acts h (waits n ∷ xs) s r k p = acts-eq-handle_acts h xs (wait n s) r k p

  handle_acts-kept :
      (h : Handlers P) (xs : List Act) (s : Dispatcher P)
      → ((handle_acts h xs s).handlers ≡ s.handlers) × ((handle_acts h xs s).pending ≡ s.pending)
  handle_acts-kept h [] s = (refl, refl)
  handle_acts-kept h (dispatches e ∷ xs) s = ground (
    arith,
    handle-kept stringify clock h e s,
    handle_acts-kept h xs (handle stringify clock h e s),
  )
  handle_acts-kept h (waits n ∷ xs) s = handle_acts-kept h xs (wait n s)

  handle_acts-ticks :
      (h : Handlers P) (xs : List Act) (s : Dispatcher P) → s.ticks ≤ (handle_acts h xs s).ticks
  handle_acts-ticks h [] s = omega arith
  handle_acts-ticks h (dispatches e ∷ xs) s =
      omega (arith, handle-ticks h e s, handle_acts-ticks h xs (handle stringify clock h e s))
  handle_acts-ticks h (waits n ∷ xs) s = omega (arith, handle_acts-ticks h xs (wait n s))

  handle_acts-seen :
      (key : Text) (t : ℕ) (h : Handlers P) (xs : List Act) (s : Dispatcher P)
      → ((n m : ℕ) → n ≤ m → clock n ≤ clock m)
      → 0 < t
      → clock (handle_acts h xs s).ticks < t + dedupe_window
      → lookup key s.seen ≡ some t
      → lookup key (handle_acts h xs s).seen ≡ some t
  unfolding handle
  handle_acts-seen key t h [] s mono pos early k = k
  handle_acts-seen key t h (dispatches e ∷ xs) s mono pos early k =
      let next = handle stringify clock h e s in
      let first = mono s.ticks next.ticks (handle-ticks h e s) in
      let rest = mono next.ticks (handle_acts h xs next).ticks (handle_acts-ticks h xs next) in
      handle_acts-seen key t h xs next mono pos early (
        known-seen key t h (validate e.action (normalize_payload e.payload)) (h.handler e.action)
          e.action (normalize_payload e.payload) s pos (omega (arith, first, rest)) k)
  handle_acts-seen key t h (waits n ∷ xs) s mono pos early k =
      handle_acts-seen key t h xs (wait n s) mono pos early k

  handle-accepted :
      (h : Handlers P) (f : Value → P → P × Bool) (e : Event) (w : Value) (s : Dispatcher P)
      → h.handler e.action ≡ some f
      → validate e.action (normalize_payload e.payload) ≡ some (accepted w)
      → handle stringify clock h e s ≡ run_unless_recent stringify clock h f e.action w s
  unfolding handle
  handle-accepted h f e w s hf valid = rw (hf, valid)

  run-first :
      (h : Handlers P) (f : Value → P → P × Bool) (a : Text) (w : Value) (s : Dispatcher P)
      → is_repeated (lookup (get_event_key stringify a w) s.seen) (clock s.ticks) ≡ false
      → ((run_unless_recent stringify clock h f a w s).page
          ≡ report_status h.on_action_telemetry a w (f w s.page))
        × (lookup (get_event_key stringify a w) (run_unless_recent stringify clock h f a w s).seen
            ≡ some (clock s.ticks))
  unfolding run_unless_recent
  run-first h f a w s fresh =
      let key = get_event_key stringify a w in
      rw fresh (refl, lookup-insert key key (clock s.ticks) s.seen ∙ rw (text_eq_refl key))

  run-again :
      (h : Handlers P) (f : Value → P → P × Bool) (a : Text) (w : Value) (s : Dispatcher P) (t : ℕ)
      → lookup (get_event_key stringify a w) s.seen ≡ some t
      → 0 < t
      → clock s.ticks < t + dedupe_window
      → (run_unless_recent stringify clock h f a w s).page ≡ s.page
  unfolding run_unless_recent
  run-again h f a w s t k pos early = ground arith

  handle-again :
      (h : Handlers P) (f : Value → P → P × Bool) (e : Event) (w : Value) (xs : List Act)
      (s : Dispatcher P)
      → ((n m : ℕ) → n ≤ m → clock n ≤ clock m)
      → h.handler e.action ≡ some f
      → validate e.action (normalize_payload e.payload) ≡ some (accepted w)
      → 0 < clock s.ticks
      → is_repeated (lookup (get_event_key stringify e.action w) s.seen) (clock s.ticks) ≡ false
      → clock (handle_acts h (dispatches e ∷ xs) s).ticks < clock s.ticks + dedupe_window
      → ((handle stringify clock h e s).page
          ≡ report_status h.on_action_telemetry e.action w (f w s.page))
        × ((handle stringify clock h e (handle_acts h (dispatches e ∷ xs) s)).page
            ≡ (handle_acts h (dispatches e ∷ xs) s).page)
  handle-again h f e w xs s mono hf valid pos fresh early =
      let key = get_event_key stringify e.action w in
      let run = handle-accepted h f e w s hf valid in
      let first = run-first h f e.action w s fresh in
      let later = handle_acts h (dispatches e ∷ xs) s in
      let seen =
        handle_acts-seen key (clock s.ticks) h xs (handle stringify clock h e s) mono pos early
          (ap (λ r. lookup key r.seen) run ∙ first.1) in
      (
        ap (λ r. r.page) run ∙ first.0,
        ap (λ r. r.page) (handle-accepted h f e w later hf valid)
            ∙ run-again h f e.action w later (clock s.ticks) seen pos early,
      )

  -- An action with a handler and a payload that it takes, of which none like it was handled in the last
  -- 1.5 seconds, is handled once; and when it comes again less than 1.5 seconds later it does nothing to
  -- the page, whatever came between them at whatever times. This is so if the handlers are registered, nothing waits,
  -- and the clock has begun and never goes back.
  pub dispatch-again :
      (h : Handlers P) (f : Value → P → P × Bool) (e : Event) (w : Value) (xs : List Act)
      (s : Dispatcher P)
      → ((n m : ℕ) → n ≤ m → clock n ≤ clock m)
      → has_registered_handler (some h) ≡ true
      → s.handlers ≡ some h
      → s.pending ≡ []
      → h.handler e.action ≡ some f
      → validate e.action (normalize_payload e.payload) ≡ some (accepted w)
      → 0 < clock s.ticks
      → is_repeated (lookup (get_event_key stringify e.action w) s.seen) (clock s.ticks) ≡ false
      → clock (acts stringify clock (dispatches e ∷ xs) s).ticks < clock s.ticks + dedupe_window
      → ((dispatch stringify clock e s).page
          ≡ report_status h.on_action_telemetry e.action w (f w s.page))
        × ((dispatch stringify clock e (acts stringify clock (dispatches e ∷ xs) s)).page
            ≡ (acts stringify clock (dispatches e ∷ xs) s).page)
  dispatch-again h f e w xs s mono ready k p hf valid pos fresh early =
      let whole = acts-eq-handle_acts h (dispatches e ∷ xs) s ready k p in
      let kept = handle_acts-kept h (dispatches e ∷ xs) s in
      let again =
        dispatch-eq-handle stringify clock h e (handle_acts h (dispatches e ∷ xs) s) ready
          (kept.0 ∙ k) (kept.1 ∙ p) in
      let twice =
        handle-again h f e w xs s mono hf valid pos fresh
          (rw (← ap (λ r. clock r.ticks) whole) early) in
      (
        ap (λ r. r.page) (dispatch-eq-handle stringify clock h e s ready k p) ∙ twice.0,
        ap (λ r. (dispatch stringify clock e r).page) whole
            ∙ ap (λ r. r.page) again
            ∙ twice.1
            ∙ ap (λ r. r.page) (sym whole),
      )
