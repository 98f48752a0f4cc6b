-- ===== src/UiActions/Queued.antt =====
-- front-end/src/hooks/chat-page/useUiActionDispatcher.js: the actions that come too early.
use moonlit_ai_agent.Prelude.{
  ℕ, ◌+◌, true, false, some, List, [], ◌∷◌, ◌++◌, Text, ◌≡◌, refl, ap, sym, append_assoc,
  append-nil, arith, ◌∙◌,
}
use moonlit_ai_agent.Prelude.Json.{Value}
use moonlit_ai_agent.UiActions.{
  Handlers, Event, Dispatcher, has_registered_handler, handle, handle_all, dispatch, dispatch_all,
  register, run_unless_recent, Act, dispatches, waits, wait, acts,
}

-- The actions among the acts, and the time that goes by.
abbrev pub events_of : List Act → List Event
events_of [] = []
events_of (dispatches e ∷ xs) = e ∷ events_of xs
events_of (waits n ∷ xs) = events_of xs

abbrev pub time_of : List Act → ℕ
time_of [] = 0
time_of (dispatches e ∷ xs) = time_of xs
time_of (waits n ∷ xs) = n + time_of xs

module _ {P : Type 0} (stringify : Value → Text) (clock : ℕ → ℕ) where
  pub handle-kept :
      (h : Handlers P) (e : Event) (s : Dispatcher P)
      → ((handle stringify clock h e s).handlers ≡ s.handlers)
        × ((handle stringify clock h e s).pending ≡ s.pending)
  unfolding handle run_unless_recent
  handle-kept h e s = ground arith

  handle_all-append :
      (h : Handlers P) (es fs : List Event) (s : Dispatcher P)
      → handle_all stringify clock h (es ++ fs) s
        ≡ handle_all stringify clock h fs (handle_all stringify clock h es s)
  handle_all-append h [] fs s = refl
  handle_all-append h (e ∷ es) fs s = handle_all-append h es fs (handle stringify clock h e s)

  pub handle_all-kept :
      (h : Handlers P) (es : List Event) (s : Dispatcher P)
      → ((handle_all stringify clock h es s).handlers ≡ s.handlers)
        × ((handle_all stringify clock h es s).pending ≡ s.pending)
  handle_all-kept h [] s = (refl, refl)
  handle_all-kept h (e ∷ es) s =
      ground (arith, handle-kept h e s, handle_all-kept h es (handle stringify clock h e s))

  pub dispatch-eq-handle :
      (h : Handlers P) (e : Event) (s : Dispatcher P)
      → has_registered_handler (some h) ≡ true
      → s.handlers ≡ some h
      → s.pending ≡ []
      → dispatch stringify clock e s ≡ handle stringify clock h e s
  unfolding dispatch
  dispatch-eq-handle h e s r k p = ground (arith, k, p, r)

  pub dispatch_all-eq-handle_all :
      (h : Handlers P) (es : List Event) (s : Dispatcher P)
      → has_registered_handler (some h) ≡ true
      → s.handlers ≡ some h
      → s.pending ≡ []
      → dispatch_all stringify clock es s ≡ handle_all stringify clock h es s
  dispatch_all-eq-handle_all h [] s r k p = refl
  dispatch_all-eq-handle_all h (e ∷ es) s r k p =
      let kept = handle-kept h e s in
      rw (dispatch-eq-handle h e s r k p)
        (dispatch_all-eq-handle_all h es (handle stringify clock h e s) r (kept.0 ∙ k) (kept.1 ∙ p))

  acts-early :
      (xs : List Act) (s : Dispatcher P)
      → has_registered_handler s.handlers ≡ false
      → acts stringify clock xs s
        ≡ record s { pending = s.pending ++ events_of xs; ticks = s.ticks + time_of xs }
  unfolding dispatch
  acts-early [] s r = ground (arith, append-nil s.pending)
  acts-early (dispatches e ∷ xs) s r =
      let early = record s { pending = s.pending ++ e ∷ [] } in
      let first : dispatch stringify clock e s ≡ early = ground arith in
      rw first (
        acts-early xs early r
        ∙ ap (λ es. record s { pending = es; ticks = s.ticks + time_of xs })
            (append_assoc s.pending (e ∷ []) (events_of xs)))
  acts-early (waits n ∷ xs) s r =
      let later : s.ticks + n + time_of xs ≡ s.ticks + (n + time_of xs) = omega arith in
      acts-early xs (wait n s) r
      ∙ ap (λ t. record s { pending = s.pending ++ events_of xs; ticks = t }) later

  -- The actions that are dispatched while no handler is registered, at whatever times, come, when the
  -- handlers are registered, to the same page and the same state of the hook as if all of them, and
  -- what had waited before, were dispatched in order right after the registration, at its time,
  -- however late that is and whatever the handlers do.
  pub register-acts :
      (h : Handlers P) (xs : List Act) (s : Dispatcher P)
      → has_registered_handler (some h) ≡ true
      → has_registered_handler s.handlers ≡ false
      → register stringify clock h (acts stringify clock xs s)
        ≡ dispatch_all stringify clock
            (s.pending ++ events_of xs)
            (register stringify clock h (record (wait (time_of xs) s) { pending = [] }))
  unfolding register
  register-acts h xs s ready r =
      let s' = record s { handlers = some h; pending = []; ticks = s.ticks + time_of xs } in
      rw (acts-early xs s r, ready)
        (sym (dispatch_all-eq-handle_all h (s.pending ++ events_of xs) s' ready refl refl))
