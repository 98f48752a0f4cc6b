-- ===== src/UiActions.antt =====
-- front-end/src/hooks/chat-page/useUiActionDispatcher.js: what becomes of an action that the agent
-- asks the page for. The page is a value that a handler changes, and a handler does not dispatch
-- actions of its own. Time goes on in ticks, of which every call of `Date.now` takes one and any
-- number may go by between two calls of the hook: `clock n` is what `Date.now` gives at tick `n`. No
-- action is named
-- like a member that every object has. The messages for developers are left out.
mod Validate
pub mod Queued
pub mod Repeated
mod Examples
use moonlit_ai_agent.Prelude.{
  ℕ, ◌+◌, ◌-◌, Bool, true, false, not, ◌&&◌, Option, none, some, List, [], ◌∷◌, ◌++◌, Text, codes,
  Dict, lookup, insert, any, ltb, ◌==◌, if◌then◌else◌,
}
use moonlit_ai_agent.Prelude.Json.{Value, obj, end, get_member, is_object}
use moonlit_ai_agent.Steps.Actions.{ui_actions}
use moonlit_ai_agent.UiActions.Validate.{Validation, accepted, rejected, validate}

abbrev pub dedupe_window : ℕ
dedupe_window = 1500

-- A handler takes the payload; its flag says whether it returned, and did not throw.
pub record Handlers (P : Type 0) : Type 0 where
  pub handler : Text → Option (Value → P → P × Bool)
  pub on_invalid_action : Option (Text → Value → Text → P → P)
  pub on_action_telemetry : Option (Text → Value → Bool → P → P)

pub record Event : Type 0 where
  pub action : Text
  pub payload : Value

-- The three refs of the hook, and the page. Before the first effect there are no handlers.
pub record Dispatcher (P : Type 0) : Type 0 where
  pub page : P
  pub handlers : Option (Handlers P)
  pub pending : List Event
  pub seen : Dict ℕ
  pub ticks : ℕ

-- What happens between two commits: actions are dispatched, and time goes by.
pub data Act : Type 0 where
  dispatches : Event → Act
  waits : ℕ → Act

abbrev pub normalize_payload : Value → Value
normalize_payload v = if is_object v then v else obj end

abbrev is_some : {A : Type 0} → Option A → Bool
is_some none = false
is_some (some a) = true

module _ {P : Type 0} where
  abbrev pub new_dispatcher : P → Dispatcher P
  new_dispatcher page = record { page = page; handlers = none; pending = []; seen = []; ticks = 0 }

  abbrev pub wait : ℕ → Dispatcher P → Dispatcher P
  wait n s = record s { ticks = s.ticks + n }

  unfoldable pub has_registered_handler : Option (Handlers P) → Bool
  has_registered_handler none = false
  has_registered_handler (some h) = any (λ entry. is_some (h.handler entry.0)) ui_actions

  abbrev pub report_invalid : Option (Text → Value → Text → P → P) → Text → Value → Text → P → P
  report_invalid none action payload reason page = page
  report_invalid (some f) action payload reason page = f action payload reason page

  abbrev pub report_status : Option (Text → Value → Bool → P → P) → Text → Value → P × Bool → P
  report_status none action payload (page, returned) = page
  report_status (some f) action payload (page, returned) = f action payload returned page

abbrev pub get_event_key : (Value → Text) → Text → Value → Text
get_event_key stringify action payload = action ++ (58 ∷ stringify payload)

-- `lastSeenAt && now - lastSeenAt < DEDUPE_WINDOW_MS`; a clock that was put back gives a negative
-- difference, which is below the window as well.
abbrev pub is_repeated : Option ℕ → ℕ → Bool
is_repeated none now = false
is_repeated (some last) now = not (last == 0) && ltb (now - last) dedupe_window

module _ {P : Type 0} (stringify : Value → Text) (clock : ℕ → ℕ) where
  abbrev pub run_handler :
      Handlers P → (Value → P → P × Bool) → Text → Value → Dispatcher P → Dispatcher P
  run_handler h handler action payload s = record s {
    page = report_status h.on_action_telemetry action payload (handler payload s.page);
  }

  unfoldable pub run_unless_recent :
      Handlers P → (Value → P → P × Bool) → Text → Value → Dispatcher P → Dispatcher P
  run_unless_recent h handler action payload s =
      let now = clock s.ticks in
      let key = get_event_key stringify action payload in
      let asked = record s { ticks = s.ticks + 1 } in
      if is_repeated (lookup key s.seen) now
      then asked
      else run_handler h handler action payload (record asked { seen = insert key now s.seen })

  -- What follows the table's entry and the handler that were looked up.
  abbrev pub run_known :
      Handlers P
      → Option Validation
      → Option (Value → P → P × Bool)
      → Text
      → Value
      → Dispatcher P
      → Dispatcher P
  run_known h none handler action payload s = s
  run_known h (some v) none action payload s = s
  run_known h (some (rejected reason)) (some handler) action payload s = record s {
    page = report_invalid h.on_invalid_action action payload reason s.page;
  }
  run_known h (some (accepted effective)) (some handler) action payload s =
      run_unless_recent h handler action effective s

  -- The part of `dispatch` behind the two queues.
  unfoldable pub handle : Handlers P → Event → Dispatcher P → Dispatcher P
  handle h e s =
      let payload = normalize_payload e.payload in
      run_known h (validate e.action payload) (h.handler e.action) e.action payload s

  abbrev pub handle_all : Handlers P → List Event → Dispatcher P → Dispatcher P
  handle_all h [] s = s
  handle_all h (e ∷ es) s = handle_all h es (handle h e s)

  -- What waits is dispatched first. It finds an empty queue, so that it is only handled.
  abbrev drain_pending : Handlers P → Dispatcher P → Dispatcher P
  drain_pending h s = handle_all h s.pending (record s { pending = [] })

  abbrev dispatch_by : Bool → Option (Handlers P) → Event → Dispatcher P → Dispatcher P
  dispatch_by true (some h) e s = handle h e (drain_pending h s)
  dispatch_by _ _ e s = record s { pending = s.pending ++ e ∷ [] }

  unfoldable pub dispatch : Event → Dispatcher P → Dispatcher P
  dispatch e s = dispatch_by (has_registered_handler s.handlers) s.handlers e s

  -- The effect that follows each new record of handlers.
  unfoldable pub register : Handlers P → Dispatcher P → Dispatcher P
  register h s =
      let s' = record s { handlers = some h } in
      if has_registered_handler (some h) then drain_pending h s' else s'

  abbrev pub dispatch_all : List Event → Dispatcher P → Dispatcher P
  dispatch_all [] s = s
  dispatch_all (e ∷ es) s = dispatch_all es (dispatch e s)

  abbrev pub act : Act → Dispatcher P → Dispatcher P
  act (dispatches e) s = dispatch e s
  act (waits n) s = wait n s

  abbrev pub acts : List Act → Dispatcher P → Dispatcher P
  acts [] s = s
  acts (a ∷ xs) s = acts xs (act a s)
