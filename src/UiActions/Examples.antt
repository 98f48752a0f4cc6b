-- ===== src/UiActions/Examples.antt =====
-- A page that counts what it is asked for: the settings are asked for twice, and a query in between.
use moonlit_ai_agent.Prelude.{
  ℕ, ◌+◌, ◌*◌, ◌≡◌, refl, true, Bool, none, some, List, [], ◌∷◌, codes, text_eq, lookup, insert,
  if◌then◌else◌, arith,
}
use moonlit_ai_agent.Prelude.Json.{Value, str, obj, end, member, to_text}
use moonlit_ai_agent.UiActions.{
  Handlers, Event, Dispatcher, new_dispatcher, register, dispatch, dispatch_all,
  has_registered_handler, handle, run_unless_recent, Act, dispatches, waits, wait, acts,
}
use moonlit_ai_agent.UiActions.Validate.{validate}
use moonlit_ai_agent.UiActions.Queued.{register-acts}
use moonlit_ai_agent.UiActions.Repeated.{dispatch-again}

abbrev clock : ℕ → ℕ
clock n = 1000 + n * 100

abbrev count_up : Value → ℕ → ℕ × Bool
count_up v n = (n + 1, true)

abbrev settings : Event
settings = record {
  action = codes "open_settings_modal";
  payload = obj (member (codes "section") (str (codes "ai")) end);
}

abbrev query : Event
query = record {
  action = codes "write_sql_editor_query";
  payload = obj (member (codes "query") (str (codes " SELECT 1 ")) end);
}

abbrev handlers : Handlers ℕ
handlers = record {
  handler = λ action. if text_eq action (codes "usage_metrics") then none else some count_up;
  on_invalid_action = none;
  on_action_telemetry = none;
}

abbrev ready : Dispatcher ℕ
ready = record (new_dispatcher 0) { handlers = some handlers }

handled : (dispatch_all to_text clock (settings ∷ query ∷ settings ∷ []) ready).page ≡ 2
unfolding dispatch has_registered_handler handle run_unless_recent validate text_eq lookup insert
    to_text
handled = refl

abbrev query_after_a_second : List Act
query_after_a_second = waits 10 ∷ dispatches query ∷ []

dispatch-again_example :
    ((dispatch to_text clock settings ready).page ≡ 1)
    × ((dispatch to_text clock settings
          (acts to_text clock (dispatches settings ∷ query_after_a_second) ready)).page
        ≡ (acts to_text clock (dispatches settings ∷ query_after_a_second) ready).page)
unfolding dispatch has_registered_handler handle run_unless_recent validate text_eq lookup insert
dispatch-again_example =
    dispatch-again to_text clock handlers count_up settings settings.payload query_after_a_second
      ready (λ n m h. omega arith) refl refl refl refl refl (omega arith) refl (omega arith)

-- The settings are asked for twice, two seconds apart.
abbrev twice : List Act
twice = dispatches settings ∷ waits 20 ∷ dispatches settings ∷ []

registered_twice :
    (acts to_text clock twice (register to_text clock handlers (new_dispatcher 0))).page ≡ 2
unfolding dispatch register has_registered_handler handle run_unless_recent validate text_eq lookup
    insert to_text
registered_twice = refl

-- Queued, they are drained at one time, and the second is taken for a repetition.
queued_twice :
    (register to_text clock handlers (acts to_text clock twice (new_dispatcher 0))).page ≡ 1
unfolding dispatch register has_registered_handler handle run_unless_recent validate text_eq lookup
    insert to_text
queued_twice = refl

register-acts_example :
    register to_text clock handlers (acts to_text clock twice (new_dispatcher 0))
    ≡ dispatch_all to_text clock
        (settings ∷ settings ∷ [])
        (register to_text clock handlers (wait 20 (new_dispatcher 0)))
unfolding has_registered_handler text_eq
register-acts_example = register-acts to_text clock handlers twice (new_dispatcher 0) refl refl
