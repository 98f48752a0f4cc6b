-- ===== src/Chat/Calls.antt =====
-- What each action calls of the registry.
use moonlit_ai_agent.Prelude.{
  ◌≡◌, refl, sym, ap, ◌∙◌, true, false, Option, some, List, [], ◌∷◌, Text, lookup, Option-cases,
  Bool-cases, trim, inl, inr,
}
use mathlib.Core.Path.{subst}
use moonlit_ai_agent.Message.{Message}
use moonlit_ai_agent.Registry.{
  Registry, Call, starts, finishes, stops, stops_all, annotates, run, start, get, stop, stop_all,
}
use moonlit_ai_agent.Store.{World, get_session}
use moonlit_ai_agent.Chat.{
  send_message, request_resume, resume_agent, settle_request, stop_session, stop_all_streams,
  unmount, start_stream, can_send, begin_send, begin_resume, has_conversation,
}
use moonlit_ai_agent.Session.{truthy}
use moonlit_ai_agent.Chat.{id_or, existing_message}
use moonlit_ai_agent.Chat.Actions.{
  Action, act, sends, opens, flushes, closes, fails_send, fails_resume, settles, requests_resume,
  resumes, session_stops, all_stop, unmounts, selects, updates,
}
use moonlit_ai_agent.Chat.Quiet.{
  registry-update_session, registry-update_session_messages, registry-apply_write,
  registry-close_response, registry-open_response, registry-fail_send, registry-fail_resume,
  registry-mark_session_stopped, registry-mark_each,
}

-- An action calls the registry, or leaves it alone.
record Calls (w w' : World) : Type 0 where
  calls : List Call
  same : w'.registry ≡ run calls w.registry

quiet : {w w' : World} → w'.registry ≡ w.registry → Calls w w'
quiet h = record { calls = []; same = h }

start_stream-Calls :
    (k id : Text) (change : World → World) (w : World)
    → ((v : World) → (change v).registry ≡ v.registry)
    → Calls w (start_stream k id change w).0
start_stream-Calls k id change w h = elim (Option-cases (start k w.registry).1) [
  | inl held ↦ rw (held, start_stream) (quiet refl)
  | inr (e, begun) ↦ record {
    calls = starts k ∷ annotates k e.generation (some id) false ∷ [];
    same = rw (begun, start_stream) (h _);
  }
]

registry-begin_send :
    (k prompt user_id id : Text) (w : World)
    → (begin_send k prompt user_id id w).registry ≡ w.registry
unfolding begin_send
registry-begin_send k prompt user_id id w =
    registry-update_session k _ _ ∙ registry-update_session_messages k _ w

registry-begin_resume :
    (k id : Text) (existing : Option Message) (w : World)
    → (begin_resume k id existing w).registry ≡ w.registry
unfolding begin_resume
registry-begin_resume k id existing w =
    registry-update_session k _ _ ∙ registry-update_session_messages k _ w

send_message-Calls :
    (k message user_id id : Text) (w : World) → Calls w (send_message k message user_id id w).0
unfolding send_message
send_message-Calls k message user_id id w =
    elim (Bool-cases (can_send (trim message) (get_session k w))) [
      | inl able ↦ rw able (
          start_stream-Calls k id (begin_send k (trim message) user_id id) w
            (registry-begin_send k (trim message) user_id id))
      | inr unable ↦ rw unable (quiet refl)
    ]

request_resume-Calls : (k : Text) (w : World) → Calls w (request_resume k w).0
unfolding request_resume
request_resume-Calls k w = elim (Option-cases (get k w.registry)) [
  | inl absent ↦ rw (absent, request_resume) (quiet refl)
  | inr (e, held) ↦ elim (Bool-cases e.resume_queued) [
    | inl queued ↦ rw (held, request_resume) (rw queued (quiet refl))
    | inr free ↦
        rw (held, request_resume)
          (rw free (record {
            calls = annotates k e.generation e.assistant_message_id true ∷ [];
            same = refl;
          }))
  ]
]

resume_agent-Calls :
    (k : Text) (given : Option Text) (fresh : Text) (w : World)
    → Calls w (resume_agent k given fresh w).0
unfolding resume_agent
resume_agent-Calls k given fresh w = elim (Option-cases (get_session k w)) [
  | inl absent ↦ rw (absent, resume_agent) (quiet refl)
  | inr (s, held) ↦
      rw (held, resume_agent)
        (elim (Bool-cases (has_conversation s)) [
          | inl bound ↦ rw bound (
              let id = id_or (truthy given) fresh in
              let existing = existing_message (truthy given) s in
              start_stream-Calls k id (begin_resume k id existing) w
                (registry-begin_resume k id existing))
          | inr unbound ↦ rw unbound (quiet refl)
        ])
]

pub registry-stop_session :
    (k : Text) (w : World) → (stop_session k w).0.registry ≡ (stop k w.registry).0
unfolding stop_session stop get
registry-stop_session k w = elim (Option-cases (lookup k w.registry.streams)) [
  | inl absent ↦ rw (absent, stop_session, stop)
  | inr (e, held) ↦
      rw (held, stop_session)
        (ap (λ r. (stop k r).0) (registry-mark_session_stopped k e w) ∙ rw (held, stop))
]

stop_session-Calls : (k : Text) (w : World) → Calls w (stop_session k w).0
stop_session-Calls k w = record { calls = stops k ∷ []; same = registry-stop_session k w }

stop_all_streams-Calls : (w : World) → Calls w (stop_all_streams w)
unfolding stop_all_streams
stop_all_streams-Calls w = record {
  calls = stops_all ∷ [];
  same = ap stop_all (registry-mark_each w.registry.streams w);
}

act-Calls : (a : Action) (w : World) → Calls w (act a w)
act-Calls (sends k message user_id id) w = send_message-Calls k message user_id id w
act-Calls (opens k n conversation header prompt) w =
    quiet (registry-open_response k n conversation header prompt w)
act-Calls (flushes k n id write) w = quiet (registry-apply_write k n id write w)
act-Calls (closes k n id base s) w = quiet (registry-close_response k n id base s w)
act-Calls (fails_send k n id online e) w = quiet (registry-fail_send k n id online e w)
act-Calls (fails_resume k n id online e) w = quiet (registry-fail_resume k n id online e w)
act-Calls (settles k n) w =
    unfold settle_request in record { calls = finishes k n ∷ []; same = refl }
act-Calls (requests_resume k) w = request_resume-Calls k w
act-Calls (resumes k given fresh) w = resume_agent-Calls k given fresh w
act-Calls (session_stops k) w = stop_session-Calls k w
act-Calls all_stop w = stop_all_streams-Calls w
act-Calls unmounts w =
    let v = record w { mounted = false } in
    unfold unmount in
    record { calls = (stop_all_streams-Calls v).calls; same = (stop_all_streams-Calls v).same }
act-Calls (selects k) w = quiet refl
act-Calls (updates k change) w = quiet (registry-update_session k change w)

-- What calls of the registry keep, actions keep.
pub act-keeps :
    (P : Registry → Type 0)
    → ((cs : List Call) (r : Registry) → P r → P (run cs r))
    → (a : Action) (w : World) → P w.registry
    → P (act a w).registry
act-keeps P keep a w h =
    let made = act-Calls a w in subst P (sym made.same) (keep made.calls w.registry h)
