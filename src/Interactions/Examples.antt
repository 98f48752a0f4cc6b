-- ===== src/Interactions/Examples.antt =====
-- An interrupt that is answered twice, and a user who goes to another session.
use moonlit_ai_agent.Prelude.{
  ◌≡◌, ◌≢◌, ◌++◌, inl, arith, text_eq_iff, ◌≤◌, refl, true, false, none, some, List, [], ◌∷◌, codes,
  lookup, insert, text_eq,
}
use moonlit_ai_agent.Prelude.Json.{Value}
use moonlit_ai_agent.Registry.{empty}
use moonlit_ai_agent.Session.{Interaction, InteractionType, new_session}
use moonlit_ai_agent.Store.{World, get_session, update_session}
use moonlit_ai_agent.Interactions.{Desk, answer, clear_pending_interaction, leave_session}
use moonlit_ai_agent.Interactions.Acts.{
  DeskAction, queues, answers_with, desk_acts, selects, leaves, presents, writes,
}
use moonlit_ai_agent.Interactions.Answers.{count_answers, answers-desk_acts}
use moonlit_ai_agent.Interactions.Leaving.{comes_back, present_pending-leave_session}
use moonlit_ai_agent.Interactions.Pending.{IsHome}

abbrev interrupt : Interaction
interrupt = record {
  ref = 7;
  type = InteractionType.agent_interrupt;
  event = Value.null;
  assistant_message_id = none;
  session_key = codes "a";
}

abbrev world : World
world = record {
  sessions =
      (
        codes "a",
        record (new_session (codes "a") none none) { pending_interaction = some interrupt },
      )
      ∷ [];
  cached_messages = [];
  session_keys = [];
  conversations = [];
  registry = empty;
  active_key = codes "b";
  mounted = true;
}

abbrev desk : Desk
desk = record {
  world = world;
  presented = some interrupt;
  dialog = some interrupt;
  answers = [];
  dispatched = [];
}

abbrev clicks : List DeskAction
clicks = answers_with interrupt true ∷ answers_with interrupt false ∷ []

answered_once : (desk_acts clicks desk).answers ≡ (interrupt, true) ∷ []
unfolding answer clear_pending_interaction get_session update_session lookup insert text_eq
answered_once = refl

answers-desk_acts_example :
    count_answers (codes "a") 7 (desk_acts (queues interrupt ∷ clicks) desk).answers ≤ 2
unfolding get_session lookup text_eq
answers-desk_acts_example = answers-desk_acts (codes "a") 7 (queues interrupt ∷ clicks) desk

-- In between another session presents a step limit of its own, which the user goes on with.
abbrev limit : Interaction
limit = record interrupt { ref = 8; type = InteractionType.step_limit; session_key = codes "b" }

abbrev visit : List DeskAction
visit =
    queues limit
    ∷ presents
    ∷ answers_with limit true
    ∷ writes (codes "a") (λ ms. ms)
    ∷ selects (codes "c")
    ∷ leaves
    ∷ []

apart : codes "b" ≢ codes "a"
apart e = ground (arith, text_eq_iff (codes "b") (codes "a"))

world-IsHome : IsHome world
unfolding get_session lookup
world-IsHome k j h = ground (arith, text_eq_iff (codes "a") k)

other : codes "c" ≢ codes "a"
other e = ground (arith, text_eq_iff (codes "c") (codes "a"))

present_pending-leave_session_example :
    ((leave_session desk).dialog ≡ none)
    × ((desk_acts (leaves ∷ visit ++ comes_back (codes "a")) desk).dialog ≡ some interrupt)
unfolding get_session lookup text_eq
present_pending-leave_session_example =
    present_pending-leave_session interrupt visit desk world-IsHome refl refl apart (λ e. cc)
      (apart, (tt, (inl apart, (tt, (other, (tt, tt))))))
