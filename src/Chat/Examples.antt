-- ===== src/Chat/Examples.antt =====
-- A session that is stopped while its response streams, and goes on with another prompt.
use moonlit_ai_agent.Prelude.{
  ◌≡◌, refl, true, false, none, some, List, [], ◌∷◌, codes, lookup, insert, text_eq, trim,
}
use moonlit_ai_agent.Session.{new_session}
use moonlit_ai_agent.Registry.{
  empty, start, annotate, last_generation, run, starts, annotates, Call, get,
}
use moonlit_ai_agent.Registry.Settled.{run-IsBalanced}
use moonlit_ai_agent.Timeline.{new_stream}
use moonlit_ai_agent.Store.{World, owns_stream, get_session}
use moonlit_ai_agent.Chat.{send_message, stop_session}
use moonlit_ai_agent.Chat.Actions.{Action, acts, sends, opens, closes, settles}
use moonlit_ai_agent.Chat.Late.{others, stop_session-final}

abbrev page : World
page = record {
  sessions = (codes "draft:1", new_session (codes "draft:1") none none) ∷ [];
  cached_messages = [];
  session_keys = [];
  conversations = [];
  registry = empty;
  active_key = codes "draft:1";
  mounted = true;
}

abbrev calls : List Call
calls = starts (codes "draft:1") ∷ annotates (codes "draft:1") 1 (some (codes "a1")) false ∷ []

abbrev streaming_page : World
streaming_page = record page { registry = run calls empty }

send_message_test :
    (send_message (codes "draft:1") (codes " hi ") (codes "u1") (codes "a1") page).1 ≡ some 1
unfolding send_message get_session lookup trim start insert last_generation text_eq
send_message_test = refl

streaming_page-owns : owns_stream (codes "draft:1") 1 streaming_page ≡ true
unfolding owns_stream get lookup start insert annotate last_generation text_eq
streaming_page-owns = refl

abbrev later : List Action
later =
    sends (codes "draft:1") (codes "again") (codes "u2") (codes "a2")
    ∷ opens (codes "draft:1") 1 none (some (codes "c1")) (codes "hi")
    ∷ closes (codes "draft:1") 1 (codes "a1") none new_stream
    ∷ settles (codes "draft:1") 1
    ∷ []

stop_session-final_example :
    acts later (stop_session (codes "draft:1") streaming_page).0
    ≡ acts (others (codes "draft:1") 1 later) (stop_session (codes "draft:1") streaming_page).0
stop_session-final_example =
    stop_session-final (codes "draft:1") 1 later streaming_page (run-IsBalanced calls)
      streaming_page-owns

others_example :
    others (codes "draft:1") 1 later
    ≡ sends (codes "draft:1") (codes "again") (codes "u2") (codes "a2") ∷ []
unfolding text_eq
others_example = refl
