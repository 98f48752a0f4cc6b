-- ===== src/Conversations/Examples.antt =====
-- A page with one conversation.
use moonlit_ai_agent.Prelude.{
  ℕ, insert, ◌≡◌, refl, true, false, none, some, List, [], ◌∷◌, codes, lookup, text_eq,
}
use moonlit_ai_agent.Registry.{empty}
use moonlit_ai_agent.ConversationList.{initial_list_load}
use moonlit_ai_agent.Store.{World, get_session, update_session}
use moonlit_ai_agent.Conversations.{
  Page, requests, LoadResult, load_failed, change_session, load_conversation, finish_load,
}
use moonlit_ai_agent.Conversations.Latest.{finish_load-late}

abbrev world : World
world = record {
  sessions = [];
  cached_messages = (codes "c2", []) ∷ [];
  session_keys = [];
  conversations = record { id = codes "c1"; title = some (codes "Sales"); timestamp = none } ∷ [];
  registry = empty;
  active_key = codes "conversation:c1";
  mounted = true;
}

abbrev page : Page
page = record {
  world = world;
  load_generations = [];
  list_load_seq = 0;
  title_sources = [];
  list_load = initial_list_load;
  is_list_loading = false;
}

abbrev key : List ℕ
key = codes "conversation:c1"

abbrev asked_twice : Page
asked_twice = (load_conversation key (codes "c3") (load_conversation key (codes "c1") page).0).0

first_request : (load_conversation key (codes "c1") page).1 ≡ requests 1
unfolding load_conversation get_session lookup text_eq
first_request = refl

second_request :
    (load_conversation key (codes "c3") (load_conversation key (codes "c1") page).0).1 ≡ requests 2
unfolding load_conversation get_session lookup text_eq update_session insert
second_request = refl

finish_load-late_example :
    finish_load key (codes "c1") 1 LoadResult.broken asked_twice
    ≡ (change_session key load_failed asked_twice, false)
finish_load-late_example =
    finish_load-late key (codes "c1") (codes "c3") 1 2 [] [] LoadResult.broken page first_request
      second_request
