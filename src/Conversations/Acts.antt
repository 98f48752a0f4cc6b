-- ===== src/Conversations/Acts.antt =====
-- front-end/src/hooks/chat-page/useConversations.js: the operations in any order.
use moonlit_ai_agent.Prelude.{ℕ, Bool, Option, List, [], ◌∷◌, Text}
use moonlit_ai_agent.Store.{World}
use moonlit_ai_agent.Conversations.{
  Page, LoadResult, FetchResult, load_conversation, finish_load, fetch_conversations, finish_fetch,
}
use moonlit_ai_agent.Conversations.Selection.{
  start_new_chat, select_conversation, delete_conversation, finish_rename,
}

-- Everything that changes the page. `stores` is any change of the sessions, such as a stream's.
pub data PageAction : Type 0 where
  loads : Text → Text → PageAction
  load_ends : Text → Text → ℕ → LoadResult → PageAction
  fetches : Bool → PageAction
  fetch_ends : ℕ → FetchResult → PageAction
  opens_chat selects : Text → PageAction
  deletes : Text → Text → PageAction
  renames : Text → Text → Option Text → PageAction
  stores : (World → World) → PageAction

abbrev pub page_act : PageAction → Page → Page
page_act (loads k id) p = (load_conversation k id p).0
page_act (load_ends k id n r) p = (finish_load k id n r p).0
page_act (fetches visible) p = (fetch_conversations visible p).0
page_act (fetch_ends n r) p = finish_fetch n r p
page_act (opens_chat key) p = start_new_chat key p
page_act (selects id) p = (select_conversation id p).0
page_act (deletes id fresh) p = delete_conversation id fresh p
page_act (renames id trimmed answered) p = finish_rename id trimmed answered p
page_act (stores change) p = record p { world = change p.world }

abbrev pub page_acts : List PageAction → Page → Page
page_acts [] p = p
page_acts (a ∷ later) p = page_acts later (page_act a p)
