-- ===== src/Conversations/Latest.antt =====
-- Of several requests for one thing only the answer to the latest counts, whatever the order in
-- which they come.
use moonlit_ai_agent.Prelude.{
  ℕ, ◌+◌, ◌≤◌, ◌<◌, ◌≡◌, refl, Bool, true, false, List, [], ◌∷◌, Text, lookup, lookup-insert,
  text_eq_iff, text_eq_refl, if◌then◌else◌, Option-cases, Bool-cases, inl, inr, arith, ◌==◌,
}
use moonlit_ai_agent.Message.{Message}
use moonlit_ai_agent.Store.{get_session}
use moonlit_ai_agent.Conversations.{
  Page, requests, LoadResult, arrived, rejected, FetchResult, load_failed, is_current,
  change_session, load_generation, load_conversation, finish_load, fetch_conversations,
  finish_fetch, listed, recover_generated_title, shows_conversation, first_user_text,
  request_conversation, normalize_from, receive_list,
}
use moonlit_ai_agent.Conversations.Selection.{
  start_new_chat, select_conversation, delete_conversation, finish_rename,
}
use moonlit_ai_agent.Conversations.Acts.{
  PageAction, loads, load_ends, fetches, fetch_ends, opens_chat, selects, deletes, renames, stores,
  page_act, page_acts,
}

recover-generations :
    (id : Text) (ms : List Message) (p : Page)
    → ((recover_generated_title id ms p).load_generations ≡ p.load_generations)
      × ((recover_generated_title id ms p).list_load_seq ≡ p.list_load_seq)
unfolding recover_generated_title
recover-generations id ms p = elim (Option-cases (first_user_text ms)) [
  | inl h ↦ ground arith
  | inr (t, h) ↦ ground arith
]

-- The numbers of both kinds of requests only grow.
pub record IsLater (k : Text) (n s : ℕ) (p : Page) : Type 0 where
  pub load : n ≤ load_generation k p
  pub fetch : s ≤ p.list_load_seq

IsLater-same :
    (k : Text) {n s : ℕ} (p q : Page)
    → q.load_generations ≡ p.load_generations
    → q.list_load_seq ≡ p.list_load_seq
    → IsLater k n s p
    → IsLater k n s q
unfolding load_generation
IsLater-same k p q g f v = record { load = ground (arith, v.load); fetch = ground (arith, v.fetch) }

IsLater-recover :
    (k id : Text) (ms : List Message) (p : Page) {n s : ℕ}
    → IsLater k n s p
    → IsLater k n s (recover_generated_title id ms p)
IsLater-recover k id ms p v = let (g, f) = recover-generations id ms p in IsLater-same k p _ g f v

IsLater-request :
    (k j id : Text) (p : Page) {n s : ℕ}
    → IsLater k n s p
    → IsLater k n s (request_conversation j id p)
unfolding request_conversation load_generation
IsLater-request k j id p v = record {
  load = ground (
    arith,
    v.load,
    lookup-insert j k (load_generation j p + 1) p.load_generations,
    text_eq_iff j k,
  );
  fetch = v.fetch;
}

load_conversation-IsLater :
    (k j id : Text) (p : Page) {n s : ℕ}
    → IsLater k n s p
    → IsLater k n s (load_conversation j id p).0
unfolding load_conversation
load_conversation-IsLater k j id p v =
    elim (Bool-cases (shows_conversation id (get_session j p.world))) [
      | inl shown ↦ rw shown (IsLater-same k p _ refl refl v)
      | inr h ↦ elim (Option-cases (lookup id p.world.cached_messages)) [
        | inl absent ↦ rw (h, absent) (IsLater-request k j id p v)
        | inr (ms, cached) ↦
            rw (h, cached) (IsLater-recover k id ms _ (IsLater-same k p _ refl refl v))
      ]
    ]

finish_load-IsLater :
    (k j id : Text) (g : ℕ) (r : LoadResult) (p : Page) {n s : ℕ}
    → IsLater k n s p
    → IsLater k n s (finish_load j id g r p).0
unfolding finish_load
finish_load-IsLater k j id g (arrived stored) p v = elim (Bool-cases (is_current j g p)) [
  | inl h ↦ rw h (IsLater-recover k id (normalize_from 0 stored) _ (IsLater-same k p _ refl refl v))
  | inr h ↦ rw h v
]
finish_load-IsLater k j id g rejected p v = elim (Bool-cases (is_current j g p)) [
  | inl h ↦ rw h (IsLater-same k p _ refl refl v)
  | inr h ↦ rw h v
]
finish_load-IsLater k j id g _ p v = IsLater-same k p _ refl refl v

IsLater-received :
    (k : Text) (r : FetchResult) (p : Page) {n s : ℕ}
    → IsLater k n s p
    → IsLater k n s (record (receive_list r p) { is_list_loading = false })
unfolding receive_list
IsLater-received k (listed cs) p v = IsLater-same k p _ refl refl v
IsLater-received k _ p v = IsLater-same k p _ refl refl v

finish_fetch-IsLater :
    (k : Text) (g : ℕ) (r : FetchResult) (p : Page) {n s : ℕ}
    → IsLater k n s p
    → IsLater k n s (finish_fetch g r p)
unfolding finish_fetch
finish_fetch-IsLater k g r p v = elim (Bool-cases (p.list_load_seq == g)) [
  | inl h ↦ rw h (IsLater-received k r p v)
  | inr h ↦ rw h v
]

pub page_act-IsLater :
    (k : Text) (a : PageAction) (p : Page) {n s : ℕ}
    → IsLater k n s p
    → IsLater k n s (page_act a p)
unfolding start_new_chat select_conversation delete_conversation finish_rename fetch_conversations
page_act-IsLater k (loads j id) p v = load_conversation-IsLater k j id p v
page_act-IsLater k (load_ends j id g r) p v = finish_load-IsLater k j id g r p v
page_act-IsLater k (fetches visible) p v = record {
  load = unfold load_generation in v.load;
  fetch = omega (arith, v.fetch);
}
page_act-IsLater k (fetch_ends g r) p v = finish_fetch-IsLater k g r p v
page_act-IsLater k (opens_chat key) p v = IsLater-same k p _ refl refl v
page_act-IsLater k (selects id) p v = IsLater-same k p _ refl refl v
page_act-IsLater k (deletes id fresh) p v =
    IsLater-same k p (delete_conversation id fresh p) (ground arith) (ground arith) v
page_act-IsLater k (renames id trimmed answered) p v = IsLater-same k p _ refl refl v
page_act-IsLater k (stores change) p v = IsLater-same k p _ refl refl v

page_acts-IsLater :
    (k : Text) (later : List PageAction) (p : Page) {n s : ℕ}
    → IsLater k n s p
    → IsLater k n s (page_acts later p)
page_acts-IsLater k [] p v = v
page_acts-IsLater k (a ∷ later) p v =
    page_acts-IsLater k later (page_act a p) (page_act-IsLater k a p v)

-- When the conversation list has been fetched again, whatever has happened before and since, the
-- answer to the earlier request, a list or a failure, changes nothing.
pub finish_fetch-late :
    (earlier later : Bool) (between since : List PageAction) (r : FetchResult) (p : Page)
    → let (asked, n) = fetch_conversations earlier p in
      let q = page_acts since (fetch_conversations later (page_acts between asked)).0 in
      finish_fetch n r q ≡ q
unfolding fetch_conversations finish_fetch
finish_fetch-late earlier later between since r p =
    let asked = (fetch_conversations earlier p).0 in
    let first =
      page_acts-IsLater [] between asked {n = 0} {s = p.list_load_seq + 1}
        (record { load = omega arith; fetch = omega arith }) in
    let again = (fetch_conversations later (page_acts between asked)).0 in
    let second =
      page_acts-IsLater [] since again {n = 0} {s = p.list_load_seq + 2}
        (record { load = omega arith; fetch = omega (arith, first.fetch) }) in
    ground (arith, second.fetch)

load_conversation-requests :
    (k id : Text) (p : Page) {n : ℕ}
    → (load_conversation k id p).1 ≡ requests n
    → (n ≡ load_generation k p + 1) × (load_generation k (load_conversation k id p).0 ≡ n)
unfolding load_conversation load_generation request_conversation
load_conversation-requests k id p h =
    ground (arith, lookup-insert k k (load_generation k p + 1) p.load_generations, text_eq_refl k)

abbrev is_broken : LoadResult → Bool
is_broken LoadResult.broken = true
is_broken _ = false

finish_load-below :
    (k id : Text) (n : ℕ) (r : LoadResult) (q : Page)
    → n < load_generation k q
    → finish_load k id n r q ≡ ((if is_broken r then change_session k load_failed q else q), false)
unfolding finish_load load_generation
finish_load-below k id n (arrived stored) q h = ground arith
finish_load-below k id n rejected q h = ground arith
finish_load-below k id n _ q h = refl

-- When a session has requested a conversation again, this one or another, whatever has happened
-- before and since, an earlier answer changes nothing. Only the earlier request's failure is still
-- written: the session's load status becomes an error, whatever the later request brought.
pub finish_load-late :
    (k id id' : Text) (n m : ℕ) (between since : List PageAction) (r : LoadResult) (p : Page)
    → (load_conversation k id p).1 ≡ requests n
    → (load_conversation k id' (page_acts between (load_conversation k id p).0)).1 ≡ requests m
    → let q =
        page_acts since
          (load_conversation k id' (page_acts between (load_conversation k id p).0)).0 in
      finish_load k id n r q ≡ ((if is_broken r then change_session k load_failed q else q), false)
finish_load-late k id id' n m between since r p h h' =
    let asked = (load_conversation k id p).0 in
    let (_, reached) = load_conversation-requests k id p h in
    let first =
      page_acts-IsLater k between asked {n = n} {s = 0}
        (record { load = omega (arith, reached); fetch = omega arith }) in
    let (next, reached') = load_conversation-requests k id' (page_acts between asked) h' in
    let second =
      page_acts-IsLater k since (load_conversation k id' (page_acts between asked)).0 {n = m}
        {s = 0} (record { load = omega (arith, reached'); fetch = omega arith }) in
    finish_load-below k id n r _ (omega (arith, first.load, next, second.load))
