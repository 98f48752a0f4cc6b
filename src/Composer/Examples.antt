-- ===== src/Composer/Examples.antt =====
-- A message is sent and refused; in between another chat is written to, or the same one again.
use moonlit_ai_agent.Prelude.{
  true, false, none, some, List, [], ◌∷◌, Text, codes, trim, text_eq, text_eq_iff, is_space, ◌≡◌,
  ◌≢◌, refl, inr, lookup, insert, delete, arith,
}
use moonlit_ai_agent.Composer.{
  Composer, Attempt, Act, updates, submits, restores, finishes, acts, get_draft, update_message,
  handle_submit, restore_draft, finish_attempt, is_latest, handle_slash_command_close,
}
use moonlit_ai_agent.Composer.Restored.{restore_draft-handle_submit}
use moonlit_ai_agent.Composer.Late.{IsIgnored, handle_submit-again}
use moonlit_ai_agent.Composer.Accepted.{IsSomewhere, submit, submit-IsSomewhere}
use moonlit_ai_agent.Session.{new_session}
use moonlit_ai_agent.Registry.{empty, start, last_generation}
use moonlit_ai_agent.Store.{World, get_session}
use moonlit_ai_agent.Chat.{send_message}

abbrev this_chat : Text
this_chat = codes "a"

abbrev other_chat : Text
other_chat = codes "b"

abbrev typed : Composer
typed = record {
  drafts = (this_chat, codes " first ") ∷ (other_chat, codes "kept") ∷ [];
  send_attempts = [];
  made = 0;
}

abbrev first : Attempt
first = record { session_key = this_chat; attempt = 0; message = codes " first " }

abbrev second : Attempt
second = record { session_key = this_chat; attempt = 1; message = codes "second" }

abbrev elsewhere : List Act
elsewhere =
    updates other_chat (λ s. codes "new")
    ∷ submits other_chat false false
    ∷ finishes (record first { attempt = 7 })
    ∷ []

abbrev types_again : List Act
types_again = updates this_chat (λ s. codes "second") ∷ []

abbrev refused : List Act
refused = restores first ∷ finishes first ∷ []

slash :
    get_draft other_chat
      (handle_slash_command_close other_chat
        (update_message other_chat (λ s. codes "/sql  list all") typed)).drafts
    ≡ codes "list all"
unfolding update_message get_draft insert lookup text_eq is_space trim
slash = refl

sends : (handle_submit this_chat false false typed).1 ≡ some first
unfolding handle_submit get_draft trim text_eq lookup is_space
sends = refl

sends_again :
    (handle_submit this_chat false false
      (acts types_again (handle_submit this_chat false false typed).0)).1
    ≡ some second
unfolding handle_submit update_message get_draft trim text_eq lookup insert delete is_space
sends_again = refl

apart : other_chat ≢ this_chat
apart e = ground (arith, text_eq_iff other_chat this_chat)

restore_draft-handle_submit_example :
    get_draft this_chat
      (restore_draft first (acts elsewhere (handle_submit this_chat false false typed).0)).drafts
    ≡ get_draft this_chat typed.drafts
restore_draft-handle_submit_example =
    restore_draft-handle_submit this_chat false false typed first elsewhere sends
      (apart, (apart, (inr (ground arith), tt)))

handle_submit-again_example : IsIgnored first (
    acts refused
      (handle_submit this_chat false false
        (acts types_again (handle_submit this_chat false false typed).0)).0)
handle_submit-again_example =
    handle_submit-again this_chat false false false false typed first second types_again refused
      sends sends_again

abbrev page : World
page = record {
  sessions = (this_chat, new_session this_chat none none) ∷ [];
  cached_messages = [];
  session_keys = [];
  conversations = [];
  registry = empty;
  active_key = this_chat;
  mounted = true;
}

-- The session still runs a stream, and takes no message.
abbrev busy : World
busy = record page { registry = (start this_chat empty).0 }

taken :
    get_draft this_chat
      (submit this_chat false false (codes "u") (codes "a") (typed, page)).0.drafts
    ≡ []
unfolding submit handle_submit send_message get_draft trim text_eq lookup insert delete is_space
    start last_generation get_session
taken = refl

not_taken :
    get_draft this_chat
      (submit this_chat false false (codes "u") (codes "a") (typed, busy)).0.drafts
    ≡ codes " first "
unfolding submit handle_submit send_message restore_draft finish_attempt is_latest get_draft trim
    text_eq lookup insert delete is_space start last_generation get_session
not_taken = refl

submit-IsSomewhere_example :
    IsSomewhere this_chat
      (codes "u")
      (codes "a")
      (typed, busy)
      (submit this_chat false false (codes "u") (codes "a") (typed, busy))
submit-IsSomewhere_example =
    submit-IsSomewhere this_chat false false (codes "u") (codes "a") typed busy
