-- ===== src/Composer.antt =====
-- front-end/src/features/chat/chatDraftStore.js and the form of front-end/src/features/chat/ChatInput.jsx:
-- the drafts of the sessions, and what becomes of a draft that is sent. A `Symbol` is the number of
-- the attempt. The promise of `onSend` is the page's: its answer comes at any later time, first to
-- `restore_draft` if the message was refused, then to `finish`. The page is rendered after every
-- change of a draft: a submission sends the draft as it stands.
pub mod Restored
pub mod Late
pub mod Accepted
mod Examples
use moonlit_ai_agent.Prelude.{
  ℕ, ◌+◌, Bool, true, false, not, Option, none, some, List, [], ◌∷◌, Text, codes, Dict, lookup,
  insert, delete, trim, trim_start, is_space, is_empty, starts_with, ◌==◌, ◌&&◌, ◌||◌,
  if◌then◌else◌,
}

abbrev or_blank : Option Text → Text
or_blank none = []
or_blank (some s) = s

unfoldable pub get_draft : Text → Dict Text → Text
unfolding lookup
get_draft k drafts = or_blank (lookup k drafts)

-- `made` is the number of the symbols so far.
pub record Composer : Type 0 where
  pub drafts : Dict Text
  pub send_attempts : Dict ℕ
  pub made : ℕ

-- What the closures of a submission hold.
pub record Attempt : Type 0 where
  pub session_key : Text
  pub attempt : ℕ
  pub message : Text

abbrev pub sent : Attempt → Text
sent a = trim a.message

unfoldable pub update_message : Text → (Text → Text) → Composer → Composer
unfolding insert
update_message k updater c = record c {
  drafts = insert k (updater (get_draft k c.drafts)) c.drafts;
}

-- `prev.split(/\s+(.*)/s, 2)[1] || ''`: what stands after the first space.
abbrev pub remainder : Text → Text
remainder [] = []
remainder (c ∷ s) = if is_space c then trim_start s else remainder s

abbrev pub without_command : Text → Text
without_command prev = if starts_with (codes "/") prev then remainder prev else prev

abbrev pub handle_slash_command_close : Text → Composer → Composer
handle_slash_command_close k c = update_message k without_command c

unfoldable pub handle_submit : Text → Bool → Bool → Composer → Composer × Option Attempt
unfolding insert delete
handle_submit k disabled is_streaming c =
    let message = get_draft k c.drafts in
    if is_empty (trim message) || disabled || is_streaming then (c, none) else (
      record {
        drafts = delete k c.drafts;
        send_attempts = insert k c.made c.send_attempts;
        made = c.made + 1;
      },
      some (record { session_key = k; attempt = c.made; message = message }),
    )

abbrev is_number : ℕ → Option ℕ → Bool
is_number n none = false
is_number n (some m) = m == n

unfoldable pub is_latest : Attempt → Composer → Bool
unfolding lookup
is_latest a c = is_number a.attempt (lookup a.session_key c.send_attempts)

unfoldable pub restore_draft : Attempt → Composer → Composer
unfolding insert
restore_draft a c =
    if is_latest a c && is_empty (get_draft a.session_key c.drafts)
    then record c { drafts = insert a.session_key a.message c.drafts }
    else c

unfoldable pub finish_attempt : Attempt → Composer → Composer
unfolding delete
finish_attempt a c =
    if is_latest a c then record c { send_attempts = delete a.session_key c.send_attempts } else c

-- What happens to the form, in any session and any order.
pub data Act : Type 0 where
  updates : Text → (Text → Text) → Act
  submits : Text → Bool → Bool → Act
  restores : Attempt → Act
  finishes : Attempt → Act

abbrev pub act : Act → Composer → Composer
act (updates k updater) c = update_message k updater c
act (submits k disabled is_streaming) c = (handle_submit k disabled is_streaming c).0
act (restores a) c = restore_draft a c
act (finishes a) c = finish_attempt a c

abbrev pub acts : List Act → Composer → Composer
acts [] c = c
acts (x ∷ xs) c = acts xs (act x c)
