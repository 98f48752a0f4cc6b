-- ===== src/Titles.antt =====
-- front-end/src/utils/conversationTitles.js: titles of conversations.
pub mod Recovered
use moonlit_ai_agent.Prelude.{
  ℕ, ◌+◌, ◌-◌, Bool, List, [], ◌∷◌, ◌++◌, Text, text_eq, trim, take, drop, length, is_empty, any,
  codes, ltb, ◌==◌, ◌&&◌, if◌then◌else◌,
}

abbrev pub title_max_length : ℕ
title_max_length = 80

abbrev pub legacy_lengths : List ℕ
legacy_lengths = 40 ∷ 50 ∷ []

abbrev pub dots : Text
dots = codes "..."

unfoldable pub build_conversation_title : Text → Text
build_conversation_title content = take title_max_length (trim content)

-- `s.endsWith(t)`.
abbrev ends_with : Text → Text → Bool
ends_with t s = text_eq (drop (length s - length t) s) t

abbrev or_text : Text → Text → Text
or_text [] fallback = fallback
or_text (c ∷ s) fallback = c ∷ s

unfoldable pub get_conversation_display_title : Text → Text
get_conversation_display_title title =
    let normalized = or_text (trim title) (codes "New Conversation") in
    if any (λ n. (length normalized == n + 3) && ends_with dots normalized) legacy_lengths
    then take (length normalized - 3) normalized
    else normalized

-- Whether the title is what the old code made of the message: its beginning and three dots.
unfoldable pub is_legacy_title : Text → Text → ℕ → Bool
is_legacy_title title message n = ltb n (length message) && text_eq title (take n message ++ dots)

unfoldable pub recover_legacy_conversation_title : Text → Text → Text
recover_legacy_conversation_title title first =
    let normalized_title = trim title in
    let message = trim first in
    if is_empty message
    then normalized_title
    else if any (is_legacy_title normalized_title message) legacy_lengths
    then build_conversation_title message
    else normalized_title
