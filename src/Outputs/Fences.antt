-- ===== src/Outputs/Fences.antt =====
-- front-end/src/features/chat/conversationOutputs.js: the matches of the pattern for a fenced block, from the
-- left to the right, each from behind the one before it. A word is as long as it can be and a body
-- as short, and no other choice would make the pattern match where this one does not.
use moonlit_ai_agent.Prelude.{
  ℕ, zero, suc, ◌+◌, ◌-◌, Bool, ◌&&◌, ◌||◌, Option, none, some, List, [], ◌∷◌, Text, codes, length,
  drop, leb, ◌==◌, starts_with, if◌then◌else◌,
}

pub record Fence : Type 0 where
  pub index : ℕ
  pub language : Text
  pub code : Text

abbrev pub ticks : Text
ticks = codes "```"

abbrev is_word : ℕ → Bool
is_word c =
    (leb b'A' c && leb c b'Z')
    || ((leb b'a' c && leb c b'z') || ((leb b'0' c && leb c b'9') || (c == b'_' || c == b'-')))

unfoldable pub take_word : Text → Text × Text
take_word [] = ([], [])
take_word (c ∷ s) =
    let rest = take_word s in if is_word c then (c ∷ rest.0, rest.1) else ([], c ∷ s)

-- What stands behind the first end of a line.
unfoldable pub after_line : Text → Option Text
after_line [] = none
after_line (c ∷ s) = if c == 10 then some s else after_line s

abbrev pub with_first : ℕ → Option (Text × Text) → Option (Text × Text)
with_first c none = none
with_first c (some (code, rest)) = some (c ∷ code, rest)

unfoldable pub until_ticks : Text → Option (Text × Text)
until_ticks [] = none
until_ticks (c ∷ s) =
    if starts_with ticks (c ∷ s) then some ([], drop 3 (c ∷ s)) else with_first c (until_ticks s)

abbrev pub found : Text → Option (Text × Text) → Option (Text × Text × Text)
found word none = none
found word (some (code, rest)) = some (word, code, rest)

abbrev pub body : Text → Option Text → Option (Text × Text × Text)
body word none = none
body [] (some s) = none
body (c ∷ word) (some s) = found (c ∷ word) (until_ticks s)

-- The word, the body and what follows of a block that begins where the text does.
unfoldable pub match_fence : Text → Option (Text × Text × Text)
unfolding take_word after_line until_ticks
match_fence t =
    let word = take_word (drop 3 t) in
    if starts_with ticks t then body word.0 (after_line word.1) else none

-- The first argument is how many characters belong to the block before.
unfoldable pub scan : ℕ → ℕ → Text → List Fence
scan skip i [] = []
scan (suc skip) i (c ∷ s) = scan skip (i + 1) s
scan zero i (c ∷ s) = elim (match_fence (c ∷ s)) [
  | none ↦ scan zero (i + 1) s
  | some (word, code, rest) ↦
      record { index = i; language = word; code = code } ∷ scan (length s - length rest) (i + 1) s
]

unfoldable pub fences : Text → List Fence
unfolding scan
fences text = scan 0 0 text
