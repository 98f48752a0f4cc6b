-- ===== src/Prelude/Json.antt =====
-- The values of `JSON.parse`, with `undefined` for what is missing. Numbers are the natural ones.
use Prim.Native.Nat.{ℕ}
use mathlib.Core.Bool.{Bool, true, false, not}
use mathlib.Core.Option.{Option, none, some}
use mathlib.Core.List.{[], ◌∷◌, ◌++◌}
use moonlit_ai_agent.Prelude.Tests.{◌==◌, if◌then◌else◌}
use moonlit_ai_agent.Prelude.Texts.{Text, text_eq, codes, decimal, trim}

mutual
  pub data Value : Type 0 where
    undefined null : Value
    bool : Bool → Value
    num : ℕ → Value
    str : Text → Value
    arr : Values → Value
    obj : Members → Value

  pub data Values : Type 0 where
    nil : Values
    cons : Value → Values → Values

  pub data Members : Type 0 where
    end : Members
    member : Text → Value → Members → Members

abbrev pub member_of : Text → Members → Value
member_of k end = undefined
member_of k (member j v ms) = if text_eq j k then v else member_of k ms

-- `v?.k`: only objects have members here.
abbrev pub get_member : Text → Value → Value
get_member k (obj ms) = member_of k ms
get_member k _ = undefined

-- `{ ...v, key: v }`.
unfoldable pub with_member : Text → Value → Members → Members
with_member k v end = member k v end
with_member k v (member j w ms) =
    if text_eq j k then member k v ms else member j w (with_member k v ms)

-- What counts as true in a test.
abbrev pub is_truthy : Value → Bool
is_truthy undefined = false
is_truthy null = false
is_truthy (bool b) = b
is_truthy (num n) = not (n == 0)
is_truthy (str []) = false
is_truthy (str (c ∷ s)) = true
is_truthy (arr vs) = true
is_truthy (obj ms) = true

-- `a ?? b`.
abbrev pub nullish_or : Value → Value → Value
nullish_or undefined b = b
nullish_or null b = b
nullish_or a b = a

-- `a || b`.
abbrev pub value_or : Value → Value → Value
value_or a b = if is_truthy a then a else b

-- `typeof v === 'object'` for a value that is not null.
abbrev pub is_object : Value → Bool
is_object (arr vs) = true
is_object (obj ms) = true
is_object _ = false

-- `typeof v === 'string' ? v.trim() : ''`.
unfoldable pub trimmed : Value → Text
unfolding trim
trimmed (str s) = trim s
trimmed _ = []

-- The same text, if it is not empty.
unfoldable pub filled_text : Value → Option Text
unfolding trimmed
filled_text v = if_filled (trimmed v)
  where
    if_filled : Text → Option Text
    if_filled [] = none
    if_filled (c ∷ s) = some (c ∷ s)

abbrev pub unless_missing : Value → Text → Text
unless_missing undefined s = []
unless_missing null s = []
unless_missing _ s = s

-- `String(v)`, of which an array joins its items with commas and leaves out `undefined` and `null`.
-- Numbers are below 10 ^ 21, where exponents begin, and no object has a member `toString`.
unfoldable mutual
  pub to_text : Value → Text
  to_text undefined = codes "undefined"
  to_text null = codes "null"
  to_text (bool true) = codes "true"
  to_text (bool false) = codes "false"
  to_text (num n) = decimal n
  to_text (str s) = s
  to_text (arr vs) = join_texts vs
  to_text (obj ms) = codes "[object Object]"

  join_texts : Values → Text
  join_texts nil = []
  join_texts (cons v nil) = unless_missing v (to_text v)
  join_texts (cons v (cons w vs)) = unless_missing v (to_text v) ++ (44 ∷ join_texts (cons w vs))
