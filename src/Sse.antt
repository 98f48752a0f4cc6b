-- ===== src/Sse.antt =====
-- front-end/src/utils/streamParser.js: server-sent events out of a chunked byte stream.
-- The reader and the decoder are the browser's: a stream is the list of decoded chunks with the way
-- it ends. `JSON.parse`, the test `event.type === 'done'` on what it returns (false where reading
-- `type` throws, as the enclosing `try` makes it) and the callback are parameters. The callback
-- returns the new state and whether it threw.
pub mod Split
pub mod Chunks
pub mod Frames
mod Examples
use moonlit_ai_agent.Prelude.{
  ℕ, zero, suc, ◌-◌, ◌+◌, Bool, true, false, Option, none, some, List, [], ◌∷◌, ◌++◌, Text, drop,
  starts_with, text_eq, is_empty, join, trim, ◌==◌, if◌then◌else◌,
}

-- The separator of events that begins the text, by its length: `\n\n|\r\n\r\n`, or 0.
unfoldable pub separator_length : Text → ℕ
separator_length s =
    if starts_with (10 ∷ 10 ∷ []) s
    then 2
    else if starts_with (13 ∷ 10 ∷ 13 ∷ 10 ∷ []) s
    then 4
    else 0

-- The result of `split`, its last element apart.
pub record Pieces : Type 0 where
  pub blocks : List Text
  pub rest : Text

abbrev pub keep_into : ℕ → List Text → Text → Pieces
keep_into c [] rest = record { blocks = []; rest = c ∷ rest }
keep_into c (b ∷ bs) rest = record { blocks = (c ∷ b) ∷ bs; rest = rest }

abbrev pub keep : ℕ → Pieces → Pieces
keep c p = keep_into c p.blocks p.rest

abbrev pub cut : Pieces → Pieces
cut p = record { blocks = [] ∷ p.blocks; rest = p.rest }

-- `buffer.split(/\n\n|\r\n\r\n/)`; the number counts the code units of a separator still to skip.
split_from : ℕ → Text → Pieces
split_from k [] = record { blocks = []; rest = [] }
split_from (suc k) (c ∷ s) = split_from k s
split_from zero (c ∷ s) =
    let n = separator_length (c ∷ s) in
    let later = split_from (n - 1) s in if n == 0 then keep c later else cut later

unfoldable pub split_blocks : Text → Pieces
unfolding split_from separator_length
split_blocks s = split_from 0 s

-- `block.split('\n')`.
abbrev pub add_to_line : ℕ → List Text → List Text
add_to_line c [] = (c ∷ []) ∷ []
add_to_line c (l ∷ ls) = (c ∷ l) ∷ ls

unfoldable pub split_lines : Text → List Text
split_lines [] = [] ∷ []
split_lines (c ∷ s) = if c == 10 then [] ∷ split_lines s else add_to_line c (split_lines s)

-- `.replace(/^ /, '')`.
abbrev pub drop_space : Text → Text
drop_space [] = []
drop_space (c ∷ s) = if c == 32 then s else c ∷ s

abbrev pub data_prefix : Text
data_prefix = 100 ∷ 97 ∷ 116 ∷ 97 ∷ 58 ∷ []

-- The payload of a `data:` line; comments and other fields have none.
abbrev pub data_line : Text → Option Text
data_line line =
    if starts_with (58 ∷ []) line
    then none
    else if starts_with data_prefix line
    then some (drop_space (drop 5 line))
    else none

abbrev pub add_line : Option Text → List Text → List Text
add_line none ls = ls
add_line (some l) ls = l ∷ ls

unfoldable pub data_lines : List Text → List Text
data_lines [] = []
data_lines (l ∷ ls) = add_line (data_line l) (data_lines ls)

-- `DONE_PAYLOAD`.
abbrev pub done_payload : Text
done_payload = 91 ∷ 68 ∷ 79 ∷ 78 ∷ 69 ∷ 93 ∷ []

-- What a block does to the read loop: go on, return, or an exception that leaves it.
pub data Signal : Type 0 where
  more finished thrown : Signal

pub data Ending : Type 0 where
  closed failed : Ending

module _ {S : Type 0} where
  -- The loop over blocks goes on with the state that a block left, unless it was the last.
  unfoldable pub then_blocks : S × Signal → (S → S × Signal) → S × Signal
  then_blocks (s, more) next = next s
  then_blocks (s, finished) next = (s, finished)
  then_blocks (s, thrown) next = (s, thrown)

  -- At the end of the stream the signal of the last block only matters if it is an exception.
  close : S × Signal → S × Signal
  close (s, thrown) = (s, thrown)
  close (s, _) = (s, finished)

-- What the parser is given: `JSON.parse`, `event.type === 'done'`, `{ type: 'done' }`, `onEvent`.
pub record Client (S E : Type 0) : Type 0 where
  pub json_parse : Text → Option E
  pub is_done : E → Bool
  pub done_event : E
  pub on_event : E → S → S × Bool

module _ {S E : Type 0} (client : Client S E) where
  open client use {json_parse, is_done, done_event, on_event}

  -- `onEvent({ type: 'done' })` stands outside the `try`: what the callback throws there gets out.
  abbrev announce_done : S → S × Signal
  announce_done s =
      ((on_event done_event s).0, if (on_event done_event s).1 then thrown else finished)

  -- Inside the `try` an exception of the callback is swallowed.
  abbrev deliver : Text → S → S × Signal
  deliver payload s = elim (json_parse payload) [
    | none ↦ (s, more)
    | some e ↦
        ((on_event e s).0, if (on_event e s).1 then more else if is_done e then finished else more)
  ]

  unfoldable pub process_payload : Text → S → S × Signal
  unfolding text_eq
  process_payload payload s =
      if text_eq payload done_payload then announce_done s else deliver payload s

  process_data : List Text → S → S × Signal
  process_data [] s = (s, more)
  process_data (l ∷ ls) s = process_payload (join (10 ∷ []) (l ∷ ls)) s

  unfoldable pub process_event_block : Text → S → S × Signal
  unfolding process_data
  process_event_block block s = process_data (data_lines (split_lines block)) s

  -- The body of the loop over blocks.
  unfoldable pub process_trimmed : Text → S → S × Signal
  process_trimmed block s =
      let trimmed = trim block in
      if is_empty trimmed then (s, more) else process_event_block trimmed s

  unfoldable pub run_blocks : List Text → S → S × Signal
  run_blocks [] s = (s, more)
  run_blocks (b ∷ bs) s = then_blocks (process_trimmed b s) (λ s'. run_blocks bs s')

  unfoldable pub end_stream : Ending → Text → S → S × Signal
  unfolding close
  end_stream failed buffer s = (s, thrown)
  end_stream closed buffer s = close (process_trimmed buffer s)

  read_loop : Ending → List Text → Text → S → S × Signal
  read_loop ending [] buffer s = end_stream ending buffer s
  read_loop ending (chunk ∷ chunks) buffer s =
      let pieces = split_blocks (buffer ++ chunk) in
      then_blocks (run_blocks pieces.blocks s) (λ s'. read_loop ending chunks pieces.rest s')

  -- The final state, with `finished` if the promise resolves and `thrown` if it is rejected.
  unfoldable pub parse_sse_stream : Ending → List Text → S → S × Signal
  unfolding read_loop
  parse_sse_stream ending chunks s = read_loop ending chunks [] s
