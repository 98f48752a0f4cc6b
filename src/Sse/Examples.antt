-- ===== src/Sse/Examples.antt =====
-- The parser at concrete streams: a client that logs what it is given.
use moonlit_ai_agent.Prelude.{
  ◌≡◌, refl, false, none, some, List, [], ◌∷◌, ◌++◌, Text, codes, concat, map, text_eq,
  if◌then◌else◌, arith, trim, trim_end, is_space, All,
}
use moonlit_ai_agent.Sse.{
  Client, parse_sse_stream, closed, failed, finished, split_blocks, run_blocks, then_blocks,
  end_stream, process_trimmed, process_event_block, process_payload, split_lines, data_lines,
}
use moonlit_ai_agent.Sse.Chunks.{parse_sse_stream-chunks}
use moonlit_ai_agent.Sse.Frames.{IsPayload, frame, run_payloads, parse_sse_stream-frames}

abbrev logger : Client (List Text) Text
logger = record {
  json_parse = λ t. if text_eq t (codes "bad") then none else some t;
  is_done = λ t. text_eq t (codes "end");
  done_event = codes "[DONE]";
  on_event = λ t log. (log ++ t ∷ [], false);
}

-- A comment, two data lines, a malformed payload, an unterminated rest.
mixed_stream :
    parse_sse_stream logger closed
      (codes ":hi\ndata: a\nid: 1\ndata:b\n" ∷ codes "\ndata: bad\r\n\r" ∷ codes "\ndata: c " ∷ [])
      []
    ≡ (codes "a\nb" ∷ codes "c" ∷ [], finished)
unfolding parse_sse_stream split_blocks run_blocks then_blocks end_stream process_trimmed
    process_event_block process_payload split_lines data_lines trim
mixed_stream = refl

parse_sse_stream-chunks_example :
    parse_sse_stream logger failed (codes "data: a\n" ∷ codes "\nda" ∷ []) []
    ≡ parse_sse_stream logger failed (codes "data: a\n\nda" ∷ []) []
parse_sse_stream-chunks_example =
    parse_sse_stream-chunks logger failed (codes "data: a\n" ∷ codes "\nda" ∷ [])
      (codes "data: a\n\nda" ∷ []) [] refl

abbrev payloads : List Text
payloads = codes "a" ∷ codes "bad" ∷ codes "end" ∷ codes "late" ∷ []

payloads-IsPayload : All IsPayload payloads
unfolding trim_end is_space
payloads-IsPayload = (
  record { filled = λ e. cc; one_line = omega arith; trimmed = refl },
  (
    record { filled = λ e. cc; one_line = omega arith; trimmed = refl },
    (
      record { filled = λ e. cc; one_line = omega arith; trimmed = refl },
      (record { filled = λ e. cc; one_line = omega arith; trimmed = refl }, tt),
    ),
  ),
)

parse_sse_stream-frames_example :
    parse_sse_stream logger closed (concat (map frame payloads) ∷ []) []
    ≡ then_blocks (run_payloads logger payloads []) (λ log. (log, finished))
parse_sse_stream-frames_example =
    parse_sse_stream-frames logger closed payloads (concat (map frame payloads) ∷ []) []
      payloads-IsPayload refl

run_payloads_example : run_payloads logger payloads [] ≡ (codes "a" ∷ codes "end" ∷ [], finished)
unfolding process_payload then_blocks
run_payloads_example = refl
