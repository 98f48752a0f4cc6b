-- ===== src/Sse/Frames.antt =====
-- What the parser makes of a stream that the server writes as frames, `data: <payload>\n\n`.
use mathlib.Core.Path.{fun_ext}
use moonlit_ai_agent.Prelude.{
  ℕ, ◌≡◌, ◌≢◌, refl, ap, ◌∙◌, List, [], ◌∷◌, ◌++◌, map, Text, concat, trim, trim_end, All,
  append_assoc, arith,
}
use moonlit_ai_agent.Sse.{
  Signal, more, finished, thrown, Ending, closed, failed, split_blocks, then_blocks, run_blocks,
  Client, end_stream, parse_sse_stream, data_prefix, process_payload, process_trimmed,
  process_event_block, split_lines, data_lines,
}
use moonlit_ai_agent.Sse.Split.{split_blocks-line}
use moonlit_ai_agent.Sse.Chunks.{read_whole, parse_sse_stream-eq-read_whole}

-- A payload on one line that `trim` leaves alone at its end, as any JSON text is written.
pub record IsPayload (p : Text) : Type 0 where
  pub filled : p ≢ []
  pub one_line : All (λ c. c ≢ 10) p
  pub trimmed : trim_end p ≡ p

abbrev line : Text → Text
line p = data_prefix ++ 32 ∷ p

abbrev pub frame : Text → Text
frame p = line p ++ 10 ∷ 10 ∷ []

trim_end-cons : (c : ℕ) (s : Text) → s ≢ [] → trim_end s ≡ s → trim_end (c ∷ s) ≡ c ∷ s
unfolding trim_end
trim_end-cons c [] h k = absurd (h refl)
trim_end-cons c (d ∷ s) h k = rw k

trim-line : (p : Text) → IsPayload p → trim (line p) ≡ line p
unfolding trim
trim-line [] v = absurd (v.filled refl)
trim-line (c ∷ p) v = rw v.trimmed

split_lines-one : (s : Text) → All (λ c. c ≢ 10) s → split_lines s ≡ s ∷ []
unfolding split_lines
split_lines-one [] h = refl
split_lines-one (c ∷ s) h = ground (arith, split_lines-one s h.1)

line-one_line : (p : Text) → IsPayload p → All (λ c. c ≢ 10) (line p)
line-one_line p v = (
  omega arith,
  (omega arith, (omega arith, (omega arith, (omega arith, (omega arith, v.one_line))))),
)

data_lines-line : (p : Text) → data_lines (line p ∷ []) ≡ p ∷ []
unfolding data_lines
data_lines-line p = refl

-- The blocks of a stream of frames are its lines, and nothing remains.
split_blocks-frames :
    (ps : List Text)
    → All IsPayload ps
    → split_blocks (concat (map frame ps)) ≡ record { blocks = map line ps; rest = [] }
split_blocks-frames [] h = unfold split_blocks in refl
split_blocks-frames (p ∷ ps) (v, h) =
    ap split_blocks (append_assoc (line p) (10 ∷ 10 ∷ []) (concat (map frame ps)))
    ∙ split_blocks-line 100 (97 ∷ 116 ∷ 97 ∷ 58 ∷ 32 ∷ p) (concat (map frame ps))
        (line-one_line p v)
    ∙ rw (split_blocks-frames ps h) refl

module _ {S E : Type 0} (client : Client S E) where
  -- The payloads in order, up to the first that finishes the stream or throws.
  abbrev pub run_payloads : List Text → S → S × Signal
  run_payloads [] s = (s, more)
  run_payloads (p ∷ ps) s = then_blocks (process_payload client p s) (λ s'. run_payloads ps s')

  process_trimmed-line :
      (p : Text) (s : S)
      → IsPayload p
      → process_trimmed client (line p) s ≡ process_payload client p s
  unfolding process_trimmed process_event_block
  process_trimmed-line p s v =
      rw (trim-line p v, split_lines-one (line p) (line-one_line p v), data_lines-line p) refl

  run_blocks-lines :
      (ps : List Text) (s : S)
      → All IsPayload ps
      → run_blocks client (map line ps) s ≡ run_payloads ps s
  unfolding run_blocks
  run_blocks-lines [] s h = refl
  run_blocks-lines (p ∷ ps) s (v, h) =
      rw (process_trimmed-line p s v)
        (ap (then_blocks (process_payload client p s)) (fun_ext (λ s'. run_blocks-lines ps s' h)))

  -- How the promise settles if no payload ended the stream.
  abbrev pub settle : Ending → Signal
  settle closed = finished
  settle failed = thrown

  end_stream-nil : (ending : Ending) (s : S) → end_stream client ending [] s ≡ (s, settle ending)
  unfolding end_stream process_trimmed trim
  end_stream-nil closed s = refl
  end_stream-nil failed s = refl

  -- The round trip with the server's frames: whatever the chunks, if their text is the frames of
  -- some payloads (each on one line, not empty, with no white space at its end), the parser
  -- delivers exactly these payloads, in order, up to the first that finishes the stream or throws;
  -- if none does, the promise settles as the stream ends.
  pub parse_sse_stream-frames :
      (ending : Ending) (ps chunks : List Text) (s : S)
      → All IsPayload ps
      → concat chunks ≡ concat (map frame ps)
      → parse_sse_stream client ending chunks s
        ≡ then_blocks (run_payloads ps s) (λ s'. (s', settle ending))
  unfolding read_whole
  parse_sse_stream-frames ending ps chunks s v h =
      parse_sse_stream-eq-read_whole client ending chunks s
      ∙ rw (h, split_blocks-frames ps v, run_blocks-lines ps s v)
          (ap (then_blocks (run_payloads ps s)) (fun_ext (end_stream-nil ending)))
