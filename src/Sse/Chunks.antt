-- ===== src/Sse/Chunks.antt =====
-- `parseSSEStream` does not depend on how the network divides the stream into chunks.
use mathlib.Core.Path.{fun_ext}
use moonlit_ai_agent.Prelude.{
  ◌≡◌, refl, ap, sym, ◌∙◌, List, [], ◌∷◌, ◌++◌, Text, concat, append_assoc, append-nil,
}
use moonlit_ai_agent.Sse.{
  Signal, more, finished, thrown, Ending, split_blocks, then_blocks, run_blocks, Client, end_stream,
  read_loop, parse_sse_stream,
}
use moonlit_ai_agent.Sse.Split.{split_blocks-append, split_blocks-rest, split_blocks-uncut}

then_blocks_assoc :
    {S : Type 0} (r : S × Signal) (f g : S → S × Signal)
    → then_blocks (then_blocks r f) g ≡ then_blocks r (λ s. then_blocks (f s) g)
unfolding then_blocks
then_blocks_assoc (s, more) f g = refl
then_blocks_assoc (s, finished) f g = refl
then_blocks_assoc (s, thrown) f g = refl

module _ {S E : Type 0} (client : Client S E) where
  run_blocks-append :
      (bs cs : List Text) (s : S)
      → run_blocks client (bs ++ cs) s
        ≡ then_blocks (run_blocks client bs s) (λ s'. run_blocks client cs s')
  unfolding run_blocks
  run_blocks-append [] cs s = unfold then_blocks in refl
  run_blocks-append (b ∷ bs) cs s =
      rw (fun_ext (run_blocks-append bs cs)) (sym (then_blocks_assoc _ _ _))

  -- The stream read as one text: every block that a separator ends, then what remains.
  unfoldable pub read_whole : Ending → Text → S → S × Signal
  read_whole ending text s =
      then_blocks (run_blocks client (split_blocks text).blocks s)
        (λ s'. end_stream client ending (split_blocks text).rest s')

  read_whole-append :
      (ending : Ending) (buffer chunk : Text) (s : S)
      → read_whole ending (buffer ++ chunk) s
        ≡ then_blocks
            (run_blocks client (split_blocks buffer).blocks s)
            (λ s'. read_whole ending ((split_blocks buffer).rest ++ chunk) s')
  unfolding read_whole
  read_whole-append ending buffer chunk s =
      rw (split_blocks-append buffer chunk, run_blocks-append) (then_blocks_assoc _ _ _)

  read_whole-uncut :
      (ending : Ending) (text : Text) (s : S)
      → (split_blocks text).blocks ≡ []
      → read_whole ending text s ≡ end_stream client ending text s
  unfolding read_whole run_blocks then_blocks
  read_whole-uncut ending text s h = rw (split_blocks-uncut text h)

  read_loop-eq-read_whole :
      (ending : Ending) (chunks : List Text) (buffer : Text) (s : S)
      → (split_blocks buffer).blocks ≡ []
      → read_loop client ending chunks buffer s ≡ read_whole ending (buffer ++ concat chunks) s
  unfolding read_loop
  read_loop-eq-read_whole ending [] buffer s h =
      rw (append-nil buffer) (sym (read_whole-uncut ending buffer s h))
  read_loop-eq-read_whole ending (chunk ∷ chunks) buffer s h =
      let pieces = split_blocks (buffer ++ chunk) in
      rw (← append_assoc buffer chunk (concat chunks), read_whole-append)
        (ap (then_blocks (run_blocks client pieces.blocks s)) (
          fun_ext
            (λ s'. read_loop-eq-read_whole ending chunks pieces.rest s' (split_blocks-rest _))))

  -- However the stream is divided into chunks, the parser does what the whole text asks for: the
  -- blocks that separators end are processed in order, up to the first that finishes or throws,
  -- and then, at a regular end, what remains.
  pub parse_sse_stream-eq-read_whole :
      (ending : Ending) (chunks : List Text) (s : S)
      → parse_sse_stream client ending chunks s ≡ read_whole ending (concat chunks) s
  unfolding parse_sse_stream split_blocks
  parse_sse_stream-eq-read_whole ending chunks s = read_loop-eq-read_whole ending chunks [] s refl

  -- Two divisions of one text into chunks lead to the same final state and the same end, for every
  -- parser of payloads, every callback and both ways in which a stream ends.
  pub parse_sse_stream-chunks :
      (ending : Ending) (xs ys : List Text) (s : S)
      → concat xs ≡ concat ys
      → parse_sse_stream client ending xs s ≡ parse_sse_stream client ending ys s
  parse_sse_stream-chunks ending xs ys s h =
      parse_sse_stream-eq-read_whole ending xs s
      ∙ ap (λ t. read_whole ending t s) h
      ∙ sym (parse_sse_stream-eq-read_whole ending ys s)
