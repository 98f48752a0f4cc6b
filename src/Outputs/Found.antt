-- ===== src/Outputs/Found.antt =====
-- front-end/src/features/chat/conversationOutputs.js: blocks that are written are found.
use moonlit_ai_agent.Prelude.{
  ℕ, ◌+◌, ◌-◌, Bool, true, not, ◌&&◌, none, some, List, [], ◌∷◌, ◌++◌, Text, codes, length,
  length-append, append_assoc, append-nil, ◌==◌, all, ◌≡◌, refl, sym, ap, ◌∙◌, arith,
}
use moonlit_ai_agent.Outputs.Fences.{Fence, fences, scan, match_fence, until_ticks}

-- No character is a backtick.
abbrev pub is_plain : Text → Bool
is_plain t = all (λ c. not (c == 96)) t

pub record Block : Type 0 where
  pub before : Text
  pub query : Text

-- A text with a block of SQL for each query, and an end.
abbrev pub written : List Block → Text → Text
written [] end' = end'
written (b ∷ bs) end' =
    b.before ++ (codes "```sql\n" ++ (b.query ++ (codes "```" ++ written bs end')))

abbrev pub fences_from : ℕ → List Block → List Fence
fences_from i [] = []
fences_from i (b ∷ bs) =
    record { index = i + length b.before; language = codes "sql"; code = b.query }
    ∷ fences_from (i + length b.before + length b.query + 10) bs

match_fence-plain : (c : ℕ) (s : Text) → not (c == 96) ≡ true → match_fence (c ∷ s) ≡ none
unfolding match_fence
match_fence-plain c s h = ground arith

scan_plain : (t r : Text) (i : ℕ) → is_plain t ≡ true → scan 0 i (t ++ r) ≡ scan 0 (i + length t) r
unfolding scan
scan_plain [] r i h = ap (λ n. scan 0 n r) (omega arith)
scan_plain (c ∷ t) r i h =
    let first : not (c == 96) ≡ true = ground arith in
    let rest : is_plain t ≡ true = ground arith in
    rw (match_fence-plain c (t ++ r) first, scan)
      (scan_plain t r (i + 1) rest ∙ ap (λ n. scan 0 n r) (omega arith))

scan_skip : (t r : Text) (i : ℕ) → scan (length t) i (t ++ r) ≡ scan 0 (i + length t) r
unfolding scan
scan_skip [] r i = ap (λ n. scan 0 n r) (omega arith)
scan_skip (c ∷ t) r i = scan_skip t r (i + 1) ∙ ap (λ n. scan 0 n r) (omega arith)

until_ticks-append :
    (q r : Text) → is_plain q ≡ true → until_ticks (q ++ (codes "```" ++ r)) ≡ some (q, r)
unfolding until_ticks
until_ticks-append [] r h = refl
until_ticks-append (c ∷ q) r h =
    let rest : is_plain q ≡ true = ground arith in ground (arith, until_ticks-append q r rest)

match_fence-written :
    (q r : Text)
    → is_plain q ≡ true
    → match_fence (codes "```sql\n" ++ (q ++ (codes "```" ++ r))) ≡ some (codes "sql", q, r)
unfolding match_fence
match_fence-written q r h = rw (until_ticks-append q r h)

-- Behind the first character of a block the rest of it is passed over.
scan_past :
    (u t r : Text) (i : ℕ) → u ≡ t ++ r → scan (length u - length r) i u ≡ scan 0 (i + length t) r
scan_past u t r i e =
    let n : length (t ++ r) - length r ≡ length t = omega (arith, length-append t r) in
    rw (e, n) (scan_skip t r i)

scan-block :
    (q r : Text) (i : ℕ)
    → is_plain q ≡ true
    → scan 0 i (codes "```sql\n" ++ (q ++ (codes "```" ++ r)))
      ≡ record { index = i; language = codes "sql"; code = q } ∷ scan 0 (i + length q + 10) r
unfolding scan
scan-block q r i h =
    let block = codes "``sql\n" ++ (q ++ codes "```") in
    let whole = codes "``sql\n" ++ (q ++ (codes "```" ++ r)) in
    let parts : whole ≡ block ++ r =
      ap (λ t. codes "``sql\n" ++ t) (sym (append_assoc q (codes "```") r)) in
    let size : i + 1 + length block ≡ i + length q + 10 =
      omega (arith, length-append q (codes "```")) in
    rw (match_fence-written q r h, scan)
      (ap (λ rest. record { index = i; language = codes "sql"; code = q } ∷ rest)
        (scan_past whole block r (i + 1) parts ∙ ap (λ n. scan 0 n r) size))

scan-written :
    (bs : List Block) (end' : Text) (i : ℕ)
    → all (λ b. is_plain b.before && is_plain b.query) bs ≡ true
    → is_plain end' ≡ true
    → scan 0 i (written bs end') ≡ fences_from i bs
scan-written [] end' i h e =
    ap (scan 0 i) (sym (append-nil end')) ∙ scan_plain end' [] i e ∙ (unfold scan in refl)
scan-written (b ∷ bs) end' i h e =
    let before : is_plain b.before ≡ true = ground arith in
    let query : is_plain b.query ≡ true = ground arith in
    let rest : all (λ b. is_plain b.before && is_plain b.query) bs ≡ true = ground arith in
    let block : Fence = record {
      index = i + length b.before;
      language = codes "sql";
      code = b.query;
    } in
    scan_plain b.before (codes "```sql\n" ++ (b.query ++ (codes "```" ++ written bs end'))) i before
    ∙ scan-block b.query (written bs end') (i + length b.before) query
    ∙ ap (λ fs. block ∷ fs)
        (scan-written bs end' (i + length b.before + length b.query + 10) rest e)

-- Of a text in which blocks of SQL stand, neither they nor what is between them having a backtick, each
-- block's query is found, in order and at its place, and nothing else is.
pub fences-written :
    (bs : List Block) (end' : Text)
    → all (λ b. is_plain b.before && is_plain b.query) bs ≡ true
    → is_plain end' ≡ true
    → fences (written bs end') ≡ fences_from 0 bs
unfolding fences
fences-written bs end' h e = scan-written bs end' 0 h e
