-- ===== src/Sse/Split.antt =====
-- The splitting of a growing buffer into event blocks, `buffer.split(/\n\n|\r\n\r\n/)`.
use moonlit_ai_agent.Prelude.{
  ℕ, zero, suc, ◌≤◌, ◌≡◌, ◌≢◌, refl, ap, List, [], ◌∷◌, ◌++◌, Text, length, All, arith, ℕ-cases,
  List-cases, inl, inr, sym, ◌∙◌,
}
use moonlit_ai_agent.Sse.{separator_length, Pieces, keep_into, keep, cut, split_from, split_blocks}

-- Pieces of a text, followed by more text: the rest is split again with what follows.
abbrev pub continue : Pieces → Text → Pieces
continue p t = record {
  blocks = p.blocks ++ (split_blocks (p.rest ++ t)).blocks;
  rest = (split_blocks (p.rest ++ t)).rest;
}

-- A separator lies within the text.
separator_length-le : (s : Text) → separator_length s ≤ length s
unfolding separator_length
separator_length-le [] = omega arith
separator_length-le (a ∷ []) = ground arith
separator_length-le (a ∷ b ∷ []) = ground arith
separator_length-le (a ∷ b ∷ c ∷ []) = ground arith
separator_length-le (a ∷ b ∷ c ∷ d ∷ s) = ground arith

-- More text behind a separator does not change it.
separator_length-append :
    (s t : Text) → separator_length s ≢ 0 → separator_length (s ++ t) ≡ separator_length s
unfolding separator_length
separator_length-append [] t h = absurd (h refl)
separator_length-append (a ∷ []) t h = ground arith
separator_length-append (a ∷ b ∷ []) t h = ground arith
separator_length-append (a ∷ b ∷ c ∷ []) t h = ground arith
separator_length-append (a ∷ b ∷ c ∷ d ∷ s) t h = ground arith

split_from-keep :
    (c : ℕ) (s : Text)
    → separator_length (c ∷ s) ≡ 0
    → split_from 0 (c ∷ s) ≡ keep c (split_from 0 s)
unfolding split_from
split_from-keep c s h = rw h

split_from-cut :
    (c : ℕ) (s : Text) (m : ℕ)
    → separator_length (c ∷ s) ≡ suc m
    → split_from 0 (c ∷ s) ≡ cut (split_from m s)
unfolding split_from
split_from-cut c s m h = ground arith

keep_into-uncut : (c : ℕ) (bs : List Text) (r : Text) → (keep_into c bs r).blocks ≡ [] → bs ≡ []
keep_into-uncut c [] r h = refl
keep_into-uncut c (b ∷ bs) r h = cc

uncut : Text → Pieces
uncut s = record { blocks = []; rest = s }

-- Without a block the rest is the whole text.
split_from-uncut : (s : Text) → (split_from 0 s).blocks ≡ [] → split_from 0 s ≡ uncut s
unfolding uncut
split_from-uncut [] h = unfold split_from in refl
split_from-uncut (c ∷ s) h = elim (ℕ-cases (separator_length (c ∷ s))) [
  | inl e ↦ rw (split_from-keep c s e) (
      ap (keep c) (
        split_from-uncut s
          (keep_into-uncut c _ (split_from 0 s).rest (rw (split_from-keep c s e) at h))))
  | inr (m, e) ↦ let impossible = rw (split_from-cut c s m e) at h in cc impossible
]

-- A separator that more text completes begins a text with no block in it.
straddle :
    (c : ℕ) (s t : Text)
    → separator_length (c ∷ s) ≡ 0
    → separator_length (c ∷ s ++ t) ≢ 0
    → (split_from 0 s).blocks ≡ []
unfolding split_from separator_length
straddle c [] t h k = refl
straddle c (d ∷ []) t h k = ground arith
straddle c (d ∷ e ∷ []) t h k = ground arith
straddle c (d ∷ e ∷ f ∷ s) t h k = absurd (ground arith)

continue-uncut : (s t : Text) → continue (uncut s) t ≡ split_from 0 (s ++ t)
unfolding split_blocks uncut
continue-uncut s t = refl

keep-continue :
    (c : ℕ) (bs : List Text) (r t : Text)
    → bs ≢ []
    → keep c (continue (record { blocks = bs; rest = r }) t) ≡ continue (keep_into c bs r) t
keep-continue c [] r t h = absurd (h refl)
keep-continue c (b ∷ bs) r t h = refl

split_from-skip : (k c : ℕ) (s : Text) → split_from (suc k) (c ∷ s) ≡ split_from k s
unfolding split_from
split_from-skip k c s = refl

keep-uncut :
    (c : ℕ) (s : Text)
    → separator_length (c ∷ s) ≡ 0
    → (split_from 0 s).blocks ≡ []
    → split_from 0 (c ∷ s) ≡ uncut (c ∷ s)
unfolding uncut
keep-uncut c s e h = rw (split_from-keep c s e) (ap (keep c) (split_from-uncut s h))

rest_uncut : (s : Text) → split_from 0 s ≡ uncut s → (split_from 0 (uncut s).rest).blocks ≡ []
unfolding uncut
rest_uncut s h = rw h

keep_into-rest : (c : ℕ) (bs : List Text) (r : Text) → bs ≢ [] → (keep_into c bs r).rest ≡ r
keep_into-rest c [] r h = absurd (h refl)
keep_into-rest c (b ∷ bs) r h = refl

-- Splitting a text with more behind it: its own pieces, the rest split again with what follows.
split_from-append :
    (k : ℕ) (s t : Text) → k ≤ length s → split_from k (s ++ t) ≡ continue (split_from k s) t
split_from-append zero [] t h = unfold split_from split_blocks in refl
split_from-append (suc k) [] t h = absurd (omega arith)
split_from-append (suc k) (c ∷ s) t h =
    rw (split_from-skip k c (s ++ t), split_from-skip k c s) (split_from-append k s t (omega arith))
split_from-append zero (c ∷ s) t h = elim (ℕ-cases (separator_length (c ∷ s))) [
  | inr (m, e) ↦
      let e' = separator_length-append (c ∷ s) t (omega arith) ∙ e in
      rw (split_from-cut c (s ++ t) m e', split_from-cut c s m e)
        (ap cut (split_from-append m s t (omega (arith, separator_length-le (c ∷ s)))))
  | inl e ↦ elim (List-cases (split_from 0 s).blocks) [
    | inl none_yet ↦ rw (keep-uncut c s e none_yet) (sym (continue-uncut (c ∷ s) t))
    | inr some_block ↦ elim (ℕ-cases (separator_length (c ∷ s ++ t))) [
      | inl e' ↦
          rw (split_from-keep c (s ++ t) e', split_from-keep c s e)
            (ap (keep c) (split_from-append zero s t (omega arith))
              ∙ keep-continue c _ _ t some_block)
      | inr (m, e') ↦ absurd (some_block (straddle c s t e (omega arith)))
    ]
  ]
]

-- A text is split as its beginning, whose rest is split again with what follows: where the text is
-- divided does not matter.
pub split_blocks-append : (s t : Text) → split_blocks (s ++ t) ≡ continue (split_blocks s) t
unfolding split_blocks
split_blocks-append s t = split_from-append 0 s t (omega arith)

split_from-rest : (k : ℕ) (s : Text) → (split_from 0 (split_from k s).rest).blocks ≡ []
split_from-rest zero [] = unfold split_from in refl
split_from-rest (suc k) [] = unfold split_from in refl
split_from-rest (suc k) (c ∷ s) = rw (split_from-skip k c s) (split_from-rest k s)
split_from-rest zero (c ∷ s) = elim (ℕ-cases (separator_length (c ∷ s))) [
  | inr (m, e) ↦ rw (split_from-cut c s m e) (split_from-rest m s)
  | inl e ↦ elim (List-cases (split_from 0 s).blocks) [
    | inl none_yet ↦ let whole = keep-uncut c s e none_yet in rw whole (rest_uncut (c ∷ s) whole)
    | inr some_block ↦
        rw (split_from-keep c s e, keep_into-rest c _ (split_from 0 s).rest some_block)
          (split_from-rest zero s)
  ]
]

-- The rest holds no separator.
pub split_blocks-rest : (s : Text) → (split_blocks (split_blocks s).rest).blocks ≡ []
unfolding split_blocks
split_blocks-rest s = split_from-rest 0 s

blank_line : (t : Text) → split_from 0 (10 ∷ 10 ∷ t) ≡ cut (split_from 0 t)
unfolding split_from separator_length
blank_line t = refl

pub split_blocks-uncut :
    (s : Text) → (split_blocks s).blocks ≡ [] → split_blocks s ≡ record { blocks = []; rest = s }
unfolding split_blocks uncut
split_blocks-uncut s h = split_from-uncut s h

-- Within a line, and at its end before a blank line, no separator begins.
separator_length-line :
    (c : ℕ) (s t : Text) → All (λ x. x ≢ 10) (c ∷ s) → separator_length (c ∷ s ++ 10 ∷ 10 ∷ t) ≡ 0
unfolding separator_length
separator_length-line c [] t h = ground arith
separator_length-line c (d ∷ s) t h = ground arith

split_from-line :
    (c : ℕ) (s t : Text)
    → All (λ x. x ≢ 10) (c ∷ s)
    → split_from 0 (c ∷ s ++ 10 ∷ 10 ∷ t)
      ≡ record { blocks = (c ∷ s) ∷ (split_from 0 t).blocks; rest = (split_from 0 t).rest }
split_from-line c [] t h =
    rw (split_from-keep c _ (separator_length-line c [] t h)) (ap (keep c) (blank_line t))
split_from-line c (d ∷ s) t h =
    rw (split_from-keep c _ (separator_length-line c (d ∷ s) t h))
      (ap (keep c) (split_from-line d s t h.1))

-- A text with no line feed, before a blank line, is a block.
pub split_blocks-line :
    (c : ℕ) (s t : Text)
    → All (λ x. x ≢ 10) (c ∷ s)
    → split_blocks (c ∷ s ++ 10 ∷ 10 ∷ t)
      ≡ record { blocks = (c ∷ s) ∷ (split_blocks t).blocks; rest = (split_blocks t).rest }
unfolding split_blocks
split_blocks-line c s t h = split_from-line c s t h
