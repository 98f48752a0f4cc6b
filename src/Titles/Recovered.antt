-- ===== src/Titles/Recovered.antt =====
-- Titles that older code made are recovered from the first message of their conversation.
use moonlit_ai_agent.Prelude.{
  ℕ, ◌<◌, ◌≡◌, ◌⊎◌, zero, suc, refl, ap, ◌∙◌, true, false, [], ◌∷◌, ◌++◌, Text, trim, trim_start,
  trim_end, is_space, is_empty, take, length, any, text_eq_refl, Bool-cases, inl, inr, arith,
  cons_kept,
}
use moonlit_ai_agent.Titles.{
  dots, title_max_length, legacy_lengths, build_conversation_title, is_legacy_title,
  recover_legacy_conversation_title,
}

-- No white space at the beginning.
abbrev BeginsFilled : Text → Type 0
BeginsFilled [] = Unit
BeginsFilled (c ∷ s) = is_space c ≡ false

trim_start-BeginsFilled : (s : Text) → BeginsFilled (trim_start s)
unfolding trim_start
trim_start-BeginsFilled [] = tt
trim_start-BeginsFilled (c ∷ s) = elim (Bool-cases (is_space c)) [
  | inl h ↦ rw h (trim_start-BeginsFilled s)
  | inr h ↦ rw h h
]

cons_kept-BeginsFilled : (c : ℕ) (s : Text) → is_space c ≡ false → BeginsFilled (cons_kept c s)
cons_kept-BeginsFilled c [] h = rw h h
cons_kept-BeginsFilled c (d ∷ s) h = h

trim_end-BeginsFilled : (s : Text) → BeginsFilled s → BeginsFilled (trim_end s)
unfolding trim_end
trim_end-BeginsFilled [] v = tt
trim_end-BeginsFilled (c ∷ s) v = cons_kept-BeginsFilled c (trim_end s) v

trim_start-filled : (s : Text) → BeginsFilled s → trim_start s ≡ s
unfolding trim_start
trim_start-filled [] v = refl
trim_start-filled (c ∷ s) v = rw v refl

take-BeginsFilled : (n : ℕ) (s : Text) → BeginsFilled s → BeginsFilled (take n s)
take-BeginsFilled zero s v = tt
take-BeginsFilled (suc n) [] v = tt
take-BeginsFilled (suc n) (c ∷ s) v = v

append-BeginsFilled : (s t : Text) → BeginsFilled s → BeginsFilled t → BeginsFilled (s ++ t)
append-BeginsFilled [] t v w = w
append-BeginsFilled (c ∷ s) t v w = v

dots-BeginsFilled : BeginsFilled dots
unfolding is_space
dots-BeginsFilled = refl

trim_end-dots : (s : Text) → trim_end (s ++ dots) ≡ s ++ dots
unfolding trim_end is_space
trim_end-dots [] = refl
trim_end-dots (c ∷ []) = refl
trim_end-dots (c ∷ d ∷ s) = rw (trim_end-dots (d ∷ s)) refl

trim_end-cons_kept : (c : ℕ) (s : Text) → trim_end s ≡ s → trim_end (cons_kept c s) ≡ cons_kept c s
unfolding trim_end
trim_end-cons_kept c [] h = elim (Bool-cases (is_space c)) [
  | inl e ↦ rw e refl
  | inr e ↦ rw e (rw e refl)
]
trim_end-cons_kept c (d ∷ s) h = ap (cons_kept c) h

trim_end-trim_end : (s : Text) → trim_end (trim_end s) ≡ trim_end s
unfolding trim_end
trim_end-trim_end [] = refl
trim_end-trim_end (c ∷ s) = trim_end-cons_kept c (trim_end s) (trim_end-trim_end s)

trim-BeginsFilled : (s : Text) → BeginsFilled (trim s)
unfolding trim
trim-BeginsFilled s = trim_end-BeginsFilled (trim_start s) (trim_start-BeginsFilled s)

pub trim-trim : (s : Text) → trim (trim s) ≡ trim s
unfolding trim
trim-trim s =
    ap trim_end (trim_start-filled (trim s) (trim-BeginsFilled s))
    ∙ trim_end-trim_end (trim_start s)

trim-legacy : (n : ℕ) (s : Text) → BeginsFilled s → trim (take n s ++ dots) ≡ take n s ++ dots
unfolding trim
trim-legacy n s v =
    ap trim_end (
      trim_start-filled (take n s ++ dots)
        (append-BeginsFilled (take n s) dots (take-BeginsFilled n s v) dots-BeginsFilled))
    ∙ trim_end-dots (take n s)

is_legacy_title-taken :
    (n : ℕ) (s : Text) → n < length s → is_legacy_title (take n s ++ dots) s n ≡ true
unfolding is_legacy_title
is_legacy_title-taken n s h = rw text_eq_refl (ground arith)

longer-filled : (n : ℕ) (s : Text) → n < length s → is_empty s ≡ false
longer-filled n [] h = ground (arith, h)
longer-filled n (c ∷ s) h = refl

taken-is_legacy :
    (n : ℕ) (s : Text)
    → (n ≡ 40) ⊎ (n ≡ 50)
    → n < length s
    → any (is_legacy_title (take n s ++ dots) s) legacy_lengths ≡ true
taken-is_legacy n s k h = elim k [
  | inl e ↦ ground (arith, e, is_legacy_title-taken n s h)
  | inr e ↦ ground (arith, e, is_legacy_title-taken n s h)
]

-- A title that is the first 40 or 50 code units of the trimmed message and three dots, where the
-- message is longer than that, is recovered: it becomes the title that is built of the message now.
pub recover_legacy_conversation_title-taken :
    (n : ℕ) (message : Text)
    → (n ≡ 40) ⊎ (n ≡ 50)
    → n < length (trim message)
    → recover_legacy_conversation_title (take n (trim message) ++ dots) message
      ≡ build_conversation_title message
unfolding recover_legacy_conversation_title build_conversation_title
recover_legacy_conversation_title-taken n message k h =
    let s = trim message in
    rw (trim-legacy n s (trim-BeginsFilled message), longer-filled n s h, taken-is_legacy n s k h)
      (ap (take title_max_length) (trim-trim message))
