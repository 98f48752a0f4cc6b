-- ===== src/FormValidation/Issues.antt =====
-- front-end/src/hooks/useFormValidation.js: which of a field's issues is shown.
use moonlit_ai_agent.Prelude.{
  ℕ, Bool, true, false, not, Option, none, some, List, [], ◌∷◌, Text, text_eq, text_eq_iff,
  text_eq_refl, is_empty, all, lookup, lookup-insert, if◌then◌else◌, ◌≡◌, refl, sym, ap, arith, ◌∙◌,
  Bool-cases, Option-cases, inl, inr,
}
use moonlit_ai_agent.FormValidation.{
  Issue, failure, Errors, has_error, add_at, add_issues, validate_form,
}

abbrev is_of : Text → Option Text → Bool
is_of name none = false
is_of name (some field) = text_eq field name

-- The message of the first issue of a field.
abbrev pub first_of : Text → List Issue → Option Text
first_of name [] = none
first_of name (i ∷ is) = if is_of name i.field then some i.message else first_of name is

abbrev or_later : Option Text → Option Text → Option Text
or_later none later = later
or_later (some m) later = some m

-- No error is without a text.
FilledAt : Text → Errors → Type 0
FilledAt name errors = (m : Text) → lookup name errors ≡ some m → is_empty m ≡ false

or_later-none : (o : Option Text) → or_later o none ≡ o
or_later-none none = refl
or_later-none (some m) = refl

kept_error :
    (c : ℕ) (s message : Text) (errors : Errors)
    → FilledAt (c ∷ s) errors
    → lookup (c ∷ s) (add_at (some (c ∷ s)) message errors)
      ≡ or_later (lookup (c ∷ s) errors) (some message)
unfolding FilledAt
kept_error c s message errors h = elim (Option-cases (lookup (c ∷ s) errors)) [
  | inl e ↦ rw e (lookup-insert (c ∷ s) (c ∷ s) message errors ∙ rw (text_eq_refl (c ∷ s)))
  | inr (m, e) ↦ rw (e, h m e) e
]

other_error :
    (c : ℕ) (s name message : Text) (errors : Errors)
    → text_eq name (c ∷ s) ≡ false
    → lookup (c ∷ s) (add_at (some name) message errors) ≡ or_later (lookup (c ∷ s) errors) none
other_error c s [] message errors e = sym (or_later-none (lookup (c ∷ s) errors))
other_error c s (d ∷ t) message errors e = elim (Bool-cases (has_error (d ∷ t) errors)) [
  | inl has ↦ rw has (sym (or_later-none (lookup (c ∷ s) errors)))
  | inr has ↦ rw has (
      lookup-insert (d ∷ t) (c ∷ s) message errors
      ∙ rw e (sym (or_later-none (lookup (c ∷ s) errors))))
]

lookup-add_at :
    (c : ℕ) (s : Text) (field : Option Text) (message : Text) (errors : Errors)
    → FilledAt (c ∷ s) errors
    → is_empty message ≡ false
    → lookup (c ∷ s) (add_at field message errors)
      ≡ or_later (lookup (c ∷ s) errors) (if is_of (c ∷ s) field then some message else none)
lookup-add_at c s none message errors h e = sym (or_later-none (lookup (c ∷ s) errors))
lookup-add_at c s (some []) message errors h e =
    let other : text_eq [] (c ∷ s) ≡ false = ground (arith, text_eq_iff [] (c ∷ s)) in
    rw other (sym (or_later-none (lookup (c ∷ s) errors)))
lookup-add_at c s (some (d ∷ t)) message errors h e = elim (Bool-cases (text_eq (d ∷ t) (c ∷ s))) [
  | inl same ↦
      rw ((text_eq_iff (d ∷ t) (c ∷ s)).0 same, text_eq_refl (c ∷ s))
        (kept_error c s message errors h)
  | inr other ↦ rw other (other_error c s (d ∷ t) message errors other)
]

or_later-if :
    (t : Bool) (m : Text) (later : Option Text)
    → or_later (if t then some m else none) later ≡ (if t then some m else later)
or_later-if true m later = refl
or_later-if false m later = refl

or_later_assoc : (a b c : Option Text) → or_later (or_later a b) c ≡ or_later a (or_later b c)
or_later_assoc none b c = refl
or_later_assoc (some m) b c = refl

add_at-FilledAt :
    (c : ℕ) (s : Text) (field : Option Text) (message : Text) (errors : Errors)
    → FilledAt (c ∷ s) errors
    → is_empty message ≡ false
    → FilledAt (c ∷ s) (add_at field message errors)
unfolding FilledAt
add_at-FilledAt c s field message errors h e m k =
    ground (arith, lookup-add_at c s field message errors h e, h m)

lookup-add_issues :
    (is : List Issue) (c : ℕ) (s : Text) (errors : Errors)
    → FilledAt (c ∷ s) errors
    → all (λ i. not (is_empty i.message)) is ≡ true
    → lookup (c ∷ s) (add_issues is errors) ≡ or_later (lookup (c ∷ s) errors) (first_of (c ∷ s) is)
lookup-add_issues [] c s errors h e = sym (or_later-none (lookup (c ∷ s) errors))
lookup-add_issues (i ∷ is) c s errors h e =
    let filled : is_empty i.message ≡ false = ground arith in
    let rest : all (λ j. not (is_empty j.message)) is ≡ true = ground arith in
    lookup-add_issues is c s (add_at i.field i.message errors)
      (add_at-FilledAt c s i.field i.message errors h filled) rest
    ∙ rw (lookup-add_at c s i.field i.message errors h filled) (
        or_later_assoc (lookup (c ∷ s) errors) _ _
        ∙ ap (or_later (lookup (c ∷ s) errors))
            (or_later-if (is_of (c ∷ s) i.field) i.message (first_of (c ∷ s) is)))

-- When a schema does not take a form and each of its issues has a message, the form is invalid, and each
-- field with a name shows the message of its first issue, and nothing if it has none, whatever the
-- form showed before.
pub lookup-validate_form :
    (issues : List Issue) (c : ℕ) (s : Text) (errors : Errors)
    → all (λ i. not (is_empty i.message)) issues ≡ true
    → ((validate_form (failure issues) errors).1 ≡ false)
      × (lookup (c ∷ s) (validate_form (failure issues) errors).0 ≡ first_of (c ∷ s) issues)
unfolding validate_form FilledAt
lookup-validate_form issues c s errors e = (
  refl,
  lookup-add_issues issues c s [] (λ m k. absurd (unfold lookup in (cc))) e
      ∙ (unfold lookup in refl),
)
