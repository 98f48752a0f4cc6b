-- ===== src/FormValidation.antt =====
-- front-end/src/hooks/useFormValidation.js: the errors that a form shows. A schema is a function from the
-- value to its issues, none for a value that it takes; the schemas are another library's. No field is
-- named like a member that every object has.
pub mod Issues
mod Examples
use moonlit_ai_agent.Prelude.{
  Bool, true, false, not, Option, none, some, List, [], ◌∷◌, Text, codes, is_empty, Dict, lookup,
  insert, delete, if◌then◌else◌,
}

-- The first part of the path, if there is one, and the message.
pub record Issue : Type 0 where
  pub field : Option Text
  pub message : Text

-- The issues of a value that a schema does not take.
pub data Parsed : Type 0 where
  success : Parsed
  failure : List Issue → Parsed

abbrev pub Errors : Type 0
Errors = Dict Text

abbrev filled_or : Text → Text → Text
filled_or [] t = t
filled_or (c ∷ s) t = c ∷ s

abbrev first_message : List Issue → Text
first_message [] = codes "Invalid value"
first_message (i ∷ is) = filled_or i.message (codes "Invalid value")

abbrev field_over : Text → Parsed → Errors → Errors × Bool
field_over name success errors = (delete name errors, true)
field_over name (failure issues) errors = (insert name (first_message issues) errors, false)

-- A field without a schema is valid.
unfoldable pub validate_field : Option Parsed → Text → Errors → Errors × Bool
unfolding insert delete
validate_field none name errors = (errors, true)
validate_field (some parsed) name errors = field_over name parsed errors

-- An error without a text counts as none.
abbrev pub is_shown : Option Text → Bool
is_shown none = false
is_shown (some m) = not (is_empty m)

abbrev pub has_error : Text → Errors → Bool
has_error name errors = is_shown (lookup name errors)

abbrev pub add_at : Option Text → Text → Errors → Errors
add_at none message errors = errors
add_at (some []) message errors = errors
add_at (some (c ∷ name)) message errors =
    if has_error (c ∷ name) errors then errors else insert (c ∷ name) message errors

abbrev pub add_issues : List Issue → Errors → Errors
add_issues [] errors = errors
add_issues (i ∷ is) errors = add_issues is (add_at i.field i.message errors)

unfoldable pub validate_form : Parsed → Errors → Errors × Bool
validate_form success errors = ([], true)
validate_form (failure issues) errors = (add_issues issues [], false)

unfoldable pub clear_error : Text → Errors → Errors
unfolding delete
clear_error name errors = if has_error name errors then delete name errors else errors

abbrev pub reset_errors : Errors → Errors
reset_errors errors = []

abbrev pub has_errors : Errors → Bool
has_errors errors = not (is_empty errors)
