-- ===== src/FormValidation/Examples.antt =====
-- A form with two issues of one field.
use moonlit_ai_agent.Prelude.{false, none, some, List, [], ◌∷◌, ◌≡◌, refl, codes, text_eq, lookup}
use moonlit_ai_agent.FormValidation.{Issue, failure, Errors, validate_form}
use moonlit_ai_agent.FormValidation.Issues.{lookup-validate_form}

abbrev issues : List Issue
issues =
    record { field = none; message = codes "Passwords do not match" }
    ∷ record { field = some (codes "port"); message = codes "Port is required" }
    ∷ record { field = some (codes "port"); message = codes "Port must be between 1 and 65535" }
    ∷ []

abbrev shown : Errors
shown = (codes "host", codes "Host is required") ∷ []

lookup-validate_form_example :
    ((validate_form (failure issues) shown).1 ≡ false)
    × (lookup (codes "port") (validate_form (failure issues) shown).0
        ≡ some (codes "Port is required"))
unfolding text_eq
lookup-validate_form_example = lookup-validate_form issues 112 (codes "ort") shown refl
