-- ===== src/Notifications/Examples.antt =====
-- Five toasts.
use moonlit_ai_agent.Prelude.{
  ℕ, zero, suc, ◌≡◌, refl, none, List, [], ◌∷◌, Text, codes, length, map, trim,
}
use moonlit_ai_agent.Notifications.{
  success, no_notifications, get_compact_snackbar_message, add_toast, remove_toast, collapse,
  search_sentence,
}
use moonlit_ai_agent.Notifications.Bounds.{
  ToastAction, adds, removes, toast_acts, IsWellFormed, toast_acts-IsWellFormed,
}

abbrev saves : ToastAction
saves = adds success (codes "Saved") none none

abbrev actions : List ToastAction
actions = saves ∷ saves ∷ removes 1 ∷ saves ∷ saves ∷ saves ∷ saves ∷ []

newest_four :
    map (λ t. t.id) (toast_acts actions no_notifications).notifications ≡ 3 ∷ 4 ∷ 5 ∷ 6 ∷ []
unfolding add_toast remove_toast
newest_four = refl

toast_acts-IsWellFormed_example : IsWellFormed (toast_acts actions no_notifications)
toast_acts-IsWellFormed_example = toast_acts-IsWellFormed actions

abbrev repeated : ℕ → Text → Text
repeated zero t = t
repeated (suc n) t = 97 ∷ repeated n t

-- The first sentence ends right at the limit.
one_too_long :
    length (get_compact_snackbar_message (repeated 120 (codes ". b")) (codes "Guidance available"))
    ≡ 121
unfolding get_compact_snackbar_message collapse trim search_sentence
one_too_long = refl
