-- ===== src/Notifications.antt =====
-- front-end/src/hooks/useNotifications.js: the toasts of the page.
pub mod Bounds
mod Examples
use moonlit_ai_agent.Prelude.{
  ℕ, ◌+◌, ◌-◌, Bool, true, false, Option, none, some, List, [], ◌∷◌, ◌++◌, Text, codes, trim,
  is_space, is_empty, length, take, drop, filter, not, ltb, leb, ◌==◌, ◌&&◌, ◌||◌, if◌then◌else◌,
}

abbrev pub max_notifications : ℕ
max_notifications = 4

abbrev pub snackbar_message_limit : ℕ
snackbar_message_limit = 120

-- `.replace(/\s+/g, ' ')`; the flag tells whether a run of white space goes on.
unfoldable pub collapse : Bool → Text → Text
unfolding is_space
collapse inside [] = []
collapse inside (c ∷ s) =
    let rest = collapse (is_space c) s in
    if is_space c then if inside then rest else 32 ∷ rest else c ∷ rest

abbrev is_stop : ℕ → Bool
is_stop c = c == 46 || c == 33 || c == 63

abbrev begins_with_space : Text → Bool
begins_with_space [] = false
begins_with_space (c ∷ s) = is_space c

-- `text.search(/[.!?]\s/)`.
unfoldable pub search_sentence : Text → Option ℕ
unfolding is_space
search_sentence [] = none
search_sentence (c ∷ s) =
    let rest = search_sentence s in
    if is_stop c && begins_with_space s
    then some 0
    else elim rest [ none ↦ none | some i ↦ some (i + 1) ]

-- Cut off, with an ellipsis.
abbrev pub shortened : Text → Text
shortened t = trim (take (snackbar_message_limit - 1) t) ++ 0x2026 ∷ []

abbrev pub first_sentence : Option ℕ → Text → Text
first_sentence none t = shortened t
first_sentence (some n) t =
    if ltb 24 n && leb n snackbar_message_limit then take (n + 1) t else shortened t

abbrev pub compacted : Text → Text → Text
compacted fallback t =
    if is_empty t
    then fallback
    else if leb (length t) snackbar_message_limit
    then t
    else first_sentence (search_sentence t) t

unfoldable pub get_compact_snackbar_message : Text → Text → Text
get_compact_snackbar_message message fallback = compacted fallback (trim (collapse false message))

pub data ToastType : Type 0 where
  success error warning info loading : ToastType
  other : Text → ToastType

pub record Toast : Type 0 where
  pub id : ℕ
  pub type : ToastType
  pub title : Text
  pub message : Option Text
  pub duration : Option ℕ

pub record Notifications : Type 0 where
  pub notifications : List Toast
  pub next_id : ℕ

abbrev pub no_notifications : Notifications
no_notifications = record { notifications = []; next_id = 1 }

abbrev default_duration : ToastType → Option ℕ
default_duration success = some 3000
default_duration error = some 5000
default_duration warning = some 4000
default_duration info = some 4000
default_duration loading = none
default_duration (other t) = none

abbrev duration_or : Option ℕ → Option ℕ → Option ℕ
duration_or none d = d
duration_or (some n) d = some n

abbrev pub keep_newest : List Toast → List Toast
keep_newest next =
    if ltb max_notifications (length next)
    then drop (length next - max_notifications) next
    else next

abbrev pub new_toast : ℕ → ToastType → Text → Option Text → Option ℕ → Toast
new_toast id type title message duration = record {
  id = id;
  type = type;
  title = get_compact_snackbar_message title (codes "Guidance available");
  message = message;
  duration = duration_or duration (default_duration type);
}

unfoldable pub add_toast :
    ToastType → Text → Option Text → Option ℕ → Notifications → Notifications × ℕ
add_toast type title message duration s = (
  record {
    notifications =
        keep_newest (s.notifications ++ new_toast s.next_id type title message duration ∷ []);
    next_id = s.next_id + 1;
  },
  s.next_id,
)

unfoldable pub remove_toast : ℕ → Notifications → Notifications
remove_toast id s = record s { notifications = filter (λ t. not (t.id == id)) s.notifications }

-- `handleCloseSnackbar`.
unfoldable pub close_snackbar : Notifications → Notifications
close_snackbar s = record s { notifications = [] }
