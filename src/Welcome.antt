-- ===== src/Welcome.antt =====
-- front-end/src/features/chat/welcomeSuggestions.js: the greeting of an empty chat and what its suggestions
-- do. A time is the number of milliseconds since midnight, on a day of twenty-four hours.
pub mod Boundary
pub mod Guarded
mod Examples
use moonlit_ai_agent.Prelude.{
  ℕ, zero, suc, ◌+◌, ◌-◌, ◌*◌, ◌/◌, ◌%◌, Bool, true, false, not, ◌&&◌, ◌||◌, Option, none, some,
  List, [], ◌∷◌, ◌++◌, Text, codes, is_space, trim, any, ltb, leb, ◌==◌, if◌then◌else◌,
}

abbrev pub hour_ms : ℕ
hour_ms = 3600000

abbrev pub day_ms : ℕ
day_ms = 86400000

pub data Period : Type 0 where
  morning afternoon evening night : Period

unfoldable pub get_welcome_period : ℕ → Period
get_welcome_period time =
    let hour = time / hour_ms in
    if leb 5 hour && ltb hour 12
    then morning
    else if leb 12 hour && ltb hour 17
    then afternoon
    else if leb 17 hour && ltb hour 21
    then evening
    else night

abbrev period_text : Period → Text
period_text morning = codes "this morning"
period_text afternoon = codes "this afternoon"
period_text evening = codes "this evening"
period_text night = codes "tonight"

abbrev pub welcome_period_boundary_hours : List ℕ
welcome_period_boundary_hours = 5 ∷ 12 ∷ 17 ∷ 21 ∷ []

-- The next of the hours, or the first one of the next day.
abbrev pub delay_to : List ℕ → ℕ → ℕ
delay_to [] time = day_ms + 5 * hour_ms - time
delay_to (hour ∷ hours) time =
    if ltb time (hour * hour_ms) then hour * hour_ms - time else delay_to hours time

unfoldable pub get_welcome_period_boundary_delay : ℕ → ℕ
get_welcome_period_boundary_delay time = delay_to welcome_period_boundary_hours time

abbrev until_space : Text → Text
until_space [] = []
until_space (c ∷ s) = if is_space c then [] else c ∷ until_space s

abbrev suffix : Text → Text
suffix [] = []
suffix (c ∷ name) = codes ", " ++ (c ∷ name)

abbrev name_of : Option Text → Text
name_of none = []
name_of (some name) = trim name

unfoldable pub get_welcome_greeting : ℕ → Option Text → Text
unfolding get_welcome_period trim is_space
get_welcome_greeting time display_name =
    codes "What are we exploring "
    ++ (period_text (get_welcome_period time)
        ++ (suffix (until_space (name_of display_name)) ++ codes "?"))

pub data Entry : Type 0 where
  prompt : (id label text : Text) → Entry
  open_database : (id label : Text) → Entry

pub record Availability : Type 0 where
  pub prompt_disabled : Bool
  pub can_open_database : Bool

unfoldable pub is_welcome_entry_disabled : Availability → Option Entry → Bool
is_welcome_entry_disabled a none = true
is_welcome_entry_disabled a (some (prompt id label text)) = a.prompt_disabled
is_welcome_entry_disabled a (some (open_database id label)) = not a.can_open_database

unfoldable pub is_welcome_category_disabled : Availability → List Entry → Bool
unfolding is_welcome_entry_disabled
is_welcome_category_disabled a entries =
    not (any (λ e. not (is_welcome_entry_disabled a (some e))) entries)

pub data Key : Type 0 where
  home end arrow_down arrow_right arrow_up arrow_left other : Key

abbrev index_for : Key → ℕ → ℕ → Option ℕ
index_for home current count = some 0
index_for end current count = some (count - 1)
index_for arrow_down current count = some ((current + 1) % count)
index_for arrow_right current count = some ((current + 1) % count)
index_for arrow_up current count = some ((current + count - 1) % count)
index_for arrow_left current count = some ((current + count - 1) % count)
index_for other current count = none

unfoldable pub get_suggestion_navigation_index : Key → ℕ → ℕ → Option ℕ
get_suggestion_navigation_index key current count =
    if count == 0 then none else index_for key current count

-- What a page that can send or open a database is asked to do, if anything.
pub data Request : Type 0 where
  sends : Text → Request
  opens_database : Request

unfoldable pub run_welcome_entry : (can_send can_open : Bool) → Option Entry → Option Request
run_welcome_entry can_send can_open none = none
run_welcome_entry can_send can_open (some (prompt id label text)) =
    if can_send then some (sends text) else none
run_welcome_entry can_send can_open (some (open_database id label)) =
    if can_open then some opens_database else none

-- What a function that is run comes to: it returns whether it has done something, or it throws.
pub data Outcome : Type 0 where
  returned : Bool → Outcome
  thrown : Outcome

-- `none` if it was not run.
abbrev pub stage_over : Outcome → Option Outcome × Bool
stage_over (returned b) = (some (returned true), true)
stage_over thrown = (some thrown, false)

-- The guard is whether it is locked. It is left locked where something has begun.
unfoldable pub begin_welcome_stage_transition : Outcome → Bool → Option Outcome × Bool
begin_welcome_stage_transition o true = (none, true)
begin_welcome_stage_transition o false = stage_over o

abbrev pub activation_over : Outcome → Option Outcome × Bool
activation_over (returned handled) = (some (returned handled), handled)
activation_over thrown = (some thrown, false)

unfoldable pub run_guarded_welcome_activation : Outcome → Bool → Option Outcome × Bool
run_guarded_welcome_activation o true = (none, true)
run_guarded_welcome_activation o false = activation_over o

abbrev pub complete_transition : Bool → Bool
complete_transition locked = false
