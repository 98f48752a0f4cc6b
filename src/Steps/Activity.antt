-- ===== src/Steps/Activity.antt =====
-- Whether the steps of a message still go on, against the timeline that they come from.
use moonlit_ai_agent.Prelude.{
  ℕ, ◌+◌, ◌≡◌, ◌↔◌, refl, ap, ◌∙◌, Bool, true, false, not, ◌||◌, Option, none, List, [], ◌∷◌, ◌++◌,
  any, map, filter, arith,
}
use moonlit_ai_agent.Message.{Item}
use moonlit_ai_agent.Message.Upsert.{MessageData}
use moonlit_ai_agent.Timeline.{Stream}
use moonlit_ai_agent.Response.{build_message_data, settle_thinking, is_text_item, base_or_none}
use moonlit_ai_agent.Steps.{
  Step, is_running, normalize_from, normalize_steps, is_active_step, is_any_step_active,
  are_all_steps_complete, get_current_step_index, is_complete_step, normalize_tool,
}

-- A call that runs, or reasoning that is not complete.
abbrev pub is_running_item : Item → Bool
is_running_item (Item.tool id name status args result) = is_running status
is_running_item _ = false

abbrev pub is_active_item : Item → Bool
is_active_item (Item.thinking id content complete) = not complete
is_active_item (Item.tool id name status args result) = is_running status
is_active_item _ = false

active-normalize_from :
    (idx : ℕ) (items : List Item)
    → any is_active_step (normalize_from idx items) ≡ any is_active_item items
unfolding normalize_from normalize_tool
active-normalize_from idx [] = refl
active-normalize_from idx (Item.text id c ∷ items) = active-normalize_from (idx + 1) items
active-normalize_from idx (Item.skill id s ∷ items) = active-normalize_from (idx + 1) items
active-normalize_from idx (Item.thinking id c d ∷ items) =
    ap (not d ||◌) (active-normalize_from (idx + 1) items)
active-normalize_from idx (Item.tool id n s a r ∷ items) =
    ap (is_running s ||◌) (active-normalize_from (idx + 1) items)

-- Steps are active exactly if the timeline they come from has a call that runs or reasoning that is
-- not complete.
pub is_any_step_active-normalize_steps :
    (items : List Item) → is_any_step_active (normalize_steps items) ≡ any is_active_item items
unfolding is_any_step_active normalize_steps
is_any_step_active-normalize_steps items = active-normalize_from 0 items

complete-active : (s : Step) → is_complete_step s ≡ not (is_active_step s)
complete-active (Step.thinking id c d) = ground arith
complete-active (Step.skill id s) = refl
complete-active (Step.tool id n act a r running e) = refl

-- The three views of a list of steps agree: with no stream all are complete exactly if none is
-- active, and the index of the current step is there exactly if one is.
pub steps_agree :
    (steps : List Step)
    → (are_all_steps_complete steps false ≡ not (is_any_step_active steps))
      × ((get_current_step_index steps ≡ none) ↔ (is_any_step_active steps ≡ false))
unfolding are_all_steps_complete is_any_step_active get_current_step_index
steps_agree [] = ground arith
steps_agree (s ∷ steps) = ground (arith, steps_agree steps, complete-active s)

any-filter :
    (p q : Item → Bool) (items : List Item)
    → ((i : Item) → p i ≡ true → q i ≡ true)
    → any p (filter q items) ≡ any p items
any-filter p q [] h = refl
any-filter p q (i ∷ items) h = ground (arith, any-filter p q items h, h i)

any-append : (p : Item → Bool) (xs ys : List Item) → any p (xs ++ ys) ≡ (any p xs || any p ys)
any-append p [] ys = refl
any-append p (x ∷ xs) ys = ground (arith, any-append p xs ys)

active-is_step : (i : Item) → is_active_item i ≡ true → not (is_text_item i) ≡ true
active-is_step (Item.text id c) h = cc
active-is_step (Item.thinking id c d) h = refl
active-is_step (Item.tool id n s a r) h = refl
active-is_step (Item.skill id s) h = refl

any-settled :
    (items : List Item)
    → any is_active_item (map (settle_thinking true) items) ≡ any is_running_item items
any-settled [] = refl
any-settled (Item.text id c ∷ items) = any-settled items
any-settled (Item.thinking id c d ∷ items) = any-settled items
any-settled (Item.tool id n s a r ∷ items) = ap (is_running s ||◌) (any-settled items)
any-settled (Item.skill id s ∷ items) = any-settled items

pub active-build_message_data :
    (base : Option MessageData) (s : Stream)
    → is_any_step_active (normalize_steps (build_message_data base true s).steps)
      ≡ (any is_active_item (base_or_none base).steps || any is_running_item s.event_timeline)
unfolding build_message_data
active-build_message_data base s =
    let settled = map (settle_thinking true) s.event_timeline in
    is_any_step_active-normalize_steps _
    ∙ any-append is_active_item (base_or_none base).steps _
    ∙ ap (any is_active_item (base_or_none base).steps ||◌) (
        any-filter is_active_item (λ i. not (is_text_item i)) settled active-is_step
        ∙ any-settled s.event_timeline)
