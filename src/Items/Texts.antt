-- ===== src/Items/Texts.antt =====
-- The text that a timeline shows.
use moonlit_ai_agent.Prelude.{
  ◌≡◌, refl, sym, ap, ◌∙◌, Bool, Option, some, List, [], ◌∷◌, ◌++◌, map, Text, codes, append_assoc,
  append-nil, arith,
}
use moonlit_ai_agent.Prelude.Json.{Value}
use moonlit_ai_agent.Message.{Item, text, thinking, tool, skill}
use moonlit_ai_agent.Items.{
  append_token, append_thinking, complete_thinking, start_tool, finish_tool, end_tool, is_skill,
  extend_skill, update_first, activate_skills, has_id, set_status, show_status, step_id, text_or,
}

abbrev pub item_text : Item → Text
item_text (text id content) = content
item_text (thinking _ _ _) = []
item_text (tool _ _ _ _ _) = []
item_text (skill _ _) = []

-- The contents of the text entries, in order.
unfoldable pub timeline_text : List Item → Text
timeline_text [] = []
timeline_text (i ∷ is) = item_text i ++ timeline_text is

pub timeline_text-append :
    (is js : List Item) → timeline_text (is ++ js) ≡ timeline_text is ++ timeline_text js
unfolding timeline_text
timeline_text-append [] js = refl
timeline_text-append (i ∷ is) js =
    rw (timeline_text-append is js) (sym (append_assoc (item_text i) _ _))

timeline_text-map :
    (f : Item → Item) (is : List Item)
    → ((i : Item) → item_text (f i) ≡ item_text i)
    → timeline_text (map f is) ≡ timeline_text is
unfolding timeline_text
timeline_text-map f [] h = refl
timeline_text-map f (i ∷ is) h = rw (h i, timeline_text-map f is h) refl

-- A token goes to the end of the text.
pub timeline_text-append_token :
    (content : Text) (all is : List Item)
    → timeline_text (append_token content all is) ≡ timeline_text is ++ content
unfolding timeline_text append_token
timeline_text-append_token content all [] = append-nil content
timeline_text-append_token content all (text id old ∷ []) =
    append-nil (old ++ content) ∙ ap (◌++ content) (sym (append-nil old))
timeline_text-append_token content all (thinking id old c ∷ []) = append-nil content
timeline_text-append_token content all (tool id n st a r ∷ []) = append-nil content
timeline_text-append_token content all (skill id s ∷ []) = append-nil content
timeline_text-append_token content all (i ∷ j ∷ is) =
    rw (timeline_text-append_token content all (j ∷ is)) (sym (append_assoc (item_text i) _ _))

-- Nothing else changes it.
pub timeline_text-append_thinking :
    (content : Text) (all is : List Item)
    → timeline_text (append_thinking content all is) ≡ timeline_text is
unfolding timeline_text append_thinking
timeline_text-append_thinking content all [] = refl
timeline_text-append_thinking content all (text id old ∷ []) = refl
timeline_text-append_thinking content all (thinking id old c ∷ []) = refl
timeline_text-append_thinking content all (tool id n st a r ∷ []) = refl
timeline_text-append_thinking content all (skill id s ∷ []) = refl
timeline_text-append_thinking content all (i ∷ j ∷ is) =
    ap (item_text i ++◌) (timeline_text-append_thinking content all (j ∷ is))

item_text-complete_thinking : (i : Item) → item_text (complete_thinking i) ≡ item_text i
item_text-complete_thinking (thinking id content c) = refl
item_text-complete_thinking _ = refl

pub timeline_text-start_tool :
    (name : Text) (args : Value) (is : List Item)
    → timeline_text (start_tool name args is) ≡ timeline_text is
unfolding start_tool timeline_text
timeline_text-start_tool name args is =
    timeline_text-append (map complete_thinking is) _
    ∙ ap (◌++ []) (timeline_text-map complete_thinking is item_text-complete_thinking)
    ∙ append-nil _

item_text-finish_tool :
    (args result : Value) (i : Item) → item_text (finish_tool args result i) ≡ item_text i
item_text-finish_tool args result (tool id n s a r) = refl
item_text-finish_tool args result _ = refl

pub timeline_text-end_tool :
    (name : Text) (args result : Value) (is : List Item)
    → timeline_text (end_tool name args result is) ≡ timeline_text is
unfolding timeline_text end_tool
timeline_text-end_tool name args result [] = refl
timeline_text-end_tool name args result (i ∷ is) =
    ground (arith, timeline_text-end_tool name args result is, item_text-finish_tool args result i)

timeline_text-update_first :
    (test : Item → Bool) (change : Item → Item) (is : List Item)
    → ((i : Item) → item_text (change i) ≡ item_text i)
    → timeline_text (update_first test change is) ≡ timeline_text is
unfolding timeline_text update_first
timeline_text-update_first test change [] h = refl
timeline_text-update_first test change (i ∷ is) h =
    ground (arith, h i, timeline_text-update_first test change is h)

item_text-extend_skill :
    (incoming : List Text) (i : Item) → item_text (extend_skill incoming i) ≡ item_text i
item_text-extend_skill incoming (skill id s) = refl
item_text-extend_skill incoming _ = refl

timeline_text-append_silent :
    (is : List Item) (i : Item) → item_text i ≡ [] → timeline_text (is ++ i ∷ []) ≡ timeline_text is
unfolding timeline_text
timeline_text-append_silent is i h =
    timeline_text-append is (i ∷ []) ∙ rw h (append-nil (timeline_text is))

pub timeline_text-activate_skills :
    (incoming : List Text) (is : List Item)
    → timeline_text (activate_skills incoming is) ≡ timeline_text is
unfolding activate_skills
timeline_text-activate_skills incoming is = ground (
  arith,
  timeline_text-update_first is_skill (extend_skill incoming) is (item_text-extend_skill incoming),
  timeline_text-append_silent is (skill (some (codes "skills-activated")) incoming) refl,
)

item_text-set_status :
    (content : Text) (is_done : Bool) (i : Item)
    → item_text (set_status content is_done i) ≡ item_text i
item_text-set_status content is_done (thinking id c d) = refl
item_text-set_status content is_done _ = refl

pub timeline_text-show_status :
    (stage content : Option Text) (is_done : Bool) (is : List Item)
    → timeline_text (show_status stage content is_done is) ≡ timeline_text is
unfolding show_status
timeline_text-show_status stage content is_done is =
    let shown = text_or content (codes "Preparing context") in
    ground (
      arith,
      timeline_text-update_first (has_id (step_id stage)) (set_status shown is_done) is
          (item_text-set_status shown is_done),
      timeline_text-append_silent is (thinking (some (step_id stage)) shown is_done) refl,
    )
