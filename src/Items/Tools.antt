-- ===== src/Items/Tools.antt =====
-- Which call of a tool a `tool_end` finishes.
use moonlit_ai_agent.Prelude.{
  codes, ◌≡◌, refl, ap, ◌∙◌, Bool, true, false, Option, some, List, [], ◌∷◌, ◌++◌, map, Text, any,
  ◌||◌, if◌then◌else◌, arith, text_eq, text_eq_iff, ℕ, ◌+◌, ◌-◌, ◌≤◌,
}
use mathlib.Core.Path.{ap₂}
use moonlit_ai_agent.Prelude.Json.{Value}
use moonlit_ai_agent.Message.{Item, text, thinking, tool, skill, ToolStatus}
use moonlit_ai_agent.Items.{
  complete_thinking, start_tool, is_running_tool, finish_tool, end_tool, append_token,
  append_thinking, update_first, extend_skill, set_status, activate_skills, show_status, is_skill,
  has_id, step_id, text_or,
}

any-append : (p : Item → Bool) (xs ys : List Item) → any p (xs ++ ys) ≡ (any p xs || any p ys)
any-append p [] ys = refl
any-append p (x ∷ xs) ys = ground (arith, any-append p xs ys)

-- The last running call of the tool is finished, and no other entry changes: those before and those
-- behind it stay as they are, running calls before it included.
pub end_tool-last :
    (name : Text) (args result : Value) (before after : List Item) (i : Item)
    → is_running_tool name i ≡ true
    → any (is_running_tool name) after ≡ false
    → end_tool name args result (before ++ i ∷ after) ≡ before ++ finish_tool args result i ∷ after
unfolding end_tool
end_tool-last name args result [] after i h k = rw (k, h)
end_tool-last name args result (b ∷ before) after i h k =
    let found : any (is_running_tool name) (before ++ i ∷ after) ≡ true =
      ground (arith, any-append (is_running_tool name) before (i ∷ after)) in
    rw (found, end_tool-last name args result before after i h k)

-- A report on a tool with no running call changes nothing.
pub end_tool-none :
    (name : Text) (args result : Value) (items : List Item)
    → any (is_running_tool name) items ≡ false
    → end_tool name args result items ≡ items
unfolding end_tool
end_tool-none name args result [] h = refl
end_tool-none name args result (i ∷ is) h = ground (arith, end_tool-none name args result is)

abbrev pub one_if : Bool → ℕ
one_if true = 1
one_if false = 0

-- How many calls of the tool run.
unfoldable pub running_count : Text → List Item → ℕ
running_count name [] = 0
running_count name (i ∷ is) = one_if (is_running_tool name i) + running_count name is

is_running_tool-finish_tool :
    (name : Text) (args result : Value) (i : Item)
    → is_running_tool name (finish_tool args result i) ≡ false
is_running_tool-finish_tool name args result (tool id n s a r) = refl
is_running_tool-finish_tool name args result _ = refl

one_if-any-le :
    (name : Text) (is : List Item) → one_if (any (is_running_tool name) is) ≤ running_count name is
unfolding running_count
one_if-any-le name [] = omega arith
one_if-any-le name (i ∷ is) = ground (arith, one_if-any-le name is)

running_count-none :
    (name : Text) (is : List Item)
    → any (is_running_tool name) is ≡ false
    → running_count name is ≡ 0
unfolding running_count
running_count-none name [] h = refl
running_count-none name (i ∷ is) h = ground (arith, running_count-none name is)

-- A call that runs is of one tool.
is_running_tool-eq :
    (m n : Text) (i : Item) → is_running_tool m i ≡ true → is_running_tool n i ≡ text_eq m n
is_running_tool-eq m n (tool id k ToolStatus.running a r) h = ground (arith, text_eq_iff k m)
is_running_tool-eq m n (tool id k ToolStatus.done a r) h = cc
is_running_tool-eq m n (tool id k ToolStatus.error a r) h = cc
is_running_tool-eq m n (tool id k (ToolStatus.other t) a r) h = cc
is_running_tool-eq m n (text id c) h = cc
is_running_tool-eq m n (thinking id c d) h = cc
is_running_tool-eq m n (skill id c) h = cc

-- Of the running calls of the tool there is one less, of others there are as many as before.
pub running_count-end_tool :
    (m name : Text) (args result : Value) (is : List Item)
    → running_count m (end_tool name args result is)
      ≡ (if text_eq name m then running_count m is - 1 else running_count m is)
unfolding running_count end_tool
running_count-end_tool m name args result [] = ground arith
running_count-end_tool m name args result (i ∷ is) = ground (
  arith,
  running_count-end_tool m name args result is,
  one_if-any-le name is,
  running_count-none name is,
  is_running_tool-eq name m i,
  is_running_tool-finish_tool m args result i,
  text_eq_iff name m,
)

running_count-append :
    (m : Text) (is js : List Item)
    → running_count m (is ++ js) ≡ running_count m is + running_count m js
unfolding running_count
running_count-append m [] js = omega arith
running_count-append m (i ∷ is) js = omega (arith, running_count-append m is js)

running_count-map-complete_thinking :
    (m : Text) (is : List Item) → running_count m (map complete_thinking is) ≡ running_count m is
unfolding running_count
running_count-map-complete_thinking m [] = refl
running_count-map-complete_thinking m (thinking id c d ∷ is) =
    ap (0 +◌) (running_count-map-complete_thinking m is)
running_count-map-complete_thinking m (i ∷ is) =
    ap (one_if (is_running_tool m i) +◌) (running_count-map-complete_thinking m is)

pub running_count-start_tool :
    (m name : Text) (args : Value) (is : List Item)
    → running_count m (start_tool name args is) ≡ running_count m is + one_if (text_eq name m)
unfolding start_tool
running_count-start_tool m name args is =
    running_count-append m (map complete_thinking is) _
    ∙ unfold running_count in ap₂ ◌+◌ (running_count-map-complete_thinking m is) (omega arith)

-- The other events change no tool call.
pub running_count-append_token :
    (m content : Text) (all is : List Item)
    → running_count m (append_token content all is) ≡ running_count m is
unfolding running_count append_token
running_count-append_token m content all [] = refl
running_count-append_token m content all (text id c ∷ []) = refl
running_count-append_token m content all (thinking id c d ∷ []) = refl
running_count-append_token m content all (tool id n s a r ∷ []) = omega arith
running_count-append_token m content all (skill id s ∷ []) = refl
running_count-append_token m content all (i ∷ j ∷ is) =
    ap (one_if (is_running_tool m i) +◌) (running_count-append_token m content all (j ∷ is))

pub running_count-append_thinking :
    (m content : Text) (all is : List Item)
    → running_count m (append_thinking content all is) ≡ running_count m is
unfolding running_count append_thinking
running_count-append_thinking m content all [] = refl
running_count-append_thinking m content all (text id c ∷ []) = refl
running_count-append_thinking m content all (thinking id c d ∷ []) = refl
running_count-append_thinking m content all (tool id n s a r ∷ []) = omega arith
running_count-append_thinking m content all (skill id s ∷ []) = refl
running_count-append_thinking m content all (i ∷ j ∷ is) =
    ap (one_if (is_running_tool m i) +◌) (running_count-append_thinking m content all (j ∷ is))

running_count-update_first :
    (m : Text) (test : Item → Bool) (change : Item → Item) (is : List Item)
    → ((i : Item) → is_running_tool m (change i) ≡ is_running_tool m i)
    → running_count m (update_first test change is) ≡ running_count m is
unfolding running_count update_first
running_count-update_first m test change [] h = refl
running_count-update_first m test change (i ∷ is) h =
    ground (arith, h i, running_count-update_first m test change is h)

running-extend_skill :
    (m : Text) (incoming : List Text) (i : Item)
    → is_running_tool m (extend_skill incoming i) ≡ is_running_tool m i
running-extend_skill m incoming (skill id s) = refl
running-extend_skill m incoming _ = refl

running-set_status :
    (m content : Text) (is_done : Bool) (i : Item)
    → is_running_tool m (set_status content is_done i) ≡ is_running_tool m i
running-set_status m content is_done (thinking id c d) = refl
running-set_status m content is_done _ = refl

running_count-append_idle :
    (m : Text) (is : List Item) (i : Item)
    → is_running_tool m i ≡ false
    → running_count m (is ++ i ∷ []) ≡ running_count m is
running_count-append_idle m is i h =
    running_count-append m is (i ∷ []) ∙ unfold running_count in rw h (omega arith)

pub running_count-activate_skills :
    (m : Text) (incoming : List Text) (is : List Item)
    → running_count m (activate_skills incoming is) ≡ running_count m is
unfolding activate_skills
running_count-activate_skills m incoming is = ground (
  arith,
  running_count-update_first m is_skill (extend_skill incoming) is
      (running-extend_skill m incoming),
  running_count-append_idle m is (skill (some (codes "skills-activated")) incoming) refl,
)

pub running_count-show_status :
    (m : Text) (stage content : Option Text) (is_done : Bool) (is : List Item)
    → running_count m (show_status stage content is_done is) ≡ running_count m is
unfolding show_status
running_count-show_status m stage content is_done is =
    let shown = text_or content (codes "Preparing context") in
    ground (
      arith,
      running_count-update_first m (has_id (step_id stage)) (set_status shown is_done) is
          (running-set_status m shown is_done),
      running_count-append_idle m is (thinking (some (step_id stage)) shown is_done) refl,
    )
