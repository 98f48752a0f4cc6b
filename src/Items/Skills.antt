-- ===== src/Items/Skills.antt =====
-- The skills that a timeline shows.
use moonlit_ai_agent.Prelude.{
  ◌≡◌, refl, sym, ap, ◌∙◌, true, some, List, [], ◌∷◌, ◌++◌, append_assoc, append-nil, Text, any,
  is_empty, ◌||◌, codes, if◌then◌else◌, arith, text_eq_iff, Bool-cases, inl, inr,
}
use moonlit_ai_agent.Message.{Item, text, thinking, tool, skill}
use moonlit_ai_agent.Items.{
  contains, add_new, unique, is_skill, extend_skill, update_first, activate_skills,
}

contains-append :
    (t : Text) (xs ys : List Text) → contains t (xs ++ ys) ≡ (contains t xs || contains t ys)
contains-append t [] ys = refl
contains-append t (x ∷ xs) ys = ground (arith, contains-append t xs ys)

contains-add_new :
    (t : Text) (seen ts : List Text)
    → contains t (add_new seen ts) ≡ (contains t seen || contains t ts)
unfolding add_new
contains-add_new t seen [] = ground arith
contains-add_new t seen (u ∷ ts) = ground (
  arith,
  contains-add_new t seen ts,
  contains-add_new t (seen ++ u ∷ []) ts,
  contains-append t seen (u ∷ []),
  text_eq_iff u t,
)

-- The skills of the timeline, by its skill entries.
abbrev skills_of : Item → List Text
skills_of (skill id skills) = skills
skills_of (text _ _) = []
skills_of (thinking _ _ _) = []
skills_of (tool _ _ _ _ _) = []

unfoldable pub timeline_skills : List Item → List Text
timeline_skills [] = []
timeline_skills (i ∷ is) = skills_of i ++ timeline_skills is

contains-unique : (t : Text) (ts : List Text) → contains t (unique ts) ≡ contains t ts
unfolding unique
contains-unique t ts = contains-add_new t [] ts

skills-update_first :
    (t : Text) (incoming : List Text) (is : List Item)
    → any is_skill is ≡ true
    → contains t (timeline_skills (update_first is_skill (extend_skill incoming) is))
      ≡ (contains t (timeline_skills is) || contains t incoming)
unfolding timeline_skills update_first
skills-update_first t incoming [] h = cc
skills-update_first t incoming (skill id skills ∷ is) h = ground (
  arith,
  contains-append t (unique (skills ++ incoming)) (timeline_skills is),
  contains-append t skills (timeline_skills is),
  contains-append t skills incoming,
  contains-unique t (skills ++ incoming),
)
skills-update_first t incoming (text id c ∷ is) h = skills-update_first t incoming is h
skills-update_first t incoming (thinking id c d ∷ is) h = skills-update_first t incoming is h
skills-update_first t incoming (tool id n s a r ∷ is) h = skills-update_first t incoming is h

skills-append :
    (is js : List Item) → timeline_skills (is ++ js) ≡ timeline_skills is ++ timeline_skills js
unfolding timeline_skills
skills-append [] js = refl
skills-append (i ∷ is) js =
    rw (skills-append is js)
      (sym (append_assoc (skills_of i) (timeline_skills is) (timeline_skills js)))

contains-added :
    (t : Text) (incoming : List Text) (items : List Item)
    → contains t (
        timeline_skills (
          if is_empty incoming
          then items
          else items ++ skill (some (codes "skills-activated")) incoming ∷ []))
      ≡ (contains t (timeline_skills items) || contains t incoming)
contains-added t [] items = ground arith
contains-added t (u ∷ us) items =
    ap (contains t) (skills-append items (skill (some (codes "skills-activated")) (u ∷ us) ∷ []))
    ∙ contains-append t (timeline_skills items) _
    ∙ unfold timeline_skills in
      ap (λ x. contains t (timeline_skills items) || contains t x) (append-nil (u ∷ us))

-- When the server activates skills, the timeline shows exactly the skills that it showed before and
-- the new ones, whether it had an entry for skills or not.
pub contains-activate_skills :
    (t : Text) (incoming : List Text) (items : List Item)
    → contains t (timeline_skills (activate_skills incoming items))
      ≡ (contains t (timeline_skills items) || contains t incoming)
unfolding activate_skills
contains-activate_skills t incoming items = elim (Bool-cases (any is_skill items)) [
  | inl h ↦ rw h (skills-update_first t incoming items h)
  | inr h ↦ rw h (contains-added t incoming items)
]
