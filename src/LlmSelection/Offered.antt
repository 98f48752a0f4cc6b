-- ===== src/LlmSelection/Offered.antt =====
-- front-end/src/config/llmSelection.js: that what is selected is there.
use moonlit_ai_agent.Prelude.{
  Bool, true, false, Option, none, some, List, [], ◌∷◌, Text, text_eq, text_eq_refl, find, filter,
  ◌≡◌, ◌⊎◌, inl, inr, refl, Bool-cases, Option-cases, if◌then◌else◌,
}
use moonlit_ai_agent.LlmSelection.{
  Provider, Options, Preferences, has_models, includes_model, find_named, head, or_else,
  text_or_empty, select_model, selection_of, resolve_llm_selection,
}

abbrev pub IsIn : Provider → List Provider → Type 0
IsIn p [] = ⊥
IsIn p (q ∷ ps) = (p ≡ q) ⊎ IsIn p ps

-- The provider is one of the list with the name, and has the model.
pub record Offers (providers : List Provider) (name model : Text) : Type 0 where
  pub provider : Provider
  pub listed : IsIn provider providers
  pub named : provider.name ≡ name
  pub has : includes_model (some model) provider.models ≡ true

includes_model-if :
    (wish : Option Text) (rest : Text) (models : List Text)
    → includes_model (some rest) models ≡ true
    → includes_model (some (if includes_model wish models then text_or_empty wish else rest)) models
      ≡ true
includes_model-if none rest models h = h
includes_model-if (some w) rest models h = elim (Bool-cases (includes_model (some w) models)) [
  | inl e ↦ rw e e
  | inr e ↦ rw e h
]

select_model-includes :
    (saved standard : Option Text) (m : Text) (ms : List Text)
    → includes_model (some (select_model saved standard (m ∷ ms))) (m ∷ ms) ≡ true
select_model-includes saved standard m ms =
    includes_model-if saved _ (m ∷ ms) (includes_model-if standard m (m ∷ ms) (rw (text_eq_refl m)))

IsIn-find :
    (f : Provider → Bool) (ps : List Provider) (p : Provider) → find f ps ≡ some p → IsIn p ps
IsIn-find f [] p h = cc
IsIn-find f (q ∷ ps) p h = elim (Bool-cases (f q)) [
  | inl e ↦ let k : some q ≡ some p = rw e at h in inl (cc)
  | inr e ↦ inr (IsIn-find f ps p (rw e at h))
]

IsIn-find_named :
    (name : Option Text) (ps : List Provider) (p : Provider)
    → find_named name ps ≡ some p
    → IsIn p ps
IsIn-find_named none ps p h = cc
IsIn-find_named (some name) ps p h = IsIn-find (λ q. text_eq q.name name) ps p h

IsIn-head : (ps : List Provider) (p : Provider) → head ps ≡ some p → IsIn p ps
IsIn-head [] p h = cc
IsIn-head (q ∷ ps) p h = inl (cc)

kept-IsIn :
    (q : Provider) (ps : List Provider) (p : Provider)
    → has_models q ≡ true
    → (IsIn p (filter has_models ps) → IsIn p ps × (has_models p ≡ true))
    → (p ≡ q) ⊎ IsIn p (filter has_models ps)
    → ((p ≡ q) ⊎ IsIn p ps) × (has_models p ≡ true)
kept-IsIn q ps p e ih (inl same) = (inl same, rw same e)
kept-IsIn q ps p e ih (inr later) = let r = ih later in (inr r.0, r.1)

IsIn-filter :
    (ps : List Provider) (p : Provider)
    → IsIn p (filter has_models ps)
    → IsIn p ps × (has_models p ≡ true)
IsIn-filter [] p h = absurd h
IsIn-filter (q ∷ ps) p h = elim (Bool-cases (has_models q)) [
  | inl e ↦ kept-IsIn q ps p e (IsIn-filter ps p) (rw e at h)
  | inr e ↦ let r = IsIn-filter ps p (rw e at h) in (inr r.0, r.1)
]

IsIn-or_else :
    (a b : Option Provider) (ps : List Provider) (p : Provider)
    → (a ≡ some p → IsIn p ps)
    → (b ≡ some p → IsIn p ps)
    → or_else a b ≡ some p
    → IsIn p ps
IsIn-or_else none b ps p ha hb h = hb h
IsIn-or_else (some q) b ps p ha hb h = ha h

no_head :
    (a b : Option Provider) (ps : List Provider) → or_else a (or_else b (head ps)) ≡ none → ps ≡ []
no_head none none [] h = refl
no_head none none (p ∷ ps) h = cc
no_head none (some q) ps h = cc
no_head (some q) b ps h = cc

selection_of-Offers :
    (o : Options) (s : Preferences) (p : Provider) (models : List Text)
    → p.models ≡ models
    → IsIn p o.providers
    → has_models p ≡ true
    → Offers o.providers
        (selection_of o s (some p)).selected_provider
        (selection_of o s (some p)).selected_model
selection_of-Offers o s p [] e i h = let k : false ≡ true = rw e at h in cc
selection_of-Offers o s p (m ∷ ms) e i h = record {
  provider = p;
  listed = i;
  named = refl;
  has = rw e (select_model-includes s.llm_model p.default_model m ms);
}

-- The model that is selected is one that the selected provider of the deployment has, whatever the
-- preferences and the defaults say; only where no provider has a model are both of them empty.
pub resolve_llm_selection-Offers :
    (o : Options) (s : Preferences)
    → ((filter has_models o.providers ≡ [])
        × (((resolve_llm_selection o s).selected_provider ≡ [])
            × ((resolve_llm_selection o s).selected_model ≡ [])))
      ⊎ Offers o.providers
          (resolve_llm_selection o s).selected_provider
          (resolve_llm_selection o s).selected_model
unfolding resolve_llm_selection
resolve_llm_selection-Offers o s =
    let ps = filter has_models o.providers in
    let a = find_named s.llm_provider ps in
    let b = find_named o.default_provider ps in
    elim (Option-cases (or_else a (or_else b (head ps)))) [
      | inl e ↦ rw e (inl (no_head a b ps e, (refl, refl)))
      | inr (p, e) ↦
          let r = IsIn-filter o.providers p (
            IsIn-or_else a (or_else b (head ps)) ps p (IsIn-find_named s.llm_provider ps p)
              (IsIn-or_else b (head ps) ps p (IsIn-find_named o.default_provider ps p)
                (IsIn-head ps p))
              e) in
          rw e (inr (selection_of-Offers o s p p.models refl r.0 r.1))
    ]
