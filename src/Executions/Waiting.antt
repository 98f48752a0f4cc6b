-- ===== src/Executions/Waiting.antt =====
-- front-end/src/api/conversations.js: the end of a read makes room for one that waits.
use moonlit_ai_agent.Prelude.{
  ℕ, ◌-◌, ◌≡◌, ◌∙◌, inl, inr, refl, ap, Bool, some, List, [], ◌∷◌, ◌++◌, find, ◌==◌,
}
use moonlit_ai_agent.Executions.{
  Read, Executions, no_executions, drain, settle, remove_read, forget, max_concurrent,
}
use moonlit_ai_agent.Executions.Steps.{Step, steps}
use moonlit_ai_agent.Executions.Scheduled.{settle-found, steps-no_executions-IsScheduled}

-- With four reads running nothing more is begun.
drain-full :
    (rs running : List Read) (started : List ℕ) (s : Executions)
    → drain rs max_concurrent running started s
      ≡ record s { active = max_concurrent; queue = rs; running = running; started = started }
unfolding drain
drain-full [] running started s = refl
drain-full (r ∷ rs) running started s = refl

drain-one :
    (r : Read) (rs running : List Read) (started : List ℕ) (s : Executions)
    → drain (r ∷ rs) 3 running started s ≡ record s {
      active = max_concurrent;
      queue = rs;
      running = running ++ r ∷ [];
      started = started ++ r.id ∷ [];
    }
unfolding drain
drain-one r rs running started s = drain-full rs (running ++ r ∷ []) (started ++ r.id ∷ []) s

-- In any order of calls and ends of reads, when a read that runs comes to its end, good or bad, and
-- others wait, the one that has waited longest is begun at once, and no other.
pub settle-next :
    (all : List Step) (n : ℕ) (ok : Bool) (r next : Read) (rest : List Read)
    → find (λ (q : Read). q.id == n) (steps all no_executions).running ≡ some r
    → (steps all no_executions).queue ≡ next ∷ rest
    → ((settle n ok (steps all no_executions)).started
        ≡ (steps all no_executions).started ++ next.id ∷ [])
      × ((settle n ok (steps all no_executions)).queue ≡ rest)
      × ((settle n ok (steps all no_executions)).active ≡ max_concurrent)
settle-next all n ok r next rest found waits =
    let s = steps all no_executions in
    let h = steps-no_executions-IsScheduled all in
    let full : s.active ≡ max_concurrent = elim h.busy [ inl idle ↦ absurd cc | inr four ↦ four ] in
    let over = settle-found n ok s r found in
    let t = record s { requests = forget ok r.key s.requests } in
    let here : drain s.queue (s.active - 1) (remove_read n s.running) s.started t
        ≡ drain (next ∷ rest) 3 (remove_read n s.running) s.started t =
      rw (waits, full) in
    let e = over ∙ here ∙ drain-one next rest (remove_read n s.running) s.started t in
    (ap (λ u. u.started) e, ap (λ u. u.queue) e, ap (λ u. u.active) e)
