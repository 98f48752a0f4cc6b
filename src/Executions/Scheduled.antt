-- ===== src/Executions/Scheduled.antt =====
-- front-end/src/api/conversations.js: how many reads run, and in which order they start.
use mathlib.Core.Path.{subst}
use moonlit_ai_agent.Prelude.{
  ℕ, zero, suc, ◌+◌, ◌-◌, ◌≤◌, ◌≡◌, ◌∙◌, inl, inr, ◌⊎◌, refl, sym, ap, Bool, none, some, List, [],
  ◌∷◌, ◌++◌, Text, length, find, map, ltb, ltb→lt, ◌==◌, length-append, append_assoc, Bool-cases,
  Option-cases, arith, lookup, Dict,
}
use moonlit_ai_agent.Executions.{
  Read, Executions, no_executions, drain, schedule, issue, new_read, cache_key,
  get_execution_result, settle, max_concurrent, remove_read, forget,
}
use moonlit_ai_agent.Executions.Steps.{Step, ask, ends, step, steps}

abbrev ids : List Read → List ℕ
ids rs = map (λ r. r.id) rs

-- The numbers below a bound, in their order.
pub below : ℕ → List ℕ
below zero = []
below (suc n) = below n ++ n ∷ []

-- The count is that of the reads that run, at most four. A read waits only while four run. The reads
-- that have started and those that wait are all that were asked for, in the order of the calls.
pub record IsScheduled (s : Executions) : Type 0 where
  pub counted : s.active ≡ length s.running
  pub bounded : s.active ≤ max_concurrent
  pub busy : (s.queue ≡ []) ⊎ (s.active ≡ max_concurrent)
  pub in_order : s.started ++ ids s.queue ≡ below s.issued

ids-append : (rs qs : List Read) → ids (rs ++ qs) ≡ ids rs ++ ids qs
ids-append [] qs = refl
ids-append (r ∷ rs) qs = ap (◌∷◌ r.id) (ids-append rs qs)

drain-IsScheduled :
    (rs : List Read) (active : ℕ) (running : List Read) (started : List ℕ) (s : Executions)
    → active ≡ length running
    → active ≤ max_concurrent
    → started ++ ids rs ≡ below s.issued
    → IsScheduled (drain rs active running started s)
unfolding drain
drain-IsScheduled [] active running started s counted bounded order = record {
  counted = counted;
  bounded = bounded;
  busy = inl refl;
  in_order = order;
}
drain-IsScheduled (r ∷ rs) active running started s counted bounded order =
    elim (Bool-cases (ltb active max_concurrent)) [
      | inl free ↦ rw free (
          drain-IsScheduled rs (active + 1) (running ++ r ∷ []) (started ++ r.id ∷ []) s
            (omega (arith, counted, length-append running (r ∷ [])))
            (omega (arith, ltb→lt active max_concurrent free))
            (append_assoc started (r.id ∷ []) (ids rs) ∙ order))
      | inr full ↦ rw full (record {
        counted = counted;
        bounded = bounded;
        busy = inr (ground arith);
        in_order = order;
      })
    ]

length-remove_read :
    (n : ℕ) (rs : List Read) (r : Read)
    → find (λ (q : Read). q.id == n) rs ≡ some r
    → length rs ≡ suc (length (remove_read n rs))
unfolding remove_read
length-remove_read n [] r h = absurd cc
length-remove_read n (q ∷ rs) r h = elim (Bool-cases (q.id == n)) [
  | inl found ↦ rw found
  | inr other ↦
      let e : find (λ (q : Read). q.id == n) (q ∷ rs) ≡ find (λ (q : Read). q.id == n) rs =
        rw other in
      rw other (ap suc (length-remove_read n rs r (sym e ∙ h)))
]

-- What is kept under keys has no part in it.
requests-IsScheduled :
    (s : Executions) (m : Dict ℕ) → IsScheduled s → IsScheduled (record s { requests = m })
requests-IsScheduled s m h = record {
  counted = h.counted;
  bounded = h.bounded;
  busy = h.busy;
  in_order = h.in_order;
}

issue-IsScheduled : (key : Text) (s : Executions) → IsScheduled s → IsScheduled (issue key s)
unfolding schedule below
issue-IsScheduled key s h =
    let r = new_read key s in
    let order : s.started ++ ids (s.queue ++ r ∷ []) ≡ below (suc s.issued) =
      ap (λ q. s.started ++ q) (ids-append s.queue (r ∷ []))
      ∙ sym (append_assoc s.started (ids s.queue) (s.issued ∷ []))
      ∙ ap (λ q. q ++ s.issued ∷ []) h.in_order in
    requests-IsScheduled _ _ (
      drain-IsScheduled (s.queue ++ r ∷ []) s.active s.running s.started _ h.counted h.bounded
        order)

-- The branches of `settle` and of `getExecutionResult`.
pub settle-found :
    (n : ℕ) (ok : Bool) (s : Executions) (r : Read)
    → find (λ (q : Read). q.id == n) s.running ≡ some r
    → settle n ok s
      ≡ drain s.queue
          (s.active - 1)
          (remove_read n s.running)
          s.started
          (record s { requests = forget ok r.key s.requests })
unfolding settle
settle-found n ok s r h = rw (settle, h)

pub settle-missing :
    (n : ℕ) (ok : Bool) (s : Executions)
    → find (λ (q : Read). q.id == n) s.running ≡ none
    → settle n ok s ≡ s
unfolding settle
settle-missing n ok s h = rw (h, settle)

pub ask-new :
    (conversation_id execution_id : Text) (s : Executions)
    → lookup (cache_key conversation_id execution_id) s.requests ≡ none
    → get_execution_result conversation_id execution_id s
      ≡ (issue (cache_key conversation_id execution_id) s, s.issued)
unfolding get_execution_result
ask-new conversation_id execution_id s h = rw (h, get_execution_result)

pub ask-known :
    (conversation_id execution_id : Text) (s : Executions) (n : ℕ)
    → lookup (cache_key conversation_id execution_id) s.requests ≡ some n
    → get_execution_result conversation_id execution_id s ≡ (s, n)
unfolding get_execution_result
ask-known conversation_id execution_id s n h = ground arith

settle-IsScheduled :
    (n : ℕ) (ok : Bool) (s : Executions) → IsScheduled s → IsScheduled (settle n ok s)
settle-IsScheduled n ok s h = elim (Option-cases (find (λ (r : Read). r.id == n) s.running)) [
  | inl missing ↦ subst IsScheduled (sym (settle-missing n ok s missing)) h
  | inr (r, found) ↦ subst IsScheduled (sym (settle-found n ok s r found)) (
      drain-IsScheduled s.queue (s.active - 1) (remove_read n s.running) s.started _
        (omega (arith, h.counted, length-remove_read n s.running r found))
        (omega (arith, h.bounded)) h.in_order)
]

step-IsScheduled : (a : Step) (s : Executions) → IsScheduled s → IsScheduled (step a s)
step-IsScheduled (ask conversation_id execution_id) s h =
    let key = cache_key conversation_id execution_id in
    elim (Option-cases (lookup key s.requests)) [
      | inl new ↦
          subst (λ r. IsScheduled r.0) (sym (ask-new conversation_id execution_id s new))
            (issue-IsScheduled key s h)
      | inr (n, known) ↦
          subst (λ r. IsScheduled r.0) (sym (ask-known conversation_id execution_id s n known)) h
    ]
step-IsScheduled (ends n ok) s h = settle-IsScheduled n ok s h

pub steps-IsScheduled :
    (all : List Step) (s : Executions) → IsScheduled s → IsScheduled (steps all s)
steps-IsScheduled [] s h = h
steps-IsScheduled (a ∷ rest) s h = steps-IsScheduled rest (step a s) (step-IsScheduled a s h)

-- In any order of calls and ends of reads, no more than four reads run at a time and the count is
-- theirs. A read waits only while four run, and the reads start in the order of the calls.
pub steps-no_executions-IsScheduled : (all : List Step) → IsScheduled (steps all no_executions)
unfolding below
steps-no_executions-IsScheduled all =
    steps-IsScheduled all no_executions
      (record { counted = refl; bounded = omega arith; busy = inl refl; in_order = refl })
