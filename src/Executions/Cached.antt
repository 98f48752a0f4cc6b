-- ===== src/Executions/Cached.antt =====
-- front-end/src/api/conversations.js: what is kept under keys, and what the end of a read makes room
-- for.
use mathlib.Core.Path.{subst}
use moonlit_ai_agent.Prelude.{
  ℕ, suc, ◌+◌, ◌-◌, ◌≤◌, ◌<◌, ◌≡◌, ◌∙◌, inl, inr, refl, sym, Bool, true, false, some, List, [], ◌∷◌,
  ◌++◌, Text, text_eq_refl, length, lookup, lookup-insert, insert, delete, Dict, leb, Bool-cases,
  Option-cases, arith, find, ◌==◌,
}
use moonlit_ai_agent.Executions.{
  Read, Executions, drain, schedule, issue, new_read, make_room, drop_oldest, cache_key, max_cached,
  get_execution_result, settle, forget, no_executions, remove_read,
}
use moonlit_ai_agent.Executions.Steps.{Step, ask, ends, step, steps}
use moonlit_ai_agent.Executions.Scheduled.{settle-found, settle-missing, ask-new, ask-known}

length-delete-le : (k : Text) (m : Dict ℕ) → length (delete k m) ≤ length m
unfolding delete
length-delete-le k [] = omega arith
length-delete-le k ((j, v) ∷ m) = ground (arith, length-delete-le k m)

length-insert-le : (k : Text) (v : ℕ) (m : Dict ℕ) → length (insert k v m) ≤ suc (length m)
unfolding insert
length-insert-le k v [] = omega arith
length-insert-le k v ((j, w) ∷ m) = ground (arith, length-insert-le k v m)

length-drop_oldest : (m : Dict ℕ) → 0 < length m → length (drop_oldest m) < length m
unfolding delete
length-drop_oldest [] h = absurd (omega arith)
length-drop_oldest ((k, v) ∷ m) h = ground (arith, text_eq_refl k, length-delete-le k m)

length-make_room : (m : Dict ℕ) → length m ≤ max_cached → length (make_room m) < max_cached
length-make_room m h = elim (Bool-cases (leb max_cached (length m))) [
  | inl full ↦ rw full (omega (arith, h, length-drop_oldest m (ground arith)))
  | inr room ↦ rw room (ground arith)
]

requests-drain :
    (rs : List Read) (active : ℕ) (running : List Read) (started : List ℕ) (s : Executions)
    → (drain rs active running started s).requests ≡ s.requests
unfolding drain
requests-drain [] active running started s = refl
requests-drain (r ∷ rs) active running started s =
    ground (arith, requests-drain rs (active + 1) (running ++ r ∷ []) (started ++ r.id ∷ []) s)

-- At most two hundred reads are kept.
abbrev IsSmall : Executions → Type 0
IsSmall s = length s.requests ≤ max_cached

issue-IsSmall : (key : Text) (s : Executions) → IsSmall s → IsSmall (issue key s)
unfolding schedule
issue-IsSmall key s h =
    rw (requests-drain (s.queue ++ new_read key s ∷ []) s.active s.running s.started _) (
      omega (
        arith,
        length-insert-le key s.issued (make_room s.requests),
        length-make_room s.requests h,
      ))

length-forget-le : (ok : Bool) (k : Text) (m : Dict ℕ) → length (forget ok k m) ≤ length m
length-forget-le true k m = omega arith
length-forget-le false k m = length-delete-le k m

settle-IsSmall : (n : ℕ) (ok : Bool) (s : Executions) → IsSmall s → IsSmall (settle n ok s)
settle-IsSmall n ok s h = elim (Option-cases (find (λ (r : Read). r.id == n) s.running)) [
  | inl missing ↦ subst IsSmall (sym (settle-missing n ok s missing)) h
  | inr (r, found) ↦ subst IsSmall (sym (settle-found n ok s r found)) (
      rw (requests-drain s.queue (s.active - 1) (remove_read n s.running) s.started _)
        (omega (arith, h, length-forget-le ok r.key s.requests)))
]

step-IsSmall : (a : Step) (s : Executions) → IsSmall s → IsSmall (step a s)
step-IsSmall (ask conversation_id execution_id) s h =
    let key = cache_key conversation_id execution_id in
    elim (Option-cases (lookup key s.requests)) [
      | inl new ↦
          subst (λ r. IsSmall r.0) (sym (ask-new conversation_id execution_id s new))
            (issue-IsSmall key s h)
      | inr (n, known) ↦
          subst (λ r. IsSmall r.0) (sym (ask-known conversation_id execution_id s n known)) h
    ]
step-IsSmall (ends n ok) s h = settle-IsSmall n ok s h

steps-IsSmall : (all : List Step) (s : Executions) → IsSmall s → IsSmall (steps all s)
steps-IsSmall [] s h = h
steps-IsSmall (a ∷ rest) s h = steps-IsSmall rest (step a s) (step-IsSmall a s h)

lookup-issue : (key : Text) (s : Executions) → lookup key (issue key s).requests ≡ some s.issued
unfolding schedule
lookup-issue key s =
    rw (requests-drain (s.queue ++ new_read key s ∷ []) s.active s.running s.started _)
      (lookup-insert key key s.issued (make_room s.requests) ∙ rw (text_eq_refl key))

-- In any order of calls and ends of reads, at most two hundred reads are kept. To ask for what has
-- just been asked for begins nothing: it returns the same read and leaves the state as it is.
pub ask-again :
    (all : List Step) (conversation_id execution_id : Text)
    → let s = steps all no_executions in
      let first = get_execution_result conversation_id execution_id s in
      (length s.requests ≤ max_cached)
      × (get_execution_result conversation_id execution_id first.0 ≡ first)
ask-again all conversation_id execution_id =
    let s = steps all no_executions in
    let key = cache_key conversation_id execution_id in
    (
      steps-IsSmall all no_executions (omega arith),
      elim (Option-cases (lookup key s.requests)) [
        | inl new ↦
            subst (λ r. get_execution_result conversation_id execution_id r.0 ≡ r)
              (sym (ask-new conversation_id execution_id s new))
              (ask-known conversation_id execution_id (issue key s) s.issued (lookup-issue key s))
        | inr (n, known) ↦
            subst (λ r. get_execution_result conversation_id execution_id r.0 ≡ r)
              (sym (ask-known conversation_id execution_id s n known))
              (ask-known conversation_id execution_id s n known)
      ],
    )
