-- ===== src/Composer/Late.antt =====
-- front-end/src/features/chat/ChatInput.jsx: an answer that comes after the session has sent again.
use moonlit_ai_agent.Prelude.{
  ℕ, ◌<◌, Bool, some, List, [], ◌∷◌, Text, text_eq_refl, lookup, lookup-insert, lookup-delete, ◌≡◌,
  ◌≢◌, arith,
}
use moonlit_ai_agent.Composer.{
  Composer, Attempt, Act, updates, submits, restores, finishes, act, acts, update_message,
  handle_submit, is_latest, restore_draft, finish_attempt,
}
use moonlit_ai_agent.Composer.Restored.{submitted, attempt_of, handle_submit-some}

-- The attempt `n` has been made, and the session waits for no answer to it.
record Passed (k : Text) (n : ℕ) (c : Composer) : Type 0 where
  older : n < c.made
  other : lookup k c.send_attempts ≢ some n

act-made : (n : ℕ) (x : Act) (c : Composer) → n < c.made → n < (act x c).made
unfolding update_message handle_submit restore_draft finish_attempt
act-made n (updates j updater) c h = h
act-made n (submits j disabled is_streaming) c h = ground arith
act-made n (restores a) c h = ground arith
act-made n (finishes a) c h = ground arith

acts-made : (n : ℕ) (xs : List Act) (c : Composer) → n < c.made → n < (acts xs c).made
acts-made n [] c h = h
acts-made n (x ∷ xs) c h = acts-made n xs (act x c) (act-made n x c h)

submits-other :
    (k j : Text) (n : ℕ) (disabled is_streaming : Bool) {c : Composer}
    → Passed k n c
    → lookup k (handle_submit j disabled is_streaming c).0.send_attempts ≢ some n
unfolding handle_submit
submits-other k j n disabled is_streaming {c} v =
    ground (arith, lookup-insert j k c.made c.send_attempts, v.older, v.other)

finishes-other :
    (k : Text) (n : ℕ) (a : Attempt) {c : Composer}
    → Passed k n c
    → lookup k (finish_attempt a c).send_attempts ≢ some n
unfolding finish_attempt
finishes-other k n a {c} v = ground (arith, lookup-delete a.session_key k c.send_attempts, v.other)

restores-other :
    (k : Text) (n : ℕ) (a : Attempt) {c : Composer}
    → Passed k n c
    → lookup k (restore_draft a c).send_attempts ≢ some n
unfolding restore_draft
restores-other k n a {c} v = ground (arith, v.other)

act-Passed : (k : Text) (n : ℕ) (x : Act) {c : Composer} → Passed k n c → Passed k n (act x c)
unfolding update_message
act-Passed k n (updates j updater) v = record { older = v.older; other = v.other }
act-Passed k n (submits j disabled is_streaming) {c} v = record {
  older = act-made n (submits j disabled is_streaming) c v.older;
  other = submits-other k j n disabled is_streaming v;
}
act-Passed k n (restores a) {c} v = record {
  older = act-made n (restores a) c v.older;
  other = restores-other k n a v;
}
act-Passed k n (finishes a) {c} v = record {
  older = act-made n (finishes a) c v.older;
  other = finishes-other k n a v;
}

acts-Passed :
    (k : Text) (n : ℕ) (xs : List Act) {c : Composer} → Passed k n c → Passed k n (acts xs c)
acts-Passed k n [] v = v
acts-Passed k n (x ∷ xs) v = acts-Passed k n xs (act-Passed k n x v)

submitted-Passed : (k : Text) (n : ℕ) (c : Composer) → n < c.made → Passed k n (submitted k c)
submitted-Passed k n c h = record {
  older = omega arith;
  other = ground (arith, lookup-insert k k c.made c.send_attempts, text_eq_refl k);
}

-- An answer that does nothing: neither the draft nor the later attempt is touched.
abbrev pub IsIgnored : Attempt → Composer → Type 0
IsIgnored a c = (restore_draft a c ≡ c) × (finish_attempt a c ≡ c)

Passed-IsIgnored : (a : Attempt) (c : Composer) → Passed a.session_key a.attempt c → IsIgnored a c
unfolding restore_draft finish_attempt is_latest
Passed-IsIgnored a c v = (ground (arith, v.other), ground (arith, v.other))

submitted-IsIgnored :
    (k : Text) (c d : Composer) (ys : List Act)
    → c.made < d.made
    → IsIgnored (attempt_of k c) (acts ys (submitted k d))
submitted-IsIgnored k c d ys h =
    Passed-IsIgnored (attempt_of k c) (acts ys (submitted k d))
      (acts-Passed k c.made ys (submitted-Passed k c.made d h))

-- Once a session has sent a second message, whatever has happened before and since, the answer to
-- its first message restores no draft and does not end the wait for the second.
pub handle_submit-again :
    (k : Text) (disabled is_streaming still_disabled still_streaming : Bool) (c : Composer)
    (a b : Attempt) (xs ys : List Act)
    → (handle_submit k disabled is_streaming c).1 ≡ some a
    → (handle_submit k still_disabled still_streaming
        (acts xs (handle_submit k disabled is_streaming c).0)).1
      ≡ some b
    → IsIgnored a (
        acts ys
          (handle_submit k still_disabled still_streaming
            (acts xs (handle_submit k disabled is_streaming c).0)).0)
handle_submit-again k disabled is_streaming still_disabled still_streaming c a b xs ys h g =
    let first = handle_submit-some k disabled is_streaming c a h in
    let between = acts xs (handle_submit k disabled is_streaming c).0 in
    let second = handle_submit-some k still_disabled still_streaming between b g in
    rw second.1 (
      rw first.0 (
        submitted-IsIgnored k c between ys (
          acts-made c.made xs (handle_submit k disabled is_streaming c).0
            (rw first.1 (omega arith)))))
