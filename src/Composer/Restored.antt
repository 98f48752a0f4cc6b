-- ===== src/Composer/Restored.antt =====
-- front-end/src/features/chat/ChatInput.jsx: a refused message comes back.
use moonlit_ai_agent.Prelude.{
  ℕ, ◌+◌, Bool, none, some, List, [], ◌∷◌, Text, text_eq_iff, text_eq_refl, Dict, lookup, insert,
  delete, lookup-insert, lookup-delete, ◌≡◌, ◌≢◌, ◌⊎◌, ◌∙◌, arith, All,
}
use mathlib.Core.Path.{subst}
use moonlit_ai_agent.Composer.{
  Composer, Attempt, Act, updates, submits, restores, finishes, act, acts, get_draft,
  update_message, handle_submit, is_latest, restore_draft, finish_attempt,
}

-- The session has an empty draft and waits for the attempt `n`.
record Waits (k : Text) (n : ℕ) (c : Composer) : Type 0 where
  blank : get_draft k c.drafts ≡ []
  latest : lookup k c.send_attempts ≡ some n

-- Other sessions may do anything, and older attempts of this one may be answered.
abbrev pub IsElsewhere : Text → ℕ → Act → Type 0
IsElsewhere k n (updates j updater) = j ≢ k
IsElsewhere k n (submits j disabled is_streaming) = j ≢ k
IsElsewhere k n (restores a) = (a.session_key ≢ k) ⊎ (a.attempt ≢ n)
IsElsewhere k n (finishes a) = (a.session_key ≢ k) ⊎ (a.attempt ≢ n)

pub get_draft-insert :
    (k j message : Text) (drafts : Dict Text)
    → j ≢ k
    → get_draft k (insert j message drafts) ≡ get_draft k drafts
unfolding get_draft
get_draft-insert k j message drafts h =
    ground (arith, lookup-insert j k message drafts, text_eq_iff j k)

get_draft-delete :
    (k j : Text) (drafts : Dict Text) → get_draft k drafts ≡ [] → get_draft k (delete j drafts) ≡ []
unfolding get_draft
get_draft-delete k j drafts h = ground (arith, lookup-delete j k drafts)

act-Waits :
    (k : Text) (n : ℕ) (x : Act) {c : Composer}
    → IsElsewhere k n x
    → Waits k n c
    → Waits k n (act x c)
unfolding update_message handle_submit restore_draft finish_attempt is_latest
act-Waits k n (updates j updater) {c} h v = record {
  blank = get_draft-insert k j (updater (get_draft j c.drafts)) c.drafts h ∙ v.blank;
  latest = v.latest;
}
act-Waits k n (submits j disabled is_streaming) {c} h v = record {
  blank = ground (arith, get_draft-delete k j c.drafts v.blank, v.blank);
  latest = ground (arith, lookup-insert j k c.made c.send_attempts, text_eq_iff j k, v.latest);
}
act-Waits k n (restores a) {c} h v = record {
  blank = ground (arith, get_draft-insert k a.session_key a.message c.drafts, v.blank, v.latest);
  latest = ground (arith, v.latest);
}
act-Waits k n (finishes a) {c} h v = record {
  blank = ground (arith, v.blank);
  latest =
      ground (
        arith,
        lookup-delete a.session_key k c.send_attempts,
        text_eq_iff a.session_key k,
        v.latest,
      );
}

acts-Waits :
    (k : Text) (n : ℕ) (xs : List Act) {c : Composer}
    → All (IsElsewhere k n) xs
    → Waits k n c
    → Waits k n (acts xs c)
acts-Waits k n [] h v = v
acts-Waits k n (x ∷ xs) h v = acts-Waits k n xs h.1 (act-Waits k n x h.0 v)

-- What a submission that is not refused at once leaves.
abbrev pub submitted : Text → Composer → Composer
submitted k c = record {
  drafts = delete k c.drafts;
  send_attempts = insert k c.made c.send_attempts;
  made = c.made + 1;
}

abbrev pub attempt_of : Text → Composer → Attempt
attempt_of k c = record { session_key = k; attempt = c.made; message = get_draft k c.drafts }

pub handle_submit-some :
    (k : Text) (disabled is_streaming : Bool) (c : Composer) (a : Attempt)
    → (handle_submit k disabled is_streaming c).1 ≡ some a
    → (a ≡ attempt_of k c) × ((handle_submit k disabled is_streaming c).0 ≡ submitted k c)
unfolding handle_submit
handle_submit-some k disabled is_streaming c a h = ground arith

pub handle_submit-none :
    (k : Text) (disabled is_streaming : Bool) (c : Composer)
    → (handle_submit k disabled is_streaming c).1 ≡ none
    → (handle_submit k disabled is_streaming c).0 ≡ c
unfolding handle_submit
handle_submit-none k disabled is_streaming c h = ground arith

pub get_draft-finish_attempt :
    (k : Text) (a : Attempt) (c : Composer)
    → get_draft k (finish_attempt a c).drafts ≡ get_draft k c.drafts
unfolding finish_attempt
get_draft-finish_attempt k a c = ground arith

submitted-Waits : (k : Text) (c : Composer) → Waits k c.made (submitted k c)
unfolding get_draft
submitted-Waits k c = record {
  blank = rw (lookup-delete k k c.drafts) (rw (text_eq_refl k));
  latest = lookup-insert k k c.made c.send_attempts ∙ rw (text_eq_refl k);
}

pub submitted-blank : (k : Text) (c : Composer) → get_draft k (submitted k c).drafts ≡ []
submitted-blank k c = (submitted-Waits k c).blank

restore_draft-Waits :
    (a : Attempt) (c : Composer)
    → Waits a.session_key a.attempt c
    → get_draft a.session_key (restore_draft a c).drafts ≡ a.message
unfolding restore_draft get_draft is_latest
restore_draft-Waits a c v = ground (
  arith,
  lookup-insert a.session_key a.session_key a.message c.drafts,
  text_eq_refl a.session_key,
  v.latest,
  v.blank,
)

pub restore_draft-submitted :
    (k : Text) (c : Composer) (xs : List Act)
    → All (IsElsewhere k c.made) xs
    → get_draft k (restore_draft (attempt_of k c) (acts xs (submitted k c))).drafts
      ≡ get_draft k c.drafts
restore_draft-submitted k c xs away =
    restore_draft-Waits (attempt_of k c) (acts xs (submitted k c))
      (acts-Waits k c.made xs away (submitted-Waits k c))

-- If a message that has been sent is refused, while other sessions have done anything and older
-- attempts of its own session have been answered, the session's draft is again all that it was,
-- the spaces around it included.
pub restore_draft-handle_submit :
    (k : Text) (disabled is_streaming : Bool) (c : Composer) (a : Attempt) (xs : List Act)
    → (handle_submit k disabled is_streaming c).1 ≡ some a
    → All (IsElsewhere k a.attempt) xs
    → get_draft k (restore_draft a (acts xs (handle_submit k disabled is_streaming c).0)).drafts
      ≡ get_draft k c.drafts
restore_draft-handle_submit k disabled is_streaming c a xs h away =
    let made = handle_submit-some k disabled is_streaming c a h in
    let away_of : Attempt → Type 0 = λ b. All (IsElsewhere k b.attempt) xs in
    rw made.1 (rw made.0 (restore_draft-submitted k c xs (subst away_of made.0 away)))
