-- ===== src/Canvas/WellFormed.antt =====
-- front-end/src/hooks/chat-page/useWorkspaceCanvas.js: what holds of a canvas at any time.
use moonlit_ai_agent.Prelude.{
  ℕ, true, false, Option, none, some, List, [], ◌∷◌, ◌++◌, Text, text_eq, text_eq_iff, text_eq_refl,
  find, All, All-append, ◌≡◌, ◌≢◌, refl, sym, ap, ◌∙◌, arith, Bool-cases, inl, inr, is_empty,
  if◌then◌else◌,
}
use moonlit_ai_agent.Prelude.Json.{Value}
use moonlit_ai_agent.Canvas.{
  Artifact, Canvas, no_canvas, without, is_output, cache_or, opened, put_artifact,
  open_canvas_artifact, close_workspace_canvas,
}

abbrev pub with_id : Text → List Artifact → Option Artifact
with_id id outputs = find (λ b. text_eq b.id id) outputs

-- No two outputs have the same id.
abbrev pub HaveDistinctIds : List Artifact → Type 0
HaveDistinctIds [] = Unit
HaveDistinctIds (a ∷ xs) = (with_id a.id xs ≡ none) × HaveDistinctIds xs

-- The outputs have different ids and the cache of the canvas; the artifact that is shown is the output
-- with its id, if it is one; and an open canvas shows an artifact.
pub record IsWellFormed (c : Canvas) : Type 0 where
  pub distinct : HaveDistinctIds c.outputs
  pub cached : All (λ a. a.workspace_cache ≡ c.workspace_cache) c.outputs
  pub keyed : c.workspace_cache ≡ none → c.outputs ≡ []
  pub listed :
      (a : Artifact) → c.artifact ≡ some a → is_output a ≡ true → with_id a.id c.outputs ≡ some a
  pub shown : c.is_open ≡ true → c.artifact ≢ none

with_id-without_self : (id : Text) (xs : List Artifact) → with_id id (without id xs) ≡ none
with_id-without_self id [] = refl
with_id-without_self id (a ∷ xs) = ground (arith, with_id-without_self id xs)

with_id-without :
    (k id : Text) (xs : List Artifact) → with_id k xs ≡ none → with_id k (without id xs) ≡ none
with_id-without k id [] h = refl
with_id-without k id (a ∷ xs) h = ground (arith, with_id-without k id xs)

without-HaveDistinctIds :
    (id : Text) (xs : List Artifact) → HaveDistinctIds xs → HaveDistinctIds (without id xs)
without-HaveDistinctIds id [] h = tt
without-HaveDistinctIds id (a ∷ xs) h =
    ground (arith, with_id-without a.id id xs, without-HaveDistinctIds id xs)

without-All :
    (P : Artifact → Type 0) (id : Text) (xs : List Artifact) → All P xs → All P (without id xs)
without-All P id [] h = tt
without-All P id (a ∷ xs) h = elim (Bool-cases (text_eq a.id id)) [
  | inl e ↦ rw e (without-All P id xs h.1)
  | inr e ↦ rw e (h.0, without-All P id xs h.1)
]

with_id-append :
    (k : Text) (a : Artifact) (xs : List Artifact)
    → with_id k (xs ++ a ∷ [])
      ≡ elim (with_id k xs) [ none ↦ if text_eq a.id k then some a else none | some b ↦ some b ]
with_id-append k a [] = refl
with_id-append k a (b ∷ bs) = ground (arith, with_id-append k a bs)

append-HaveDistinctIds :
    (a : Artifact) (xs : List Artifact)
    → with_id a.id xs ≡ none
    → HaveDistinctIds xs
    → HaveDistinctIds (xs ++ a ∷ [])
append-HaveDistinctIds a [] h d = (refl, tt)
append-HaveDistinctIds a (b ∷ bs) h d = ground (
  arith,
  with_id-append b.id a bs,
  text_eq_iff a.id b.id,
  text_eq_iff b.id a.id,
  append-HaveDistinctIds a bs,
)

same_artifact : (a b : Artifact) → some a ≡ some b → a ≡ b
same_artifact a b e = cc

last-listed :
    (a b : Artifact) (xs : List Artifact)
    → with_id a.id xs ≡ none
    → some a ≡ some b
    → with_id b.id (xs ++ a ∷ []) ≡ some b
last-listed a b xs gone e =
    let q = same_artifact a b e in
    rw (← q) (with_id-append a.id a xs ∙ rw (gone, text_eq_refl a.id))

not-output :
    {R : Type 0} (a b : Artifact) → is_output a ≡ false → some a ≡ some b → is_output b ≡ true → R
not-output a b empty e o =
    let r : true ≡ false = sym o ∙ sym (ap is_output (same_artifact a b e)) ∙ empty in absurd (cc)

HasCache : Option ℕ → Artifact → Type 0
HasCache o a = a.workspace_cache ≡ o

recached :
    (o : Option ℕ) (fresh : ℕ) (xs : List Artifact)
    → All (HasCache o) xs
    → (o ≡ none → xs ≡ [])
    → All (HasCache (some (cache_or o fresh))) xs
recached none fresh [] h k = tt
recached none fresh (a ∷ xs) h k = absurd (cc (k refl))
recached (some n) fresh xs h k = h

put_artifact-IsWellFormed :
    (a : Artifact) (fresh : ℕ) (c : Canvas)
    → a.workspace_cache ≡ some (cache_or c.workspace_cache fresh)
    → IsWellFormed c
    → IsWellFormed (put_artifact a (cache_or c.workspace_cache fresh) c)
unfolding HasCache
put_artifact-IsWellFormed a fresh c h w =
    let others = without a.id c.outputs in
    let cache = cache_or c.workspace_cache fresh in
    let gone = with_id-without_self a.id c.outputs in
    let rest = without-HaveDistinctIds a.id c.outputs w.distinct in
    let all =
      without-All (HasCache (some cache)) a.id c.outputs
        (recached c.workspace_cache fresh c.outputs w.cached w.keyed) in
    elim (Bool-cases (is_output a)) [
      | inl kept ↦ rw kept (record {
        distinct = append-HaveDistinctIds a others gone rest;
        cached = All-append (HasCache (some cache)) others (a ∷ []) all (h, tt);
        keyed = λ e. cc;
        listed = λ b e o. last-listed a b others gone e;
        shown = λ e f. cc;
      })
      | inr empty ↦ rw empty (record {
        distinct = rest;
        cached = all;
        keyed = λ e. cc;
        listed = λ b e o. not-output a b empty e o;
        shown = λ e f. cc;
      })
    ]

pub data Act : Type 0 where
  opens : (uuid : Text) (fresh : ℕ) (source : Value) (history : List Artifact) (a : Artifact) → Act
  closes : Act

abbrev pub act : Act → Option Canvas → Option Canvas
act (opens uuid fresh source history a) c = open_canvas_artifact uuid fresh source history a c
act closes c = close_workspace_canvas c

abbrev pub acts : List Act → Option Canvas → Option Canvas
acts [] c = c
acts (x ∷ xs) c = acts xs (act x c)

-- The session is there, and its canvas is well formed.
abbrev pub Holds : Option Canvas → Type 0
Holds none = ⊥
Holds (some c) = IsWellFormed c

act-Holds : (x : Act) (c : Canvas) → IsWellFormed c → Holds (act x (some c))
unfolding open_canvas_artifact close_workspace_canvas
act-Holds (opens uuid fresh source history a) c w =
    let cache = cache_or c.workspace_cache fresh in
    elim (Bool-cases (is_empty a.type)) [
      | inl e ↦ rw e w
      | inr e ↦ rw e (put_artifact-IsWellFormed (opened uuid source history a cache) fresh c refl w)
    ]
act-Holds closes c w = record {
  distinct = w.distinct;
  cached = w.cached;
  keyed = w.keyed;
  listed = w.listed;
  shown = λ e. cc;
}

acts-Holds : (xs : List Act) (c : Option Canvas) → Holds c → Holds (acts xs c)
acts-Holds [] c h = h
acts-Holds (x ∷ xs) none h = absurd h
acts-Holds (x ∷ xs) (some c) w = acts-Holds xs (act x (some c)) (act-Holds x c w)

-- Whatever is opened and closed in a new session, and whatever ids are drawn, the canvas is there and
-- well formed: its outputs have different ids and share its cache, the artifact that it shows is the
-- output with its id if it is an output, and it shows one if it is open.
pub acts-no_canvas-Holds : (xs : List Act) → Holds (acts xs (some no_canvas))
acts-no_canvas-Holds xs = acts-Holds xs (some no_canvas) (record {
  distinct = tt;
  cached = tt;
  keyed = λ e. refl;
  listed = λ a e o. cc;
  shown = λ e f. cc;
})
