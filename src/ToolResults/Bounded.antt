-- ===== src/ToolResults/Bounded.antt =====
-- front-end/src/features/chat/ai-response-steps/toolResultPresentation.js: what `boundValue` keeps.
use moonlit_ai_agent.Prelude.{ℕ, zero, suc, ◌+◌, Bool, false, ◌||◌, ◌≡◌, refl, arith}
use moonlit_ai_agent.Prelude.Json.{
  Value, Values, Members, undefined, null, bool, num, str, arr, obj, nil, cons, end, member,
}
use moonlit_ai_agent.ToolResults.{bound_value, bound_values, bound_members, max_items, max_entries}

or-left : (a b : Bool) → a || b ≡ false → a ≡ false
or-left a b h = grind arith

or-right : (a b : Bool) → a || b ≡ false → b ≡ false
or-right a b h = grind arith

mutual
  unfolding bound_value

  kept : (d : ℕ) (v : Value) → (bound_value d v).1 ≡ false → (bound_value d v).0 ≡ v
  kept d null h = refl
  kept d (bool b) h = refl
  kept d (num n) h = refl
  kept d (str s) h = ground arith
  kept d undefined h = ground arith
  kept d (arr vs) h = ground (arith, kept_values max_items (d + 1) vs)
  kept d (obj ms) h = ground (arith, kept_members max_entries (d + 1) ms)

  kept_values :
      (n d : ℕ) (vs : Values) → (bound_values n d vs).1 ≡ false → (bound_values n d vs).0 ≡ vs
  kept_values n d nil h = refl
  kept_values zero d (cons v vs) h = ground arith
  kept_values (suc n) d (cons v vs) h = ground (
    arith,
    kept d v (or-left (bound_value d v).1 (bound_values n d vs).1 h),
    kept_values n d vs (or-right (bound_value d v).1 (bound_values n d vs).1 h),
  )

  kept_members :
      (n d : ℕ) (ms : Members) → (bound_members n d ms).1 ≡ false → (bound_members n d ms).0 ≡ ms
  kept_members n d end h = refl
  kept_members zero d (member k v ms) h = ground arith
  kept_members (suc n) d (member k v ms) h = ground (
    arith,
    kept d v (or-left (bound_value d v).1 (bound_members n d ms).1 h),
    kept_members n d ms (or-right (bound_value d v).1 (bound_members n d ms).1 h),
  )

-- A value of which the view of a tool's result says that nothing was left out is shown as it is.
pub bound_value-whole :
    (depth : ℕ) (v : Value) → (bound_value depth v).1 ≡ false → (bound_value depth v).0 ≡ v
bound_value-whole = kept
