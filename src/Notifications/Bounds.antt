-- ===== src/Notifications/Bounds.antt =====
-- How many toasts are shown, in which order, and how long their titles are.
use moonlit_ai_agent.Prelude.{
  ℕ, ◌+◌, ◌-◌, ◌≤◌, ◌≡◌, zero, suc, refl, Bool, false, Option, none, some, List, [], ◌∷◌, ◌++◌,
  Text, trim, trim_start, trim_end, is_empty, length, take, drop, filter, not, ltb, leb, ◌==◌,
  length-append, length-filter-le, arith, Bool-cases, inl, inr,
}
use moonlit_ai_agent.Notifications.{
  ToastType, Toast, Notifications, no_notifications, keep_newest, new_toast, add_toast,
  remove_toast, close_snackbar, collapse, search_sentence, shortened, first_sentence, compacted,
  get_compact_snackbar_message, snackbar_message_limit, max_notifications,
}

length-take-le : (n : ℕ) (s : Text) → length (take n s) ≤ n
length-take-le zero s = omega arith
length-take-le (suc n) [] = omega arith
length-take-le (suc n) (c ∷ s) = omega (arith, length-take-le n s)

length-trim_start-le : (s : Text) → length (trim_start s) ≤ length s
unfolding trim_start
length-trim_start-le [] = omega arith
length-trim_start-le (c ∷ s) = ground (arith, length-trim_start-le s)

length-trim_end-le : (s : Text) → length (trim_end s) ≤ length s
unfolding trim_end
length-trim_end-le [] = omega arith
length-trim_end-le (c ∷ s) = ground (arith, length-trim_end-le s)

length-trim-le : (s : Text) → length (trim s) ≤ length s
unfolding trim
length-trim-le s = omega (arith, length-trim_end-le (trim_start s), length-trim_start-le s)

length-shortened-le : (t : Text) → length (shortened t) ≤ snackbar_message_limit
length-shortened-le t =
    let kept = take 119 t in
    omega
      (arith, length-append (trim kept) (0x2026 ∷ []), length-trim-le kept, length-take-le 119 t)

length-first_sentence-le :
    (o : Option ℕ) (t : Text) → length (first_sentence o t) ≤ snackbar_message_limit + 1
length-first_sentence-le none t = omega (arith, length-shortened-le t)
length-first_sentence-le (some n) t =
    ground (arith, length-shortened-le t, length-take-le (n + 1) t)

length-compacted-le :
    (fallback t : Text)
    → length fallback ≤ snackbar_message_limit
    → length (compacted fallback t) ≤ snackbar_message_limit + 1
length-compacted-le fallback t h = elim (Bool-cases (is_empty t)) [
  | inl e ↦ rw e (omega (arith, h))
  | inr e ↦ rw e (elim (Bool-cases (leb (length t) 120)) [
    | inl short ↦ rw short (ground arith)
    | inr long ↦ rw long (length-first_sentence-le (search_sentence t) t)
  ])
]

-- A compact message is at most one code unit longer than the limit of 120, if its fallback is: one
-- longer where the first sentence ends right at the limit.
pub length-get_compact_snackbar_message-le :
    (message fallback : Text)
    → length fallback ≤ snackbar_message_limit
    → length (get_compact_snackbar_message message fallback) ≤ snackbar_message_limit + 1
unfolding get_compact_snackbar_message
length-get_compact_snackbar_message-le message fallback h =
    length-compacted-le fallback (trim (collapse false message)) h

pub data ToastAction : Type 0 where
  adds : ToastType → Text → Option Text → Option ℕ → ToastAction
  removes : ℕ → ToastAction
  closes : ToastAction

abbrev pub toast_act : ToastAction → Notifications → Notifications
toast_act (adds type title message duration) s = (add_toast type title message duration s).0
toast_act (removes id) s = remove_toast id s
toast_act closes s = close_snackbar s

abbrev pub toast_acts : List ToastAction → Notifications → Notifications
toast_acts [] s = s
toast_acts (a ∷ later) s = toast_acts later (toast_act a s)

-- The ids grow from the front and lie below the bound.
abbrev pub IsOrdered : ℕ → ℕ → List Toast → Type 0
IsOrdered low high [] = low ≤ high
IsOrdered low high (t ∷ ts) = (low ≤ t.id) × IsOrdered (t.id + 1) high ts

pub record IsWellFormed (s : Notifications) : Type 0 where
  pub bounded : length s.notifications ≤ max_notifications
  pub ordered : IsOrdered 1 s.next_id s.notifications

IsOrdered-lower :
    (a b high : ℕ) (ts : List Toast) → a ≤ b → IsOrdered b high ts → IsOrdered a high ts
IsOrdered-lower a b high [] h v = omega (arith, v)
IsOrdered-lower a b high (t ∷ ts) h v = (omega (arith, v.0), v.1)

IsOrdered-append :
    (low high : ℕ) (ts : List Toast) (t : Toast)
    → t.id ≡ high
    → IsOrdered low high ts
    → IsOrdered low (high + 1) (ts ++ t ∷ [])
IsOrdered-append low high [] t h v = (omega (arith, v), omega arith)
IsOrdered-append low high (u ∷ ts) t h v = (v.0, IsOrdered-append (u.id + 1) high ts t h v.1)

IsOrdered-drop :
    (n low high : ℕ) (ts : List Toast) → IsOrdered low high ts → IsOrdered low high (drop n ts)
IsOrdered-drop zero low high ts v = v
IsOrdered-drop (suc n) low high [] v = v
IsOrdered-drop (suc n) low high (t ∷ ts) v =
    IsOrdered-drop n low high ts (IsOrdered-lower low (t.id + 1) high ts (omega (arith, v.0)) v.1)

IsOrdered-le : (low high : ℕ) (ts : List Toast) → IsOrdered low high ts → low ≤ high
IsOrdered-le low high [] v = v
IsOrdered-le low high (t ∷ ts) v = omega (arith, v.0, IsOrdered-le (t.id + 1) high ts v.1)

IsOrdered-filter :
    (p : Toast → Bool) (low high : ℕ) (ts : List Toast)
    → IsOrdered low high ts
    → IsOrdered low high (filter p ts)
IsOrdered-filter p low high [] v = v
IsOrdered-filter p low high (t ∷ ts) v = elim (Bool-cases (p t)) [
  | inl h ↦ rw h (v.0, IsOrdered-filter p (t.id + 1) high ts v.1)
  | inr h ↦ rw h (
      IsOrdered-filter p low high ts
        (IsOrdered-lower low (t.id + 1) high ts (omega (arith, v.0)) v.1))
]

length-drop : (n : ℕ) (ts : List Toast) → length (drop n ts) ≡ length ts - n
length-drop zero ts = omega arith
length-drop (suc n) [] = omega arith
length-drop (suc n) (t ∷ ts) = omega (arith, length-drop n ts)

keep_newest-bounded : (ts : List Toast) → length (keep_newest ts) ≤ max_notifications
keep_newest-bounded ts = ground (arith, length-drop (length ts - 4) ts)

keep_newest-IsOrdered :
    (low high : ℕ) (ts : List Toast) → IsOrdered low high ts → IsOrdered low high (keep_newest ts)
keep_newest-IsOrdered low high ts v = elim (Bool-cases (ltb 4 (length ts))) [
  | inl h ↦ rw h (IsOrdered-drop (length ts - 4) low high ts v)
  | inr h ↦ rw h v
]

toast_act-IsWellFormed :
    (a : ToastAction) (s : Notifications) → IsWellFormed s → IsWellFormed (toast_act a s)
unfolding add_toast remove_toast close_snackbar
toast_act-IsWellFormed (adds type title message duration) s v =
    let new = new_toast s.next_id type title message duration in
    record {
      bounded = keep_newest-bounded (s.notifications ++ new ∷ []);
      ordered =
          keep_newest-IsOrdered 1 (s.next_id + 1) (s.notifications ++ new ∷ [])
            (IsOrdered-append 1 s.next_id s.notifications new refl v.ordered);
    }
toast_act-IsWellFormed (removes id) s v = record {
  bounded = omega (arith, length-filter-le (λ t. not (t.id == id)) s.notifications, v.bounded);
  ordered = IsOrdered-filter (λ t. not (t.id == id)) 1 s.next_id s.notifications v.ordered;
}
toast_act-IsWellFormed closes s v = record {
  bounded = omega arith;
  ordered = IsOrdered-le 1 s.next_id s.notifications v.ordered;
}

toast_acts-from :
    (later : List ToastAction) (s : Notifications)
    → IsWellFormed s
    → IsWellFormed (toast_acts later s)
toast_acts-from [] s v = v
toast_acts-from (a ∷ later) s v =
    toast_acts-from later (toast_act a s) (toast_act-IsWellFormed a s v)

-- Whatever is added, removed and closed: at most four toasts are shown, in the order in which they
-- were added, each with an id of its own that no later toast will get.
pub toast_acts-IsWellFormed :
    (later : List ToastAction) → IsWellFormed (toast_acts later no_notifications)
toast_acts-IsWellFormed later =
    toast_acts-from later no_notifications (record { bounded = omega arith; ordered = omega arith })
