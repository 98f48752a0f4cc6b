-- ===== src/Prelude/Texts.antt =====
-- Texts as lists of UTF-16 code units, with the operations of JavaScript's `String.prototype` that
-- the front end uses on text that it takes apart.
use Prim.Native.Nat.{ℕ, zero, suc, ◌+◌, ◌-◌, ◌*◌, ◌/◌, ◌%◌, ◌<◌}
use Prim.Native.Char.{code}
use Prim.Native.String.{String}
use mathlib.Core.Path.{◌≡◌, refl, sym, ap, ◌∙◌}
use mathlib.Core.Logic.{◌≢◌, ◌↔◌, inl, inr}
use native.Mathlib.Omega.{arith}
use mathlib.Core.Bool.{Bool, true, false, ◌||◌, ◌&&◌}
use mathlib.Core.List.{List, [], ◌∷◌, ◌++◌}
use moonlit_ai_agent.Prelude.Tests.{leb, ◌==◌, if◌then◌else◌, ℕ-cases}

abbrev pub Text : Type 0
Text = List ℕ

-- The code units of a literal of the basic plane.
abbrev pub codes : String → Text
codes String.[] = []
codes (String.◌∷◌ c s) = code c ∷ codes s

abbrev pub is_empty {ℓ} : {A : Type ℓ} → List A → Bool
is_empty [] = true
is_empty (_ ∷ _) = false

-- `WhiteSpace` and `LineTerminator` of the language: what `trim` removes.
unfoldable pub is_space : ℕ → Bool
is_space c =
    (leb 9 c && leb c 13)
    || c == 32
    || c == 0xA0
    || c == 0x1680
    || (leb 0x2000 c && leb c 0x200A)
    || c == 0x2028
    || c == 0x2029
    || c == 0x202F
    || c == 0x205F
    || c == 0x3000
    || c == 0xFEFF

unfoldable pub trim_start : Text → Text
trim_start [] = []
trim_start (c ∷ s) = if is_space c then trim_start s else c ∷ s

abbrev pub cons_kept : ℕ → Text → Text
cons_kept c [] = if is_space c then [] else c ∷ []
cons_kept c (d ∷ s) = c ∷ d ∷ s

unfoldable pub trim_end : Text → Text
trim_end [] = []
trim_end (c ∷ s) = cons_kept c (trim_end s)

unfoldable pub trim : Text → Text
unfolding trim_start trim_end is_space
trim s = trim_end (trim_start s)

abbrev pub starts_with : Text → Text → Bool
starts_with [] s = true
starts_with (p ∷ ps) [] = false
starts_with (p ∷ ps) (c ∷ s) = (p == c) && starts_with ps s

-- `===` on strings.
unfoldable pub text_eq : Text → Text → Bool
text_eq [] [] = true
text_eq (c ∷ s) (d ∷ t) = (c == d) && text_eq s t
text_eq _ _ = false

pub text_eq_iff : (s t : Text) → (text_eq s t ≡ true) ↔ (s ≡ t)
unfolding text_eq
text_eq_iff [] [] = ground arith
text_eq_iff [] (d ∷ t) = ground arith
text_eq_iff (c ∷ s) [] = ground arith
text_eq_iff (c ∷ s) (d ∷ t) = ground (arith, text_eq_iff s t)

pub text_eq_refl : (s : Text) → text_eq s s ≡ true
text_eq_refl s = (text_eq_iff s s).1 refl

pub text_eq-false : (s t : Text) → s ≢ t → text_eq s t ≡ false
text_eq-false s t h = ground (arith, text_eq_iff s t)

abbrev digit : ℕ → ℕ
digit n = b'0' + n % 10

emit : ℕ → ℕ → Text → Text
emit zero n out = out
emit (suc fuel) n out =
    let more = emit fuel (n / 10) (digit n ∷ out) in if n / 10 == 0 then digit n ∷ out else more

-- A number in a template literal. There are at most as many digits as one more than the number.
unfoldable pub decimal : ℕ → Text
unfolding emit
decimal n = emit (suc n) n []

-- The number that digits write, behind what has been read.
number_of : ℕ → Text → ℕ
number_of acc [] = acc
number_of acc (c ∷ s) = number_of (acc * 10 + (c - 48)) s

number_of-emit :
    (fuel n : ℕ) (out : Text) → n < fuel → number_of 0 (emit fuel n out) ≡ number_of n out
unfolding emit number_of
number_of-emit zero n out h = absurd (omega arith)
number_of-emit (suc fuel) n out h = elim (ℕ-cases (n / 10)) [
  | inl last ↦ let e : 0 * 10 + (48 + n % 10 - 48) ≡ n = omega (arith, last) in rw (last, e)
  | inr more ↦
      let e : n / 10 * 10 + (48 + n % 10 - 48) ≡ n = omega arith in
      let ih = number_of-emit fuel (n / 10) (digit n ∷ out) (omega arith) in
      let test : (n / 10 == 0) ≡ false = ground arith in rw test (ih ∙ ap (λ k. number_of k out) e)
]

pub decimal_injective : (n m : ℕ) → decimal n ≡ decimal m → n ≡ m
unfolding decimal number_of
decimal_injective n m e =
    sym (number_of-emit (suc n) n [] (omega arith))
    ∙ ap (number_of 0) e
    ∙ number_of-emit (suc m) m [] (omega arith)

-- `array.join(separator)`.
abbrev pub join : Text → List Text → Text
join sep [] = []
join sep (s ∷ []) = s
join sep (s ∷ t ∷ ts) = s ++ (sep ++ join sep (t ∷ ts))

abbrev pub concat : List Text → Text
concat [] = []
concat (s ∷ ts) = s ++ concat ts

-- `s.includes(p)`.
unfoldable pub includes : Text → Text → Bool
includes p [] = is_empty p
includes p (c ∷ s) = starts_with p (c ∷ s) || includes p s
