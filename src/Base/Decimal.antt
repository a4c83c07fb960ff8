-- ===== src/Base/Decimal.antt =====
-- Python's `str` and `int` of numbers in decimal digits, of ASCII.
use Prim.Native.Nat.{ℕ, zero, suc, ◌+◌, ◌-◌, ◌*◌, ◌/◌, ◌%◌, ◌<◌}
use mathlib.Core.Path.{◌≡◌, refl, ◌∙◌}
use mathlib.Core.Logic.{inl, inr}
use mathlib.Core.List.{[], ◌∷◌, ◌++◌}
use mathlib.Core.Option.{Option, none, some}
use mathlib.Core.Bool.{Bool, true, false, ◌&&◌, ◌||◌}
use xfce_linux.Base.Int.{ℤ, pos, negate}
use native.Mathlib.Omega.{arith}
use xfce_linux.Base.Tests.{if◌then◌else◌, leb, ◌==◌, ltb, ltb→le, Bool-cases}
use xfce_linux.Base.Strings.{Text, strip, digits_value}

-- `str(n)`, with fuel for its digits.
abbrev pub digits_of : ℕ → ℕ → Text
digits_of zero n = []
digits_of (suc f) n =
    let rest = digits_of f (n / 10) in
    if ltb n 10 then (b'0' + n) ∷ [] else rest ++ (b'0' + n % 10) ∷ []

abbrev pub str : ℕ → Text
str n = digits_of (suc n) n

digits_value-append :
    (s : Text) (c n : ℕ) → digits_value n (s ++ c ∷ []) ≡ digits_value n s * 10 + (c - 48)
digits_value-append [] c n = refl
digits_value-append (d ∷ s) c n = digits_value-append s c (n * 10 + (d - 48))

one_digit : (n : ℕ) → 0 * 10 + (48 + n - 48) ≡ n
one_digit n = omega arith

last_digit : (n v : ℕ) → v ≡ n / 10 → v * 10 + (48 + n % 10 - 48) ≡ n
last_digit n v h = omega arith

digits_of-value : (fuel n : ℕ) → n < fuel → digits_value 0 (digits_of fuel n) ≡ n
digits_of-value zero n h = absurd (omega arith)
digits_of-value (suc fuel) n h = elim (Bool-cases (ltb n 10)) [
  | inl e ↦ rw e (one_digit n)
  | inr e ↦ rw e (
      digits_value-append (digits_of fuel (n / 10)) (48 + n % 10) 0
      ∙ last_digit n _ (digits_of-value fuel (n / 10) (let l = ltb→le n 10 e in omega arith)))
]

pub str-value : (n : ℕ) → digits_value 0 (str n) ≡ n
str-value n = digits_of-value (suc n) n (omega arith)

is_figure : ℕ → Bool
is_figure c = leb b'0' c && leb c b'9'

-- Digits with single underscores between them; whether a digit was last.
digits_under : Bool → ℕ → Text → Option ℕ
unfolding is_figure
digits_under true n [] = some n
digits_under false n [] = none
digits_under b n (c ∷ s) =
    if is_figure c || (b && c == b'_')
    then digits_under (is_figure c) (if is_figure c then n * 10 + (c - b'0') else n) s
    else none

with_sign : Bool → Option ℕ → Option ℤ
with_sign is_negative none = none
with_sign true (some n) = some (negate n)
with_sign false (some n) = some (pos n)

signed_digits : Text → Option ℤ
unfolding with_sign digits_under
signed_digits [] = none
signed_digits (c ∷ s) =
    if c == b'-'
    then with_sign true (digits_under false 0 s)
    else if c == b'+'
    then with_sign false (digits_under false 0 s)
    else with_sign false (digits_under false 0 (c ∷ s))

-- `int(s)`; `none` is the exception.
unfoldable pub int_text : Text → Option ℤ
unfolding signed_digits
int_text s = signed_digits (strip s)
