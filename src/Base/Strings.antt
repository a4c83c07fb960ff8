-- ===== src/Base/Strings.antt =====
-- Python's `str` as a list of code points, and the methods of it that the program calls.
use Prim.Native.Nat.{ℕ}
use Prim.Native.Char.{code}
use Prim.Native.String.{String}
use Prim.Native.Nat.{zero, suc, ◌+◌, ◌-◌, ◌*◌}
use xfce_linux.Base.Lists.{length}
use mathlib.Core.Path.{◌≡◌, refl}
use mathlib.Core.Bool.{Bool, true, false, ◌&&◌, ◌||◌, not}
use mathlib.Core.List.{List, [], ◌∷◌, ◌++◌}
use native.Mathlib.Omega.{arith}
use xfce_linux.Base.Tests.{if◌then◌else◌, leb, ◌==◌}

abbrev pub Text : Type 0
Text = List ℕ

-- The code points of a literal.
abbrev pub codes : String → Text
codes String.[] = []
codes (String.◌∷◌ c s) = code c ∷ codes s

-- `s == t`
abbrev pub text_eq : Text → Text → Bool
text_eq [] [] = true
text_eq [] (d ∷ t) = false
text_eq (c ∷ s) [] = false
text_eq (c ∷ s) (d ∷ t) = c == d && text_eq s t

pub text_eq_self : (s : Text) → text_eq s s ≡ true
text_eq_self [] = refl
text_eq_self (c ∷ s) = ground (arith, text_eq_self s)

pub text_eq→≡ : (s t : Text) → text_eq s t ≡ true → s ≡ t
text_eq→≡ [] [] h = refl
text_eq→≡ [] (d ∷ t) h = cc
text_eq→≡ (c ∷ s) [] h = cc
text_eq→≡ (c ∷ s) (d ∷ t) h = ground (arith, text_eq→≡ s t)

pub text_eq_comm : (s t : Text) → text_eq s t ≡ text_eq t s
text_eq_comm [] [] = refl
text_eq_comm [] (d ∷ t) = refl
text_eq_comm (c ∷ s) [] = refl
text_eq_comm (c ∷ s) (d ∷ t) = ground (arith, text_eq_comm s t)

-- `not s`
abbrev pub is_empty : Text → Bool
is_empty [] = true
is_empty (c ∷ s) = false

-- `s.startswith(p)`
abbrev pub starts_with : Text → Text → Bool
starts_with s [] = true
starts_with [] (d ∷ p) = false
starts_with (c ∷ s) (d ∷ p) = c == d && starts_with s p

-- `s.endswith(p)`
abbrev pub ends_with : Text → Text → Bool
ends_with [] p = text_eq [] p
ends_with (c ∷ s) p = text_eq (c ∷ s) p || ends_with s p

-- `p in s`
abbrev pub contains_text : Text → Text → Bool
contains_text [] p = starts_with [] p
contains_text (c ∷ s) p = starts_with (c ∷ s) p || contains_text s p

-- `str.isspace` and `\s`: the white space of Unicode.
abbrev pub is_space : ℕ → Bool
is_space c =
    (leb 9 c && leb c 13)
    || (leb 28 c && leb c 32)
    || c == 0x85
    || c == 0xa0
    || c == 0x1680
    || (leb 0x2000 c && leb c 0x200a)
    || c == 0x2028
    || c == 0x2029
    || c == 0x202f
    || c == 0x205f
    || c == 0x3000

-- `s.lstrip(...)` by a test of characters.
abbrev pub drop_while : (ℕ → Bool) → Text → Text
drop_while p [] = []
drop_while p (c ∷ s) = if p c then drop_while p s else c ∷ s

-- `s.rstrip(...)`: a character goes if it passes the test and all after it went.
abbrev pub drop_while_end : (ℕ → Bool) → Text → Text
drop_while_end p [] = []
drop_while_end p (c ∷ s) =
    let rest = drop_while_end p s in if is_empty rest && p c then [] else c ∷ rest

abbrev pub rstrip : Text → Text
rstrip = drop_while_end is_space

-- `s.strip()`
abbrev pub strip : Text → Text
strip s = drop_while_end is_space (drop_while is_space s)

-- `s.split(c)` for one character: always at least one part.
abbrev pub cons_first : ℕ → List Text → List Text
cons_first c [] = (c ∷ []) ∷ []
cons_first c (p ∷ ps) = (c ∷ p) ∷ ps

abbrev pub split_on : ℕ → Text → List Text
split_on d [] = [] ∷ []
split_on d (c ∷ s) = let rest = split_on d s in if c == d then [] ∷ rest else cons_first c rest

-- `d.join(parts)`
abbrev pub join : Text → List Text → Text
join d [] = []
join d (p ∷ []) = p
join d (p ∷ q ∷ ps) = p ++ d ++ join d (q ∷ ps)

-- `os.path.join(a, b)`
abbrev pub path_join : Text → Text → Text
path_join a b =
    if starts_with b (codes "/")
    then b
    else if is_empty a || ends_with a (codes "/")
    then a ++ b
    else a ++ b'/' ∷ b

-- `s.replace(p, "")` for a non-empty `p`. The number counts the characters of `p` still to skip.
abbrev pub without_text : Text → ℕ → Text → Text
without_text p skip [] = []
without_text p zero (c ∷ s) =
    let next = without_text p (length p - 1) s in
    let here = without_text p 0 s in if starts_with (c ∷ s) p then next else c ∷ here
without_text p (suc skip) (c ∷ s) = without_text p skip s

-- `int(s)` for a text of decimal digits.
abbrev pub digits_value : ℕ → Text → ℕ
digits_value n [] = n
digits_value n (c ∷ s) = digits_value (n * 10 + (c - 48)) s

-- `parts[-1]`
abbrev pub last_or {ℓ} : {A : Type ℓ} → A → List A → A
last_or a [] = a
last_or a (b ∷ l) = last_or b l

-- `s.split(c)[-1]`
abbrev pub last_part : ℕ → Text → Text
last_part d s = last_or [] (split_on d s)

-- `f"{s:7s}"`: blanks on the right up to a width.
abbrev pub pad_right : ℕ → Text → Text
pad_right zero s = s
pad_right (suc n) [] = 32 ∷ pad_right n []
pad_right (suc n) (c ∷ s) = c ∷ pad_right n s

-- `c in s` for one character.
abbrev pub has_char : ℕ → Text → Bool
has_char c [] = false
has_char c (x ∷ s) = x == c || has_char c s

-- The first and the last part of `s.partition(c)`.
abbrev pub before_first : ℕ → Text → Text
before_first c [] = []
before_first c (x ∷ s) = if x == c then [] else x ∷ before_first c s

abbrev pub after_first : ℕ → Text → Text
after_first c [] = []
after_first c (x ∷ s) = if x == c then s else after_first c s

-- `s.rsplit(c, 1)[0]` and `s.rsplit(c, 1)[-1]`
abbrev pub before_last : ℕ → Text → Text
before_last c [] = []
before_last c (x ∷ s) = if x == c && not (has_char c s) then [] else x ∷ before_last c s

abbrev pub after_last : ℕ → Text → Text
after_last c [] = []
after_last c (x ∷ s) =
    let rest = after_last c s in if has_char c s then rest else if x == c then s else x ∷ s
