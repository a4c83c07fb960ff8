-- ===== src/Base/Split.antt =====
-- Python's `str.split()`, `str.splitlines()`, `str.lower()` and `str.upper()`.
use Prim.Native.Nat.{ℕ, ◌+◌, ◌-◌}
use mathlib.Core.Bool.{Bool, ◌&&◌, ◌||◌, not}
use mathlib.Core.List.{List, [], ◌∷◌}
use xfce_linux.Base.Tests.{if◌then◌else◌, leb, ◌==◌}
use xfce_linux.Base.Lists.{keep}
use xfce_linux.Base.Strings.{Text, is_empty, is_space, cons_first, starts_with}

-- The parts between the characters that pass the test: always at least one.
abbrev pub split_by : (ℕ → Bool) → Text → List Text
split_by p [] = [] ∷ []
split_by p (c ∷ s) = let rest = split_by p s in if p c then [] ∷ rest else cons_first c rest

-- `s.split()`
abbrev pub split_words : Text → List Text
split_words s = keep (λ w. not (is_empty w)) (split_by is_space s)

-- The characters that end a line, and "\r\n" taken for one.
abbrev pub is_line_end : ℕ → Bool
is_line_end c =
    (leb 10 c && leb c 13) || (leb 28 c && leb c 30) || c == 133 || c == 8232 || c == 8233

abbrev pub one_line_end : Text → Text
one_line_end [] = []
one_line_end (c ∷ s) =
    let rest = one_line_end s in if c == 13 && starts_with s (10 ∷ []) then rest else c ∷ rest

abbrev pub drop_empty_last : List Text → List Text
drop_empty_last [] = []
drop_empty_last (p ∷ []) = if is_empty p then [] else p ∷ []
drop_empty_last (p ∷ q ∷ ps) = p ∷ drop_empty_last (q ∷ ps)

-- `s.splitlines()`
abbrev pub split_lines : Text → List Text
split_lines s = drop_empty_last (split_by is_line_end (one_line_end s))

-- `c.upper()` and `s.lower()` of ASCII
abbrev pub upper : ℕ → ℕ
upper c = if leb b'a' c && leb c b'z' then c - 32 else c

abbrev pub lower : Text → Text
lower [] = []
lower (c ∷ s) = (if leb b'A' c && leb c b'Z' then c + 32 else c) ∷ lower s
