-- ===== src/Regex/Anchored.antt =====
-- Python's `re`: `findall` of a pattern that begins with `^`, without the flag MULTILINE.
use xfce_linux.Base.{
  ℕ, zero, suc, ◌≡◌, ◌≤◌, refl, false, true, some, none, Option, List, [], ◌∷◌, Text, length, arith,
}
use xfce_linux.Regex.{Regex, bos, seq, exec, find_loop, find_all, Cursor}

find_loop-anchored : (f : ℕ) (r : Regex) (s : Text) → find_loop f (seq bos r) false s ≡ []
unfolding find_loop exec
find_loop-anchored zero r s = refl
find_loop-anchored (suc f) r [] = refl
find_loop-anchored (suc f) r (x ∷ s) = find_loop-anchored f r s

abbrev found_next : ℕ → Regex → Text → Option Cursor → List Cursor
found_next f r s none = find_loop f (seq bos r) false s
found_next f r s (some m) = m ∷ find_loop f (seq bos r) false m.rest

found_next-few :
    (f : ℕ) (r : Regex) (s : Text) (o : Option Cursor) → length (found_next f r s o) ≤ 1
found_next-few f r s none = rw (find_loop-anchored f r s) (omega arith)
found_next-few f r s (some m) = rw (find_loop-anchored f r m.rest) (omega arith)

-- Such a pattern is found once at most.
pub find_all-anchored : (r : Regex) (s : Text) → length (find_all (seq bos r) s) ≤ 1
unfolding find_all find_loop exec
find_all-anchored r [] = omega arith
find_all-anchored r (x ∷ s) =
    found_next-few (length (x ∷ s)) r s
      (exec r some (record { at_start = true; rest = x ∷ s; caps = [] }))
