-- ===== src/Base/SplitLaws.antt =====
-- Python's `str.split()` and `str.splitlines()` of parts put together.
use Prim.Native.Nat.{ℕ}
use mathlib.Core.Path.{◌≡◌, refl, ap, ◌∙◌}
use mathlib.Core.Bool.{Bool, true, false, ◌||◌}
use mathlib.Core.List.{List, [], ◌∷◌, ◌++◌}
use native.Mathlib.Omega.{arith}
use xfce_linux.Base.Tests.{◌==◌}
use xfce_linux.Base.Lists.{any, All}
use xfce_linux.Base.Strings.{Text, cons_first}
use xfce_linux.Base.Split.{split_by, is_line_end, one_line_end, drop_empty_last, split_lines}

pub or_left : (a b : Bool) → (a || b) ≡ false → a ≡ false
or_left a b h = ground arith

pub or_right : (a b : Bool) → (a || b) ≡ false → b ≡ false
or_right a b h = ground arith

pub any-append_false :
    (p : ℕ → Bool) (s t : Text) → any p s ≡ false → any p t ≡ false → any p (s ++ t) ≡ false
any-append_false p [] t h k = k
any-append_false p (c ∷ s) t h k = ground (arith, any-append_false p s t)

pub split_by-append :
    (p : ℕ → Bool) (c : ℕ) (w s : Text)
    → p c ≡ true
    → any p w ≡ false
    → split_by p (w ++ c ∷ s) ≡ w ∷ split_by p s
split_by-append p c [] s e h = rw e refl
split_by-append p c (d ∷ w) s e h =
    let k : p d ≡ false = or_left (p d) (any p w) h in
    let l : any p w ≡ false = or_right (p d) (any p w) h in
    rw k (ap (cons_first d) (split_by-append p c w s e l))

-- Each line with its end.
abbrev pub unlines : List Text → Text
unlines [] = []
unlines (l ∷ ls) = l ++ 10 ∷ unlines ls

-- No character of a line ends it.
abbrev pub IsLine : Text → Type 0
IsLine l = any is_line_end l ≡ false

no_return : (c : ℕ) → is_line_end c ≡ false → (c == 13) ≡ false
no_return c h = ground arith

one_line_end-append :
    (l s : Text) → IsLine l → one_line_end (l ++ 10 ∷ s) ≡ l ++ 10 ∷ one_line_end s
one_line_end-append [] s h = refl
one_line_end-append (c ∷ l) s h =
    let k = no_return c (or_left (is_line_end c) (any is_line_end l) h) in
    let r = or_right (is_line_end c) (any is_line_end l) h in
    rw k (ap (λ t. c ∷ t) (one_line_end-append l s r))

one_line_end-unlines : (ls : List Text) → All IsLine ls → one_line_end (unlines ls) ≡ unlines ls
one_line_end-unlines [] h = refl
one_line_end-unlines (l ∷ ls) (h, hs) =
    one_line_end-append l (unlines ls) h ∙ ap (λ t. l ++ 10 ∷ t) (one_line_end-unlines ls hs)

split_by-unlines :
    (ls : List Text) → All IsLine ls → split_by is_line_end (unlines ls) ≡ ls ++ [] ∷ []
split_by-unlines [] h = refl
split_by-unlines (l ∷ ls) (h, hs) =
    split_by-append is_line_end 10 l (unlines ls) refl h ∙ ap (λ t. l ∷ t) (split_by-unlines ls hs)

drop_empty_last-append : (ls : List Text) → drop_empty_last (ls ++ [] ∷ []) ≡ ls
drop_empty_last-append [] = refl
drop_empty_last-append (l ∷ []) = refl
drop_empty_last-append (l ∷ k ∷ ls) = ap (λ t. l ∷ t) (drop_empty_last-append (k ∷ ls))

pub split_lines-unlines : (ls : List Text) → All IsLine ls → split_lines (unlines ls) ≡ ls
split_lines-unlines ls h =
    ap (λ t. drop_empty_last (split_by is_line_end t)) (one_line_end-unlines ls h)
    ∙ ap drop_empty_last (split_by-unlines ls h)
    ∙ drop_empty_last-append ls
