-- ===== src/Filemap/Colours.antt =====
-- scripts/gen-filemap.py: `strip_ansi` as one pass over the text.
use xfce_linux.Base.{
  any-append_false, ℕ, ◌≡◌, refl, ◌∙◌, Bool, true, false, [], ◌∷◌, ◌++◌, List, Text, any, All,
  arith, IsLine, is_line_end, not, or_right,
}
use xfce_linux.Regex.Escapes.{scan, plain}
use xfce_linux.Regex.Removal.{sub_all-scan}
use xfce_linux.Regex.Pieces.{
  Piece, chars, code, render, render_piece, text_of, text_of_piece, IsPiece, scan-render,
}
use xfce_linux.Filemap.Contents.{strip_ansi, ansi_escape, is_param, is_letter}

letter_no_param : (c : ℕ) → is_param c ≡ true → is_letter c ≡ false
letter_no_param c h = ground arith

param_no_letter : (c : ℕ) → is_letter c ≡ true → is_param c ≡ false
param_no_letter c h = ground arith

-- `strip_ansi` is one pass of the machine that holds back an escape character, a bracket and
-- parameters, drops them with the letter that ends them, and gives them out at any other character.
pub strip_ansi-scan : (s : Text) → strip_ansi s ≡ scan is_param is_letter plain s
unfolding strip_ansi ansi_escape
strip_ansi-scan s = sub_all-scan is_param is_letter refl letter_no_param s

-- A part as `strip_ansi` takes it.
abbrev pub IsColoured : Piece → Type 0
IsColoured = IsPiece is_param is_letter

pub strip_ansi-render : (ps : List Piece) → All IsColoured ps → strip_ansi (render ps) ≡ text_of ps
strip_ansi-render ps h = strip_ansi-scan (render ps) ∙ scan-render is_param is_letter ps h

param_no_end : (c : ℕ) → is_param c ≡ true → is_line_end c ≡ false
param_no_end c h = ground arith

letter_no_end : (c : ℕ) → is_letter c ≡ true → is_line_end c ≡ false
letter_no_end c h = ground arith

any-append_right : (p : ℕ → Bool) (s t : Text) → any p (s ++ t) ≡ false → any p t ≡ false
any-append_right p [] t h = h
any-append_right p (c ∷ s) t h = any-append_right p s t (or_right (p c) (any p (s ++ t)) h)

any-append_left : (p : ℕ → Bool) (s t : Text) → any p (s ++ t) ≡ false → any p s ≡ false
any-append_left p [] t h = refl
any-append_left p (c ∷ s) t h = ground (arith, any-append_left p s t)

params-IsLine : (ps : Text) → any (λ c. not (is_param c)) ps ≡ false → IsLine ps
params-IsLine [] h = refl
params-IsLine (c ∷ ps) h = ground (arith, param_no_end c, params-IsLine ps)

piece-IsLine : (a : Piece) → IsColoured a → IsLine (text_of_piece a) → IsLine (render_piece a)
piece-IsLine (chars s) h k = k
piece-IsLine (code ps x) (h, k, l) k' =
    any-append_false is_line_end ps (x ∷ []) (params-IsLine ps h) (rw (letter_no_end x l) refl)

pub render-IsLine : (ps : List Piece) → All IsColoured ps → IsLine (text_of ps) → IsLine (render ps)
render-IsLine [] h k = refl
render-IsLine (a ∷ ps) (h, hs) k =
    any-append_false is_line_end (render_piece a) (render ps)
      (piece-IsLine a h (any-append_left is_line_end (text_of_piece a) (text_of ps) k))
      (render-IsLine ps hs (any-append_right is_line_end (text_of_piece a) (text_of ps) k))
