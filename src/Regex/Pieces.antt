-- ===== src/Regex/Pieces.antt =====
-- A text with escape sequences in it, and what the machine that removes them leaves.
use xfce_linux.Base.{
  ℕ, ◌≡◌, refl, ap, sym, ◌∙◌, Bool, true, false, not, List, [], ◌∷◌, ◌++◌, append_assoc, Text, ◌==◌,
  any, All, arith, or_left, or_right,
}
use xfce_linux.Regex.Escapes.{escape_char, plain, params, step, scan, scan_nil, scan_char}

-- A part of a text: characters, or a sequence with its parameters and its last character.
pub data Piece : Type 0 where
  chars : Text → Piece
  code : Text → ℕ → Piece

abbrev pub render_piece : Piece → Text
render_piece (chars s) = s
render_piece (code ps x) = escape_char ∷ b'[' ∷ (ps ++ x ∷ [])

abbrev pub render : List Piece → Text
render [] = []
render (a ∷ pieces) = render_piece a ++ render pieces

abbrev pub text_of_piece : Piece → Text
text_of_piece (chars s) = s
text_of_piece (code ps x) = []

-- The text without the sequences.
abbrev pub text_of : List Piece → Text
text_of [] = []
text_of (a ∷ pieces) = text_of_piece a ++ text_of pieces

abbrev pub is_escape : ℕ → Bool
is_escape c = c == escape_char

true_of_not : (b : Bool) → not b ≡ false → b ≡ true
true_of_not b h = ground arith

module _ (p q : ℕ → Bool) where
  abbrev pub IsPiece : Piece → Type 0
  IsPiece (chars s) = any is_escape s ≡ false
  IsPiece (code ps x) = (any (λ c. not (p c)) ps ≡ false) × (p x ≡ false) × (q x ≡ true)

  scan_chars :
      (s r : Text) → any is_escape s ≡ false → scan p q plain (s ++ r) ≡ s ++ scan p q plain r
  scan_chars [] r h = refl
  scan_chars (c ∷ s) r h =
      scan_char p q c (s ++ r) (or_left (is_escape c) (any is_escape s) h)
      ∙ ap (λ t. c ∷ t) (scan_chars s r (or_right (is_escape c) (any is_escape s) h))

  scan_code :
      (acc ps : Text) (x : ℕ) (r : Text)
      → any (λ c. not (p c)) ps ≡ false
      → p x ≡ false
      → q x ≡ true
      → scan p q (params acc) (ps ++ x ∷ r) ≡ scan p q plain r
  unfolding scan step
  scan_code acc [] x r h k l = rw (k, l) refl
  scan_code acc (c ∷ ps) x r h k l =
      let m = true_of_not (p c) (or_left (not (p c)) (any (λ d. not (p d)) ps) h) in
      let n = or_right (not (p c)) (any (λ d. not (p d)) ps) h in
      rw m (scan_code (acc ++ c ∷ []) ps x r n k l)

  scan_piece :
      (a : Piece) (r : Text)
      → IsPiece a
      → scan p q plain (render_piece a ++ r) ≡ text_of_piece a ++ scan p q plain r
  unfolding scan step
  scan_piece (chars s) r h = scan_chars s r h
  scan_piece (code ps x) r (h, k, l) =
      ap (scan p q (params [])) (append_assoc ps (x ∷ []) r) ∙ scan_code [] ps x r h k l

  -- The sequences are gone, and all the rest stays.
  pub scan-render :
      (pieces : List Piece) → All IsPiece pieces → scan p q plain (render pieces) ≡ text_of pieces
  scan-render [] h = sym (scan_nil p q)
  scan-render (a ∷ pieces) (h, hs) =
      scan_piece a (render pieces) h ∙ ap (λ t. text_of_piece a ++ t) (scan-render pieces hs)
