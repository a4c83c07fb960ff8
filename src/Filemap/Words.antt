-- ===== src/Filemap/Words.antt =====
-- Words without white space, split out of a line, and the ends of a line.
use xfce_linux.Base.{
  ℕ, ◌≡◌, refl, ap, ◌∙◌, Bool, true, false, ◌&&◌, not, [], ◌∷◌, ◌++◌, Text, any, is_empty, or_left,
  or_right, split_by-append, is_space, split_by, split_words, cons_first, keep, drop_while_end,
  if◌then◌else◌,
}

-- A word: some characters, none of them white space.
pub record IsWord (w : Text) : Type 0 where
  pub no_space : any is_space w ≡ false
  pub some_char : is_empty w ≡ false

pub append_some : (a w : Text) → is_empty w ≡ false → is_empty (a ++ w) ≡ false
append_some [] w h = h
append_some (c ∷ a) w h = refl

keep_char :
    (d : ℕ) (w : Text)
    → is_space d ≡ false
    → (if is_empty w && is_space d then [] else d ∷ w) ≡ d ∷ w
keep_char d [] k = rw k refl
keep_char d (c ∷ w) k = refl

split_by-word : (w : Text) → any is_space w ≡ false → split_by is_space w ≡ w ∷ []
split_by-word [] h = refl
split_by-word (d ∷ w) h =
    let k : is_space d ≡ false = or_left (is_space d) (any is_space w) h in
    let l : any is_space w ≡ false = or_right (is_space d) (any is_space w) h in
    rw k (ap (cons_first d) (split_by-word w l))

abbrev filled : Text → Bool
filled w = not (is_empty w)

-- A word, two spaces and a text are split into the word and the words of the text.
pub split_words-two_spaces :
    (w s : Text) → IsWord w → split_words (w ++ b' ' ∷ b' ' ∷ s) ≡ w ∷ split_words s
split_words-two_spaces w s h =
    ap (keep filled) (split_by-append is_space b' ' w (b' ' ∷ s) refl h.no_space)
    ∙ rw h.some_char refl

pub split_words-word : (w : Text) → IsWord w → split_words w ≡ w ∷ []
split_words-word w h = ap (keep filled) (split_by-word w h.no_space) ∙ rw h.some_char refl

pub drop_while_end-word : (w : Text) → any is_space w ≡ false → drop_while_end is_space w ≡ w
drop_while_end-word [] h = refl
drop_while_end-word (d ∷ w) h =
    let k : is_space d ≡ false = or_left (is_space d) (any is_space w) h in
    let l : any is_space w ≡ false = or_right (is_space d) (any is_space w) h in
    rw (drop_while_end-word w l) (keep_char d w k)

pub drop_while_end-append :
    (p : ℕ → Bool) (a w : Text)
    → drop_while_end p w ≡ w
    → is_empty w ≡ false
    → drop_while_end p (a ++ w) ≡ a ++ w
drop_while_end-append p [] w h k = h
drop_while_end-append p (c ∷ a) w h k = rw (drop_while_end-append p a w h k, append_some a w k) refl

pub drop_while_end-last_char :
    (p : ℕ → Bool) (a : Text) (c : ℕ)
    → p c ≡ true
    → drop_while_end p (a ++ c ∷ []) ≡ drop_while_end p a
drop_while_end-last_char p [] c h = rw h refl
drop_while_end-last_char p (x ∷ a) c h = rw (drop_while_end-last_char p a c h) refl
