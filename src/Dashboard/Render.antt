-- ===== src/Dashboard/Render.antt =====
-- The lines that BuildStream writes for an event, and what `LINE_RE` in
-- tools/bst_dashboard/parser.py reads back from them.
use xfce_linux.Base.{
  ℕ, ◌≡◌, refl, Bool, true, false, some, List, [], ◌∷◌, ◌++◌, Text, is_space, pad_right, All,
}
use xfce_linux.Regex.{
  plus, bos, Regex, Cursor, Cont, exec, match_start, group, some_spaces, spaces, sat, chr, ◌▸◌,
}
use xfce_linux.Regex.Forward.{
  at, exec-plus, exec-chr, exec-group_plus, exec-seq, exec-bos, exec-chr_first,
}
use xfce_linux.Dashboard.Statuses.{
  Word, word_text, IsMessage, message_caps, tail_re, exec-word, NotAt-word,
}
use xfce_linux.Dashboard.Patterns.{line_re, status_re, is_time_char, is_hash_char, is_ctx_char}

-- The parts of a line that BuildStream writes.
pub record Parts : Type 0 where
  pub time : Text
  pub hash : Text
  pub ctx : Text
  pub word : Word
  pub msg : Text

unfoldable pub render : Parts → Text
render p =
    b'['
    ∷ (p.time
        ++ b']'
          ∷ b'['
          ∷ (p.hash
              ++ b']'
                ∷ b'['
                ∷ (p.ctx ++ b']' ∷ b' ' ∷ (pad_right 7 (word_text p.word) ++ b' ' ∷ p.msg))))

abbrev pub AllOf : (ℕ → Bool) → Text → Type 0
AllOf q [] = ⊥
AllOf q (x ∷ w) = All (λ y. q y ≡ true) (x ∷ w)

pub record IsWritten (p : Parts) : Type 0 where
  pub time : AllOf is_time_char p.time
  pub hash : AllOf is_hash_char p.hash
  pub ctx : AllOf is_ctx_char p.ctx
  pub msg : IsMessage p.msg

-- One bracketed field, in front of a pattern that has a result.
exec-field :
    (k : Cont) (m : Cursor) (n : ℕ) (q : ℕ → Bool) (w r : Text) (caps : List (ℕ × Text))
    (next : Regex)
    → AllOf q w
    → q b']' ≡ false
    → exec next k (at r ((n, w) ∷ caps)) ≡ some m
    → exec (group n (plus (sat q)) ▸ chr b']' ▸ next) k (at (w ++ b']' ∷ r) caps) ≡ some m
exec-field k m n q [] r caps next all stop h = elim all [ ]
exec-field k m n q (x ∷ w) r caps next all stop h =
    exec-seq k _ m (group n (plus (sat q))) (chr b']' ▸ next) (
      exec-group_plus _ m n q x w (b']' ∷ r) caps all stop
        (exec-seq k _ m (chr b']') next (exec-chr (exec next k) m b']' r _ h)))

-- A field with its opening bracket.
exec-box :
    (k : Cont) (m : Cursor) (n : ℕ) (q : ℕ → Bool) (w r : Text) (caps : List (ℕ × Text))
    (next : Regex)
    → AllOf q w
    → q b']' ≡ false
    → exec next k (at r ((n, w) ∷ caps)) ≡ some m
    → exec
        (chr b'[' ▸ group n (plus (sat q)) ▸ chr b']' ▸ next)
        k
        (at (b'[' ∷ (w ++ b']' ∷ r)) caps)
      ≡ some m
exec-box k m n q w r caps next all stop h =
    let field = group n (plus (sat q)) ▸ chr b']' ▸ next in
    exec-seq k (at (b'[' ∷ (w ++ b']' ∷ r)) caps) m (chr b'[') field (
      exec-chr (exec field k) m b'[' (w ++ b']' ∷ r) caps
        (exec-field k m n q w r caps next all stop h))

-- The cursor after a written line: all of it is taken, with these groups.
abbrev pub after_line : Parts → Cursor
after_line p = at [] (message_caps p.word p.msg ((3, p.ctx) ∷ (2, p.hash) ∷ (1, p.time) ∷ []))

abbrev status_part : Regex
status_part = group 4 status_re ▸ some_spaces ▸ tail_re

abbrev ctx_part : Regex
ctx_part = chr b'[' ▸ group 3 (plus (sat is_ctx_char)) ▸ chr b']' ▸ spaces ▸ status_part

abbrev hash_part : Regex
hash_part = chr b'[' ▸ group 2 (plus (sat is_hash_char)) ▸ chr b']' ▸ ctx_part

abbrev time_part : Regex
time_part = group 1 (plus (sat is_time_char)) ▸ chr b']' ▸ hash_part

abbrev status_text : Parts → Text
status_text p = pad_right 7 (word_text p.word) ++ b' ' ∷ p.msg

abbrev ctx_text : Parts → Text
ctx_text p = b'[' ∷ (p.ctx ++ b']' ∷ b' ' ∷ status_text p)

abbrev hash_text : Parts → Text
hash_text p = b'[' ∷ (p.hash ++ b']' ∷ ctx_text p)

module _ (p : Parts) (h : IsWritten p) where
  exec-status_part :
      (caps : List (ℕ × Text))
      → exec (spaces ▸ status_part) some (at (b' ' ∷ status_text p) caps)
        ≡ some (at [] (message_caps p.word p.msg caps))
  exec-status_part caps =
      let m = at [] (message_caps p.word p.msg caps) in
      exec-seq some (at (b' ' ∷ status_text p) caps) m spaces status_part (
        exec-plus (exec status_part some) m is_space b' ' [] (status_text p) caps (refl, tt)
          (NotAt-word p.word p.msg) (exec-word p.word p.msg caps h.msg))

  exec-hash_part : exec hash_part some (at (hash_text p) ((1, p.time) ∷ [])) ≡ some (after_line p)
  exec-hash_part =
      exec-box some (after_line p) 2 is_hash_char p.hash (ctx_text p) ((1, p.time) ∷ []) ctx_part
        h.hash refl
        (exec-box some (after_line p) 3 is_ctx_char p.ctx (b' ' ∷ status_text p)
          ((2, p.hash) ∷ (1, p.time) ∷ []) (spaces ▸ status_part) h.ctx refl
          (exec-status_part ((3, p.ctx) ∷ (2, p.hash) ∷ (1, p.time) ∷ [])))

  -- `LINE_RE` reads a written line of any of its statuses whole, and its groups are the parts, the
  -- status with the blanks that its pattern takes.
  pub match_start-render : match_start line_re (render p) ≡ some (after_line p)
  unfolding match_start line_re render
  match_start-render =
      let whole : Cursor = record { at_start = true; rest = render p; caps = [] } in
      exec-seq some whole (after_line p) bos (chr b'[' ▸ time_part) (
        exec-bos (exec (chr b'[' ▸ time_part) some) (after_line p) (render p) [] (
          exec-seq some whole (after_line p) (chr b'[') time_part (
            exec-chr_first (exec time_part some) (after_line p) b'[' (p.time ++ b']' ∷ hash_text p)
              (exec-field some (after_line p) 1 is_time_char p.time (hash_text p) [] hash_part
                h.time refl exec-hash_part))))
