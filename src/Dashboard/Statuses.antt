-- ===== src/Dashboard/Statuses.antt =====
-- The statuses of the lines that BuildStream writes, and what the end of `LINE_RE` in
-- tools/bst_dashboard/parser.py reads of them and of the message.
use xfce_linux.Base.{
  ℕ, ◌≡◌, refl, String, true, false, none, some, List, [], ◌∷◌, ◌++◌, Text, codes, is_space,
  pad_right, All, not, ◌==◌, starts_with, subst, append-nil,
}
use xfce_linux.Regex.{
  alt, Regex, Cursor, Cont, exec, group, dot, some_spaces, spaces, star, eos, ◌▸◌, lit,
}
use xfce_linux.Regex.Forward.{
  at, NotAt, exec-star, exec-plus, exec-group_star, group_taken, exec-seq, exec-group,
  exec-alt_left, exec-alt_right, exec-lit_codes, exec-lit_codes-none, exec-seq_none, exec-eos,
}
use xfce_linux.Dashboard.Patterns.{status_re}

-- The statuses.
pub data Word : Type 0 where
  start success failure skipped status info warn pull : Word

abbrev pub word_text : Word → Text
word_text start = codes "START"
word_text success = codes "SUCCESS"
word_text failure = codes "FAILURE"
word_text skipped = codes "SKIPPED"
word_text status = codes "STATUS"
word_text info = codes "INFO"
word_text warn = codes "WARN"
word_text pull = codes "PULL"

-- The message is one line, and begins with no blank.
abbrev pub IsMessage : Text → Type 0
IsMessage [] = ⊥
IsMessage (x ∷ s) = (is_space x ≡ false) × All (λ y. not (y == 10) ≡ true) (x ∷ s)

abbrev word_group : Word → Text
word_group start = codes "START   "
word_group success = codes "SUCCESS"
word_group failure = codes "FAILURE"
word_group skipped = codes "SKIPPED"
word_group status = codes "STATUS  "
word_group info = codes "INFO    "
word_group warn = codes "WARN    "
word_group pull = codes "PULL    "

abbrev pub message_caps : Word → Text → List (ℕ × Text) → List (ℕ × Text)
message_caps w msg caps = (5, msg) ∷ (4, word_group w) ∷ caps

abbrev pub tail_re : Regex
tail_re = group 5 (star dot) ▸ eos

exec-message :
    (msg : Text) (caps : List (ℕ × Text))
    → IsMessage msg
    → exec tail_re some (at msg caps) ≡ some (at [] ((5, msg) ∷ caps))
exec-message [] caps h = elim h [ ]
exec-message (x ∷ msg) caps h =
    let whole = x ∷ msg in
    subst (λ t. exec tail_re some (at t caps) ≡ some (at [] ((5, x ∷ msg) ∷ caps)))
      (append-nil whole)
      (exec-seq some _ _ (group 5 (star dot)) eos (
        exec-group_star (exec eos some) _ 5 (λ y. not (y == 10)) whole [] caps h.1 tt
          (exec-eos some _ _ refl)))

-- The blank after the status, and the message.
exec-gap :
    (msg : Text) (caps : List (ℕ × Text))
    → IsMessage msg
    → exec (some_spaces ▸ tail_re) some (at (b' ' ∷ msg) caps) ≡ some (at [] ((5, msg) ∷ caps))
exec-gap [] caps h = elim h [ ]
exec-gap (x ∷ msg) caps h = exec-seq some _ _ some_spaces tail_re (
    exec-star (exec tail_re some) _ is_space (b' ' ∷ []) (x ∷ msg) caps (refl, tt) h.0
      (exec-message (x ∷ msg) caps h))

exec-no_gap :
    (msg : Text) (caps : List (ℕ × Text))
    → IsMessage msg
    → exec (some_spaces ▸ tail_re) some (at msg caps) ≡ some (at [] ((5, msg) ∷ caps))
exec-no_gap [] caps h = elim h [ ]
exec-no_gap (x ∷ msg) caps h = exec-seq some _ _ some_spaces tail_re (
    exec-star (exec tail_re some) _ is_space [] (x ∷ msg) caps tt h.0
      (exec-message (x ∷ msg) caps h))

not_word :
    (k : Cont) (w : String) (s : Text) (caps : List (ℕ × Text))
    → starts_with s (codes w) ≡ false
    → exec (lit w ▸ spaces) k (at s caps) ≡ none
not_word k w s caps h =
    exec-seq_none k _ (lit w) spaces (λ k'. exec-lit_codes-none k' s (codes w) caps h)

-- The statuses after the first four.
abbrev last_words : Regex
last_words =
    alt (lit "STATUS" ▸ spaces)
      (alt (lit "INFO" ▸ spaces) (alt (lit "WARN" ▸ spaces) (lit "PULL" ▸ spaces)))

exec-last_words :
    (k : Cont) (m : Cursor) (s : Text) (caps : List (ℕ × Text))
    → starts_with s (codes "START") ≡ false
    → starts_with s (codes "SUCCESS") ≡ false
    → starts_with s (codes "FAILURE") ≡ false
    → starts_with s (codes "SKIPPED") ≡ false
    → exec last_words k (at s caps) ≡ some m
    → exec status_re k (at s caps) ≡ some m
unfolding status_re
exec-last_words k m s caps a b c d h = exec-alt_right _ _ _ _ _ (not_word _ "START" s caps a) (
    exec-alt_right _ _ _ _ _ (exec-lit_codes-none _ _ (codes "SUCCESS") caps b) (
      exec-alt_right _ _ _ _ _ (exec-lit_codes-none _ _ (codes "FAILURE") caps c)
        (exec-alt_right _ _ _ _ _ (exec-lit_codes-none _ _ (codes "SKIPPED") caps d) h)))

pub exec-word :
    (w : Word) (msg : Text) (caps : List (ℕ × Text))
    → IsMessage msg
    → exec
        (group 4 status_re ▸ some_spaces ▸ tail_re)
        some
        (at (pad_right 7 (word_text w) ++ b' ' ∷ msg) caps)
      ≡ some (at [] (message_caps w msg caps))
unfolding status_re
exec-word start [] caps h = elim h [ ]
exec-word start (x ∷ msg) caps h = exec-seq some _ _ (group 4 status_re) (some_spaces ▸ tail_re) (
    exec-group _ _ _ 4 status_re (
      exec-alt_left _ _ _ _ _ (
        exec-seq _ _ _ (lit "START") spaces (
          exec-lit_codes _ _ b'S' (codes "TART") _ caps (
            exec-plus _ _ is_space b' ' (codes "  ") (x ∷ msg) caps (refl, (refl, (refl, tt))) h.0
              (rw (group_taken (codes "START   ") (x ∷ msg)) (exec-no_gap (x ∷ msg) _ h)))))))
exec-word success msg caps h = exec-seq some _ _ (group 4 status_re) (some_spaces ▸ tail_re) (
    exec-group _ _ _ 4 status_re (
      exec-alt_right _ _ _ _ _ (not_word _ "START" _ caps refl) (
        exec-alt_left _ _ _ _ _ (
          exec-lit_codes _ _ b'S' (codes "UCCESS") _ caps
            (rw (group_taken (codes "SUCCESS") (b' ' ∷ msg)) (exec-gap msg _ h))))))
exec-word failure msg caps h = exec-seq some _ _ (group 4 status_re) (some_spaces ▸ tail_re) (
    exec-group _ _ _ 4 status_re (
      exec-alt_right _ _ _ _ _ (not_word _ "START" _ caps refl) (
        exec-alt_right _ _ _ _ _ (exec-lit_codes-none _ _ (codes "SUCCESS") caps refl) (
          exec-alt_left _ _ _ _ _ (
            exec-lit_codes _ _ b'F' (codes "AILURE") _ caps
              (rw (group_taken (codes "FAILURE") (b' ' ∷ msg)) (exec-gap msg _ h)))))))
exec-word skipped msg caps h = exec-seq some _ _ (group 4 status_re) (some_spaces ▸ tail_re) (
    exec-group _ _ _ 4 status_re (
      exec-alt_right _ _ _ _ _ (not_word _ "START" _ caps refl) (
        exec-alt_right _ _ _ _ _ (exec-lit_codes-none _ _ (codes "SUCCESS") caps refl) (
          exec-alt_right _ _ _ _ _ (exec-lit_codes-none _ _ (codes "FAILURE") caps refl) (
            exec-alt_left _ _ _ _ _ (
              exec-lit_codes _ _ b'S' (codes "KIPPED") _ caps
                (rw (group_taken (codes "SKIPPED") (b' ' ∷ msg)) (exec-gap msg _ h))))))))
exec-word status [] caps h = elim h [ ]
exec-word status (x ∷ msg) caps h = exec-seq some _ _ (group 4 status_re) (some_spaces ▸ tail_re) (
    exec-group _ _ _ 4 status_re (
      exec-last_words _ _ _ caps refl refl refl refl (
        exec-alt_left _ _ _ _ _ (
          exec-seq _ _ _ (lit "STATUS") spaces (
            exec-lit_codes _ _ b'S' (codes "TATUS") _ caps (
              exec-plus _ _ is_space b' ' (codes " ") (x ∷ msg) caps (refl, (refl, tt)) h.0
                (rw (group_taken (codes "STATUS  ") (x ∷ msg)) (exec-no_gap (x ∷ msg) _ h))))))))
exec-word info [] caps h = elim h [ ]
exec-word info (x ∷ msg) caps h = exec-seq some _ _ (group 4 status_re) (some_spaces ▸ tail_re) (
    exec-group _ _ _ 4 status_re (
      exec-last_words _ _ _ caps refl refl refl refl (
        exec-alt_right _ _ _ _ _ (not_word _ "STATUS" _ caps refl) (
          exec-alt_left _ _ _ _ _ (
            exec-seq _ _ _ (lit "INFO") spaces (
              exec-lit_codes _ _ b'I' (codes "NFO") _ caps (
                exec-plus _ _ is_space b' ' (codes "   ") (x ∷ msg) caps
                  (refl, (refl, (refl, (refl, tt)))) h.0
                  (rw (group_taken (codes "INFO    ") (x ∷ msg)) (exec-no_gap (x ∷ msg) _ h)))))))))
exec-word warn [] caps h = elim h [ ]
exec-word warn (x ∷ msg) caps h = exec-seq some _ _ (group 4 status_re) (some_spaces ▸ tail_re) (
    exec-group _ _ _ 4 status_re (
      exec-last_words _ _ _ caps refl refl refl refl (
        exec-alt_right _ _ _ _ _ (not_word _ "STATUS" _ caps refl) (
          exec-alt_right _ _ _ _ _ (not_word _ "INFO" _ caps refl) (
            exec-alt_left _ _ _ _ _ (
              exec-seq _ _ _ (lit "WARN") spaces (
                exec-lit_codes _ _ b'W' (codes "ARN") _ caps (
                  exec-plus _ _ is_space b' ' (codes "   ") (x ∷ msg) caps
                    (refl, (refl, (refl, (refl, tt)))) h.0
                    (rw (group_taken (codes "WARN    ") (x ∷ msg))
                      (exec-no_gap (x ∷ msg) _ h))))))))))
exec-word pull [] caps h = elim h [ ]
exec-word pull (x ∷ msg) caps h = exec-seq some _ _ (group 4 status_re) (some_spaces ▸ tail_re) (
    exec-group _ _ _ 4 status_re (
      exec-last_words _ _ _ caps refl refl refl refl (
        exec-alt_right _ _ _ _ _ (not_word _ "STATUS" _ caps refl) (
          exec-alt_right _ _ _ _ _ (not_word _ "INFO" _ caps refl) (
            exec-alt_right _ _ _ _ _ (not_word _ "WARN" _ caps refl) (
              exec-seq _ _ _ (lit "PULL") spaces (
                exec-lit_codes _ _ b'P' (codes "ULL") _ caps (
                  exec-plus _ _ is_space b' ' (codes "   ") (x ∷ msg) caps
                    (refl, (refl, (refl, (refl, tt)))) h.0
                    (rw (group_taken (codes "PULL    ") (x ∷ msg))
                      (exec-no_gap (x ∷ msg) _ h))))))))))

pub NotAt-word : (w : Word) (msg : Text) → NotAt is_space (pad_right 7 (word_text w) ++ b' ' ∷ msg)
NotAt-word start msg = refl
NotAt-word success msg = refl
NotAt-word failure msg = refl
NotAt-word skipped msg = refl
NotAt-word status msg = refl
NotAt-word info msg = refl
NotAt-word warn msg = refl
NotAt-word pull msg = refl
