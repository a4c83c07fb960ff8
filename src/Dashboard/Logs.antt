-- ===== src/Dashboard/Logs.antt =====
-- The log of a job: `BUILD_LOG_RE` and `host_log` in tools/bst_dashboard/parser.py.
use xfce_linux.Base.{
  ℕ, ◌≡◌, refl, ◌∙◌, ap, true, false, some, [], ◌∷◌, ◌++◌, append_assoc, append-nil, subst, Text,
  codes, is_empty, ends_with, ends_with-append, strip, drop_while_end-last, is_empty-path_join,
  is_space, arith, Option-cases, inl, inr, drop_while,
}
use xfce_linux.Regex.{Cursor, exec, plus, chr, sat, ◌▸◌, at_end, search_in}
use xfce_linux.Regex.Suffix.{exec-IsSound, lit_codes-Ends, search_in-Ends}
use xfce_linux.Dashboard.Patterns.{build_log_re, is_dir_char, is_name_char}
use xfce_linux.Dashboard.Parse.{is_top, job_log}

-- At the end of a stripped text `$` leaves nothing.
at_end_of_strip : (s w r : Text) → strip s ≡ w ++ r → at_end r ≡ true → r ≡ []
at_end_of_strip s w [] e h = refl
at_end_of_strip s w (x ∷ []) e h =
    let blank = drop_while_end-last is_space (drop_while is_space s) w x e in
    let line_feed : x ≡ 10 = ground arith in
    absurd (
      let no_blank : is_space 10 ≡ false = subst (λ (n : ℕ). is_space n ≡ false) line_feed blank in
      cc)
at_end_of_strip s w (x ∷ y ∷ r) e h = absurd (ground arith)

regroup :
    {t c d e : Text} (w a b x r : Text)
    → t ≡ w ++ c
    → c ≡ a ++ d
    → d ≡ b ++ e
    → e ≡ x ++ r
    → t ≡ ((w ++ a ++ b) ++ x) ++ r
regroup w a b x r p q u v =
    p ∙ ap (λ z. w ++ z) (q ∙ ap (λ z. a ++ z) (u ∙ ap (λ z. b ++ z) v)) ∙ simp append_assoc

-- A match of `BUILD_LOG_RE` in a stripped text ends the text by `.log`.
build_log_end :
    (s : Text) (m : Cursor)
    → search_in build_log_re (strip s) ≡ some m
    → ends_with (strip s) (codes ".log") ≡ true
unfolding build_log_re exec
build_log_end s m h =
    let (c, w, p, q) = search_in-Ends build_log_re (strip s) m h in
    let dirs = exec-IsSound (plus (sat is_dir_char)) _ c m q in
    let names =
      exec-IsSound (plus (chr b'/' ▸ plus (sat is_name_char))) _ dirs.stop m dirs.result in
    let (ext, same) = lit_codes-Ends (codes ".log") _ names.stop m names.result in
    let parts =
      regroup w dirs.taken names.taken ext.taken ext.stop.rest p dirs.split names.split ext.split in
    let pre = w ++ dirs.taken ++ names.taken in
    let ended =
      at_end_of_strip s (pre ++ ext.taken) ext.stop.rest parts (ground (arith, ext.result)) in
    let whole : strip s ≡ pre ++ codes ".log" =
      parts ∙ ap (λ z. (pre ++ ext.taken) ++ z) ended ∙ append-nil _ ∙ ap (λ z. pre ++ z) same in
    rw whole (ends_with-append pre (codes ".log"))

nonempty_end : (s : Text) → ends_with s (codes ".log") ≡ true → is_empty s ≡ false
nonempty_end [] h = absurd (cc)
nonempty_end (c ∷ s) h = refl

-- A job that is started has a log: the message that starts it ends in `.log`.
pub job_log-nonempty :
    (dir s : Text) → is_top (strip s) ≡ true → is_empty (job_log dir (strip s)) ≡ false
unfolding is_top job_log
job_log-nonempty dir s h = elim (Option-cases (search_in build_log_re (strip s))) [
  | inl e ↦ absurd (ground arith)
  | inr (m, e) ↦
      let ends = build_log_end s m e in
      rw ends (is_empty-path_join dir (strip s) (nonempty_end (strip s) ends))
]
