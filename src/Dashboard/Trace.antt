-- ===== src/Dashboard/Trace.antt =====
-- The build state as a state machine: the updates that tools/bst_dashboard/parser.py makes, and
-- every `parse_line` as a sequence of them.
use xfce_linux.Base.{
  ℕ, ◌≡◌, refl, false, Text, codes, text_eq, is_empty, starts_with, arith, Bool-cases, Option-cases,
  inl, inr, true,
}
use xfce_linux.Regex.{Cursor, match_start, search_in, cap}
use xfce_linux.Dashboard.Types.{State, update}
use xfce_linux.Dashboard.Updates.{
  reset, set_start, pipeline_done, set_total, backfill_failures, add_failure_elem, set_fail_log,
  add_recent, start_job, finish_job, fail_job, skip_pull, pull_done,
}
use xfce_linux.Dashboard.Patterns.{
  build_header_re, line_re, pipeline_summary_re, summary_total_re, summary_queue_re,
  failure_elem_re, bst_log_path_re,
}
use xfce_linux.Dashboard.Parse.{
  Outside, Line, reset_state, on_total, on_queue, on_failure_elem, on_log_path, on_unstructured,
  on_event, event_of, Event, build_started, build_succeeded, build_failed, pull_skipped,
  pull_succeeded, no_event, on_structured, on_line, on_body, on_clean, line_of, parse_line,
  clean_line, is_top,
}
use xfce_linux.Dashboard.Logs.{job_log-nonempty}

-- One update. A job is started with a log.
pub data Step (s t : State) : Type 0 where
  rotated : t ≡ update reset s → Step s t
  header : (ts : ℕ) (line : Text) → t ≡ update (set_start ts line) s → Step s t
  ended : (now : ℕ) (line : Text) → t ≡ update (pipeline_done now line) s → Step s t
  counted : (n : ℕ) → t ≡ update (set_total n) s → Step s t
  backfilled : (n : ℕ) → t ≡ update (backfill_failures n) s → Step s t
  blamed : (e : Text) → t ≡ update (add_failure_elem e) s → Step s t
  attached : (p : Text) → t ≡ update (set_fail_log p) s → Step s t
  listed : (line : Text) → t ≡ update (add_recent line) s → Step s t
  started :
      (hash short : Text) (now : ℕ) (log : Text)
      → is_empty log ≡ false
      → t ≡ update (start_job hash short now log) s
      → Step s t
  finished :
      (hash short : Text) (now later : ℕ)
      → t ≡ update (finish_job hash short now later) s
      → Step s t
  broken :
      (hash short : Text) (now later : ℕ) → t ≡ update (fail_job hash short now later) s → Step s t
  skipped : t ≡ update skip_pull s → Step s t
  pulled : t ≡ update pull_done s → Step s t

pub data Trace (s : State) : State → Type 0 where
  here : Trace s s
  next : {t u : State} → Trace s t → Step t u → Trace s u

Trace-one : {s t : State} → Step s t → Trace s t
Trace-one st = next here st

pub Trace-trans : {s t u : State} → Trace s t → Trace t u → Trace s u
Trace-trans r here = r
Trace-trans r (next q st) = next (Trace-trans r q) st

pub reset_state-Trace : (s : State) → Trace s (reset_state s)
unfolding reset_state
reset_state-Trace s = Trace-one (rotated refl)

-- Only a top-level build line starts a job.
event_of-is_top : (l : Line) → event_of l ≡ build_started → is_top l.msg ≡ true
unfolding event_of
event_of-is_top l e = ground arith

module _ (s : State) where
  on_total-Trace : (clean : Text) → Trace s (on_total clean s)
  unfolding on_total
  on_total-Trace clean = elim (Option-cases (match_start summary_total_re clean)) [
    | inl e ↦ rw (e, on_total) here
    | inr (m, e) ↦ rw (e, on_total) (Trace-one (counted _ refl))
  ]

  on_queue-Trace : (clean : Text) → Trace s (on_queue clean s)
  unfolding on_queue
  on_queue-Trace clean = elim (Option-cases (match_start summary_queue_re clean)) [
    | inl e ↦ rw (e, on_queue) here
    | inr (m, e) ↦ elim (Bool-cases (text_eq (cap 1 m) (codes "Build"))) [
      | inl b ↦ rw (e, on_queue, b) (Trace-one (backfilled _ refl))
      | inr b ↦ rw (e, on_queue, b) here
    ]
  ]

  on_failure_elem-Trace : (clean : Text) → Trace s (on_failure_elem clean s)
  unfolding on_failure_elem
  on_failure_elem-Trace clean = elim (Option-cases (match_start failure_elem_re clean)) [
    | inl e ↦ rw (e, on_failure_elem) here
    | inr (m, e) ↦ rw (e, on_failure_elem) (Trace-one (blamed _ refl))
  ]

  on_log_path-Trace : (dir clean : Text) → Trace s (on_log_path dir clean s)
  unfolding on_log_path
  on_log_path-Trace dir clean = elim (Option-cases (match_start bst_log_path_re clean)) [
    | inl e ↦ rw (e, on_log_path) here
    | inr (m, e) ↦ rw (e, on_log_path) (Trace-one (attached _ refl))
  ]

  on_unstructured-Trace : (clean : Text) → Trace s (on_unstructured clean s)
  unfolding on_unstructured
  on_unstructured-Trace clean = elim (Bool-cases (starts_with clean (codes "        "))) [
    | inl e ↦ rw e here
    | inr e ↦ rw e (Trace-one (listed _ refl))
  ]

  on_event-Trace :
      (o : Outside) (m : Cursor) (ev : Event)
      → event_of (line_of m) ≡ ev
      → Trace s (on_event o (line_of m) ev s)
  unfolding on_event line_of
  on_event-Trace o m build_started e =
      Trace-one (
        started _ _ _ _ (job_log-nonempty o.logs_dir (cap 5 m) (event_of-is_top (line_of m) e))
          refl)
  on_event-Trace o m build_succeeded e = Trace-one (finished _ _ _ _ refl)
  on_event-Trace o m build_failed e = Trace-one (broken _ _ _ _ refl)
  on_event-Trace o m pull_skipped e = Trace-one (skipped refl)
  on_event-Trace o m pull_succeeded e = Trace-one (pulled refl)
  on_event-Trace o m no_event e = here

module _ (o : Outside) (clean : Text) where
  on_line-Trace : (s : State) → Trace s (on_line o clean s)
  unfolding on_line on_structured
  on_line-Trace s = elim (Option-cases (match_start line_re clean)) [
    | inl e ↦ rw (e, on_line) (on_unstructured-Trace s clean)
    | inr (m, e) ↦
        rw (e, on_line)
          (Trace-trans (Trace-one (listed _ refl))
            (on_event-Trace _ o m (event_of (line_of m)) refl))
  ]

  on_body-Trace : (s : State) → Trace s (on_body o clean s)
  unfolding on_body
  on_body-Trace s = Trace-trans (on_total-Trace s clean) (
      Trace-trans (on_queue-Trace _ clean) (
        Trace-trans (on_failure_elem-Trace _ clean)
          (Trace-trans (on_log_path-Trace _ o.logs_dir clean) (on_line-Trace _))))

  on_clean-Trace : (s : State) → Trace s (on_clean o clean s)
  unfolding on_clean
  on_clean-Trace s = elim (Option-cases (search_in build_header_re clean)) [
    | inr (m, e) ↦ rw (e, on_clean) (Trace-one (header _ clean refl))
    | inl e ↦ elim (Option-cases (match_start pipeline_summary_re clean)) [
      | inr (m, f) ↦ rw (e, f, on_clean) (Trace-one (ended _ clean refl))
      | inl f ↦ rw (e, f, on_clean) (on_body-Trace s)
    ]
  ]

-- Whatever the line, parsing it is a sequence of the updates above.
pub parse_line-Trace : (o : Outside) (raw : Text) (s : State) → Trace s (parse_line o raw s)
unfolding parse_line
parse_line-Trace o raw s = elim (Bool-cases (is_empty (clean_line raw))) [
  | inl e ↦ rw e here
  | inr e ↦ rw e (on_clean-Trace o (clean_line raw) s)
]
