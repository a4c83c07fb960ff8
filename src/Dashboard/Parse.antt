-- ===== src/Dashboard/Parse.antt =====
-- tools/bst_dashboard/parser.py: `parse_line` and `reset_state`, stage by stage.
use xfce_linux.Base.{
  ℕ, Bool, true, false, ◌&&◌, Option, none, some, [], ◌∷◌, ◌++◌, Text, codes, text_eq, is_empty,
  starts_with, ends_with, contains_text, strip, rstrip, drop_while_end, take, last_part, pad_right,
  without_text, digits_value, path_join, ◌==◌, if◌then◌else◌,
}
use xfce_linux.Regex.{Cursor, match_start, search_in, sub_all, cap}
use xfce_linux.Dashboard.Types.{State, update}
use xfce_linux.Dashboard.Updates.{
  reset, set_start, pipeline_done, set_total, backfill_failures, add_failure_elem, set_fail_log,
  add_recent, start_job, finish_job, fail_job, skip_pull, pull_done,
}
use xfce_linux.Dashboard.Patterns.{
  ansi, build_header_re, line_re, build_log_re, pipeline_summary_re, summary_total_re,
  summary_queue_re, failure_elem_re, bst_log_path_re, element_re, zone_re,
}

-- What the parsing of one line reads from outside: two readings of the clock, in order, the
-- time stamp of a date in the format of the header (or that there is none), and the directory
-- `~/.cache/buildstream/logs`.
pub record Outside : Type 0 where
  pub now : ℕ
  pub later : ℕ
  pub timestamp : Text → Option ℕ
  pub logs_dir : Text

unfoldable pub reset_state : State → State
reset_state s = update reset s

unfoldable pub clean_line : Text → Text
clean_line raw = rstrip (sub_all ansi [] raw)

unfoldable pub header_time : Outside → Cursor → ℕ
header_time o m = elim (o.timestamp (strip (sub_all zone_re (b' ' ∷ []) (cap 1 m)))) [
  | none ↦ o.now
  | some t ↦ t
]

unfoldable pub on_total : Text → State → State
on_total clean s = elim (match_start summary_total_re clean) [
  | none ↦ s
  | some m ↦ update (set_total (digits_value 0 (cap 1 m))) s
]

unfoldable pub on_queue : Text → State → State
on_queue clean s = elim (match_start summary_queue_re clean) [
  | none ↦ s
  | some m ↦
      if text_eq (cap 1 m) (codes "Build")
      then update (backfill_failures (digits_value 0 (cap 4 m))) s
      else s
]

-- `clean.strip().rstrip(":").split(":")[-1]`
unfoldable pub short_element : Text → Text
short_element clean = last_part b':' (drop_while_end (λ c. c == b':') (strip clean))

unfoldable pub on_failure_elem : Text → State → State
on_failure_elem clean s = elim (match_start failure_elem_re clean) [
  | none ↦ s
  | some m ↦ update (add_failure_elem (short_element clean)) s
]

unfoldable pub on_log_path : Text → Text → State → State
on_log_path logs_dir clean s = elim (match_start bst_log_path_re clean) [
  | none ↦ s
  | some m ↦ update (set_fail_log (path_join logs_dir (cap 1 m))) s
]

-- A line that `LINE_RE` does not match, unless it is indented by eight blanks.
unfoldable pub on_unstructured : Text → State → State
on_unstructured clean s =
    if starts_with clean (codes "        ") then s else update (add_recent (take 200 clean)) s

-- The fields of a structured line.
pub record Line : Type 0 where
  pub status : Text
  pub ctx : Text
  pub hash : Text
  pub msg : Text

unfoldable pub line_of : Cursor → Line
line_of m = record {
  status = strip (cap 4 m);
  ctx = strip (cap 3 m);
  hash = strip (cap 2 m);
  msg = strip (cap 5 m);
}

unfoldable pub action_of : Text → Text
action_of ctx = elim (match_start element_re ctx) [ none ↦ ctx | some m ↦ cap 1 m ]

unfoldable pub element_of : Text → Text
element_of ctx = elim (match_start element_re ctx) [
  | none ↦ ctx
  | some m ↦ last_part b':' (cap 2 m)
]

unfoldable pub short_name : Text → Text
short_name ctx = without_text (codes "gnome-build-meta.bst:") 0 (
    without_text (codes "freedesktop-sdk.bst:") 0
      (without_text (codes "kde-build-meta.bst:") 0 (element_of ctx)))

unfoldable pub is_top : Text → Bool
is_top msg = elim (search_in build_log_re msg) [ none ↦ false | some m ↦ true ]

unfoldable pub recent_of : Line → Text
recent_of l = b'[' ∷ (pad_right 7 l.status ++ codes "] " ++ short_name l.ctx ++ codes "  " ++ l.msg)

-- `host_log`
unfoldable pub job_log : Text → Text → Text
job_log logs_dir msg = if ends_with msg (codes ".log") then path_join logs_dir msg else []

-- The branches of the `if action == ...` of a structured line.
pub data Event : Type 0 where
  build_started build_succeeded build_failed pull_skipped pull_succeeded no_event : Event

unfoldable pub event_of : Line → Event
event_of l =
    let action = action_of l.ctx in
    let top = is_top l.msg in
    let is_build = text_eq action (codes "build") in
    if is_build && top && text_eq l.status (codes "START")
    then build_started
    else if is_build && top && text_eq l.status (codes "SUCCESS")
    then build_succeeded
    else if is_build && text_eq l.status (codes "FAILURE")
    then build_failed
    else if text_eq action (codes "pull")
    then (if text_eq l.status (codes "SKIPPED") && contains_text l.msg (codes "Pull")
        then pull_skipped
        else if text_eq l.status (codes "SUCCESS") && contains_text l.msg (codes "Pull")
        then pull_succeeded
        else no_event)
    else no_event

unfoldable pub on_event : Outside → Line → Event → State → State
on_event o l build_started s =
    update (start_job l.hash (short_name l.ctx) o.now (job_log o.logs_dir l.msg)) s
on_event o l build_succeeded s = update (finish_job l.hash (short_name l.ctx) o.now o.later) s
on_event o l build_failed s = update (fail_job l.hash (short_name l.ctx) o.now o.later) s
on_event o l pull_skipped s = update skip_pull s
on_event o l pull_succeeded s = update pull_done s
on_event o l no_event s = s

unfoldable pub on_structured : Outside → Line → State → State
on_structured o l s = on_event o l (event_of l) (update (add_recent (recent_of l)) s)

unfoldable pub on_line : Outside → Text → State → State
on_line o clean s = elim (match_start line_re clean) [
  | none ↦ on_unstructured clean s
  | some m ↦ on_structured o (line_of m) s
]

-- What follows the two early returns.
unfoldable pub on_body : Outside → Text → State → State
on_body o clean s =
    on_line o clean
      (on_log_path o.logs_dir clean (on_failure_elem clean (on_queue clean (on_total clean s))))

unfoldable pub on_clean : Outside → Text → State → State
on_clean o clean s = elim (search_in build_header_re clean) [
  | some m ↦ update (set_start (header_time o m) clean) s
  | none ↦ elim (match_start pipeline_summary_re clean) [
    | some m ↦ update (pipeline_done o.now clean) s
    | none ↦ on_body o clean s
  ]
]

unfoldable pub parse_line : Outside → Text → State → State
parse_line o raw s = let clean = clean_line raw in if is_empty clean then s else on_clean o clean s
