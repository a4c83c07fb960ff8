-- ===== src/Dashboard/Tests.antt =====
-- Runs of the dashboard's parser, and its theorems at concrete inputs.
use xfce_linux.Base.{
  ◌≡◌, ◌≤◌, refl, none, some, pos, [], ◌∷◌, ◌+◌, Text, codes, strip, length, All, any, text_eq,
  false, true, arith,
}
use xfce_linux.Regex.{match_start, search_in, exec, sub_all}
use xfce_linux.Dashboard.Types.{State, Item, initial, failure, update, is_live}
use xfce_linux.Dashboard.Updates.{
  reset, set_start, pipeline_done, set_total, backfill_failures, add_failure_elem, set_fail_log,
  add_recent, start_job, finish_job, fail_job, skip_pull, pull_done, get_job, mem_text,
}
use xfce_linux.Dashboard.Patterns.{
  ansi, build_header_re, line_re, build_log_re, pipeline_summary_re, summary_total_re,
  summary_queue_re, failure_elem_re, bst_log_path_re, element_re, zone_re,
}
use xfce_linux.Dashboard.Parse.{
  Outside, parse_line, clean_line, on_clean, on_body, on_total, on_queue, on_failure_elem,
  on_log_path, on_line, on_unstructured, on_structured, on_event, event_of, line_of, header_time,
  short_element, action_of, element_of, short_name, is_top, recent_of, job_log,
}
use xfce_linux.Dashboard.Statuses.{Word}
use xfce_linux.Dashboard.Render.{Parts, IsWritten, render, after_line, match_start-render}
use xfce_linux.Dashboard.Recorded.{Recorded}
use xfce_linux.Dashboard.Events.{IsBuildLine, build_succeeds, success_for, succeeded, hash_of}
use xfce_linux.Dashboard.Boundaries.{on_clean-header, pipeline_done-root_causes}
use xfce_linux.Dashboard.Invariant.{parse_line-IsConsistent}
use xfce_linux.Dashboard.Invariant.Steps.{IsConsistent, initial-IsConsistent}
use xfce_linux.Dashboard.Version.{parse_line-eq_of_version}

abbrev outside : Outside
outside = record {
  now = 9_000_000;
  later = 9_000_001;
  timestamp = λ t. none;
  logs_dir = codes "/home/me/.cache/buildstream/logs";
}

abbrev outside_later : Outside
outside_later = record outside { now = 16_500_000; later = 16_500_002 }

abbrev start_parts : Parts
start_parts = record {
  time = codes "--:--:--";
  hash = codes "01234567";
  ctx = codes "   build:kde-build-meta.bst:kde/foo.bst";
  word = Word.start;
  msg = codes "kde/foo/01234567-build.log";
}

abbrev success_parts : Parts
success_parts = record start_parts { time = codes "00:00:07"; word = Word.success }

abbrev failure_parts : Parts
failure_parts = record start_parts {
  time = codes "00:00:07";
  word = Word.failure;
  msg = codes "Command failed";
}

abbrev header_line : Text
header_line = codes "=== Build started at Tue Apr 22 03:00:00 IST 2026 ==="

-- All that the parser runs.
run_line : Outside → Text → State → State
unfolding exec sub_all match_start search_in ansi build_header_re line_re build_log_re
    pipeline_summary_re summary_total_re summary_queue_re failure_elem_re bst_log_path_re element_re
    zone_re update reset set_start pipeline_done set_total backfill_failures add_failure_elem
    set_fail_log add_recent start_job finish_job fail_job skip_pull pull_done clean_line on_clean
    on_body on_total on_queue on_failure_elem on_log_path on_line on_unstructured on_structured
    on_event event_of line_of header_time short_element action_of element_of short_name is_top
    recent_of job_log parse_line
run_line o raw s = parse_line o raw s

started : State
unfolding run_line
started = run_line outside (render start_parts) initial

started_active :
    started.active
    ≡ (
      codes "01234567",
      record {
        element = codes "kde/foo.bst";
        hash = codes "01234567";
        start = 9_000_000;
        log = codes "/home/me/.cache/buildstream/logs/kde/foo/01234567-build.log";
        cmake = none;
        rust = none;
      },
    )
      ∷ []
unfolding started render
started_active = refl

succeeded_count : (run_line outside_later (render success_parts) started).success_count ≡ 1
unfolding started render
succeeded_count = refl

header_start : (run_line outside header_line started).build_start_ts ≡ 9_000_000
unfolding run_line started
header_start = refl

coloured_total :
    (run_line outside (0x1b ∷ codes "[0m    Total:       42  ") initial).total_elements ≡ 42
unfolding run_line
coloured_total = refl

start_parts-IsWritten : IsWritten start_parts
start_parts-IsWritten = record {
  time = ground arith;
  hash = ground arith;
  ctx = ground arith;
  msg = ground arith;
}

success_parts-IsWritten : IsWritten success_parts
success_parts-IsWritten = record {
  time = ground arith;
  hash = ground arith;
  ctx = ground arith;
  msg = ground arith;
}

is_start : IsBuildLine start_parts Word.start
unfolding search_in match_start exec build_header_re render action_of element_re
is_start = record { written = start_parts-IsWritten; no_header = refl; word = refl; action = refl }

is_success : IsBuildLine success_parts Word.success
unfolding search_in match_start exec build_header_re render action_of element_re
is_success = record {
  written = success_parts-IsWritten;
  no_header = refl;
  word = refl;
  action = refl;
}

start_top : is_top (strip start_parts.msg) ≡ true
unfolding is_top search_in exec build_log_re
start_top = refl

success_top : is_top (strip success_parts.msg) ≡ true
unfolding is_top search_in exec build_log_re
success_top = refl

match_start-render_example :
    match_start line_re (render start_parts) ≡ some (after_line start_parts)
match_start-render_example = match_start-render start_parts start_parts-IsWritten

build_succeeds_example :
    let t = succeeded outside outside_later start_parts success_parts initial refl in
    (t.completed ≡ success_for 9_000_000 outside_later success_parts ∷ [])
    × (t.success_count ≡ 0 + 1)
    × (t.failures ≡ [])
    × (get_job (hash_of start_parts) t.active ≡ none)
    × (t.build_end_ts ≡ 16_500_002)
build_succeeds_example =
    build_succeeds outside outside_later start_parts success_parts initial refl is_start is_success
      start_top success_top tt

header_found :
    search_in build_header_re header_line
    ≡ some (record {
      at_start = false;
      rest = [];
      caps = (1, codes "Tue Apr 22 03:00:00 IST 2026") ∷ [];
    })
unfolding search_in exec build_header_re
header_found = refl

on_clean-header_example :
    on_clean outside header_line started
    ≡ on_clean outside header_line (record initial { version = started.version })
unfolding started render
on_clean-header_example =
    on_clean-header outside header_line started (record initial { version = started.version }) _
      header_found refl refl

abbrev blamed : State
blamed = record initial {
  failures =
      record {
        element = codes "kde/a.bst";
        hash = codes "0a";
        duration = pos 3;
        status = failure;
        log = some (codes "/x.log");
      }
      ∷ record {
        element = codes "kde/b.bst";
        hash = codes "0b";
        duration = pos 1;
        status = failure;
        log = some (codes "/y.log");
      }
      ∷ [];
  failure_count = 2;
  summary_elements = codes "kde/a.bst" ∷ [];
}

pipeline_done-root_causes_example :
    let t = pipeline_done 7 (codes "Pipeline Summary") blamed in
    All (λ (f : Item). mem_text f.element blamed.summary_elements ≡ true) t.failures
    × ((e : Text)
        → mem_text e blamed.summary_elements ≡ true
        → any (λ (f : Item). text_eq e f.element) blamed.failures ≡ true
        → any (λ (f : Item). text_eq e f.element) t.failures ≡ true)
    × (t.failure_count ≡ length t.failures)
    × (t.active ≡ [])
    × (is_live t ≡ false)
    × (t.summary_elements ≡ [])
pipeline_done-root_causes_example =
    pipeline_done-root_causes 7 (codes "Pipeline Summary") blamed refl

parse_line-IsConsistent_example : IsConsistent (parse_line outside header_line initial)
parse_line-IsConsistent_example =
    parse_line-IsConsistent outside header_line initial initial-IsConsistent

parse_line-eq_of_version_example :
    (0 ≤ (parse_line outside header_line initial).version)
    × ((parse_line outside header_line initial).version ≡ 0
        → parse_line outside header_line initial ≡ initial)
parse_line-eq_of_version_example = parse_line-eq_of_version outside header_line initial
