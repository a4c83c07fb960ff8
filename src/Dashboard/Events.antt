-- ===== src/Dashboard/Events.antt =====
-- What tools/bst_dashboard/parser.py does on the lines that BuildStream writes.
use xfce_linux.Base.{
  ℕ, ◌+◌, ◌≡◌, refl, true, none, [], ◌∷◌, ◌++◌, Text, codes, strip, text_eq_self, int_seconds,
  arith,
}
use xfce_linux.Regex.{match_start, search_in, exec}
use xfce_linux.Dashboard.Types.{State, Job, Item, Status, update}
use xfce_linux.Dashboard.Updates.{get_job, start_job, finish_job, fail_job, failed_item, add_recent}
use xfce_linux.Dashboard.Patterns.{
  build_header_re, pipeline_summary_re, summary_total_re, summary_queue_re, failure_elem_re,
  bst_log_path_re,
}
use xfce_linux.Dashboard.Parse.{
  Outside, Line, line_of, on_total, on_queue, on_failure_elem, on_log_path, on_line, on_body,
  on_clean, on_structured, on_event, event_of, build_started, build_succeeded, build_failed,
  action_of, is_top, short_name, job_log, recent_of,
}
use xfce_linux.Dashboard.Render.{Parts, IsWritten, render, match_start-render, after_line}
use xfce_linux.Dashboard.Statuses.{Word, start, success, failure}
use xfce_linux.Dashboard.Recorded.{Recorded}
use xfce_linux.Dashboard.Logs.{job_log-nonempty}
use xfce_linux.Dashboard.Invariant.Jobs.{
  JobsFiled, get_job-put_job, get_job-pop_job, put_job-JobsFiled,
}

-- The patterns of the summaries want white space or a `P` first; a written line begins with `[`.
module _ (p : Parts) where
  no_total : match_start summary_total_re (render p) ≡ none
  unfolding match_start exec summary_total_re render
  no_total = refl

  no_queue : match_start summary_queue_re (render p) ≡ none
  unfolding match_start exec summary_queue_re render
  no_queue = refl

  no_failure_elem : match_start failure_elem_re (render p) ≡ none
  unfolding match_start exec failure_elem_re render
  no_failure_elem = refl

  no_log_path : match_start bst_log_path_re (render p) ≡ none
  unfolding match_start exec bst_log_path_re render
  no_log_path = refl

  no_pipeline_summary : match_start pipeline_summary_re (render p) ≡ none
  unfolding match_start exec pipeline_summary_re render
  no_pipeline_summary = refl

module _ (p : Parts) (s : State) where
  on_total-render : on_total (render p) s ≡ s
  unfolding on_total
  on_total-render = rw (no_total p, on_total) refl

  on_queue-render : on_queue (render p) s ≡ s
  unfolding on_queue
  on_queue-render = rw (no_queue p, on_queue) refl

  on_failure_elem-render : on_failure_elem (render p) s ≡ s
  unfolding on_failure_elem
  on_failure_elem-render = rw (no_failure_elem p, on_failure_elem) refl

  on_log_path-render : (dir : Text) → on_log_path dir (render p) s ≡ s
  unfolding on_log_path
  on_log_path-render dir = rw (no_log_path p, on_log_path) refl

  on_line-render :
      (o : Outside)
      → IsWritten p
      → on_line o (render p) s ≡ on_structured o (line_of (after_line p)) s
  unfolding on_line
  on_line-render o w = rw (match_start-render p w, on_line) refl

-- A written line that holds no build header is taken as a structured line, and as nothing else.
pub on_clean-render :
    (o : Outside) (p : Parts) (s : State)
    → IsWritten p
    → search_in build_header_re (render p) ≡ none
    → on_clean o (render p) s ≡ on_structured o (line_of (after_line p)) s
unfolding on_clean on_body
on_clean-render o p s w h =
    rw (h, no_pipeline_summary p, on_clean)
      (simp (on_total-render, on_queue-render, on_failure_elem-render, on_log_path-render)
        (on_line-render p s o w))

-- A build event that is written on a line of its own; those with a log name it at the end.
pub record IsBuildLine (p : Parts) (w : Word) : Type 0 where
  pub written : IsWritten p
  pub no_header : search_in build_header_re (render p) ≡ none
  pub word : p.word ≡ w
  pub action : action_of (strip p.ctx) ≡ codes "build"

abbrev pub hash_of : Parts → Text
hash_of p = strip p.hash

abbrev pub element_for : Parts → Text
element_for p = short_name (strip p.ctx)

-- The job that a START line files.
abbrev pub job_for : Outside → Parts → Job
job_for o p = record {
  element = element_for p;
  hash = hash_of p;
  start = o.now;
  log = job_log o.logs_dir (strip p.msg);
  cmake = none;
  rust = none;
}

-- The entry of a build that succeeded.
abbrev pub success_for : ℕ → Outside → Parts → Item
success_for started o q = record {
  element = element_for q;
  hash = hash_of q;
  duration = int_seconds o.now started;
  status = Status.success;
  log = none;
}

abbrev line_for : Parts → Line
line_for p = line_of (after_line p)

module _ (o : Outside) (p : Parts) (s : State) where
  event_of-start :
      IsBuildLine p start → is_top (strip p.msg) ≡ true → event_of (line_for p) ≡ build_started
  unfolding event_of line_of
  event_of-start h top = rw (h.word, h.action, top) refl

  event_of-success :
      IsBuildLine p success → is_top (strip p.msg) ≡ true → event_of (line_for p) ≡ build_succeeded
  unfolding event_of line_of
  event_of-success h top = rw (h.word, h.action, top) refl

  event_of-failure : IsBuildLine p failure → event_of (line_for p) ≡ build_failed
  unfolding event_of line_of
  event_of-failure h = rw (h.word, h.action) (ground arith)

  abbrev listed : State
  listed = update (add_recent (recent_of (line_for p))) s

  on_clean-start :
      IsBuildLine p start
      → is_top (strip p.msg) ≡ true
      → on_clean o (render p) s
        ≡ update (start_job (hash_of p) (element_for p) o.now (job_for o p).log) listed
  unfolding on_structured on_event line_of
  on_clean-start h top =
      rw (on_clean-render o p s h.written h.no_header, on_structured, event_of-start h top) refl

  on_clean-success :
      IsBuildLine p success
      → is_top (strip p.msg) ≡ true
      → on_clean o (render p) s
        ≡ update (finish_job (hash_of p) (element_for p) o.now o.later) listed
  unfolding on_structured on_event line_of
  on_clean-success h top =
      rw (on_clean-render o p s h.written h.no_header, on_structured, event_of-success h top) refl

  on_clean-failure :
      IsBuildLine p failure
      → on_clean o (render p) s ≡ update (fail_job (hash_of p) (element_for p) o.now o.later) listed
  unfolding on_structured on_event line_of
  on_clean-failure h =
      rw (on_clean-render o p s h.written h.no_header, on_structured, event_of-failure h) refl

-- A START line and a later SUCCESS line of the same hash.
module _ (o o' : Outside) (p q : Parts) (s : State) (same : hash_of q ≡ hash_of p) where
  abbrev pub succeeded : State
  succeeded = on_clean o' (render q) (on_clean o (render p) s)

  -- A build that starts and succeeds in the next line is one more completed build, with the time
  -- between the two lines; its hash is no longer active, and the failures stay as they were.
  pub build_succeeds :
      IsBuildLine p start
      → IsBuildLine q success
      → is_top (strip p.msg) ≡ true
      → is_top (strip q.msg) ≡ true
      → JobsFiled s.active
      → (succeeded.completed ≡ s.completed ++ success_for o.now o' q ∷ [])
        × (succeeded.success_count ≡ s.success_count + 1)
        × (succeeded.failures ≡ s.failures)
        × (get_job (hash_of p) succeeded.active ≡ none)
        × (succeeded.build_end_ts ≡ o'.later)
  build_succeeds h h' top top' filed =
      rw (on_clean-success o' q _ h' top', on_clean-start o p s h top)
        (unfold update start_job finish_job add_recent in
          (
            rw (same, get_job-put_job, text_eq_self) refl,
            refl,
            refl,
            rw same (
                get_job-pop_job (hash_of p) _ (
                  put_job-JobsFiled (hash_of p) _ s.active refl
                    (job_log-nonempty o.logs_dir p.msg top) filed)),
            refl,
          ))

-- A START line and a later FAILURE line of the same hash.
module _ (o o' : Outside) (p q : Parts) (s : State) (same : hash_of q ≡ hash_of p) where
  abbrev pub failed : State
  failed = on_clean o' (render q) (on_clean o (render p) s)

  abbrev pub failure_for : Item
  failure_for = failed_item (hash_of q) (element_for q) o'.now (job_for o p)

-- A FAILURE line whose hash is not active lists the line and changes nothing else.
pub failure_untracked :
    (o : Outside) (p : Parts) (s : State)
    → IsBuildLine p failure
    → get_job (hash_of p) s.active ≡ none
    → on_clean o (render p) s ≡ record s {
      recent_lines = s.recent_lines ++ recent_of (line_of (after_line p)) ∷ [];
      version = s.version + 1 + 1;
    }
failure_untracked o p s h absent =
    rw (on_clean-failure o p s h) (unfold update fail_job add_recent in rw (absent, fail_job) refl)
