-- ===== src/Dashboard/Invariant.antt =====
-- What holds of the build state of tools/bst_dashboard/model.py between two updates.
pub mod Jobs
pub mod Failures
pub mod Steps
use xfce_linux.Base.{◌≡◌, ◌≤◌, ◌<◌, ◌+◌, ◌⊎◌, inl, inr, refl, subst, sym, Text, arith}
use xfce_linux.Dashboard.Types.{State, update}
use xfce_linux.Dashboard.Parse.{Outside, parse_line, reset_state}
use xfce_linux.Dashboard.Trace
use xfce_linux.Dashboard.Trace.{Step, Trace, parse_line-Trace, reset_state-Trace}
use Steps.{
  IsConsistent, update-IsConsistent, reset-IsConsistent, set_start-IsConsistent,
  set_total-IsConsistent, add_recent-IsConsistent, skip_pull-IsConsistent, pull_done-IsConsistent,
  backfill_failures-IsConsistent, add_failure_elem-IsConsistent, set_fail_log-IsConsistent,
  start_job-IsConsistent, finish_job-IsConsistent, fail_job-IsConsistent,
  pipeline_done-IsConsistent,
}

Step-IsConsistent : (s t : State) → IsConsistent s → Step s t → IsConsistent t
Step-IsConsistent s t h (Step.rotated e) = rw e (update-IsConsistent _ s (reset-IsConsistent s))
Step-IsConsistent s t h (Step.header ts line e) =
    rw e (update-IsConsistent _ s (set_start-IsConsistent s ts line))
Step-IsConsistent s t h (Step.ended now line e) =
    rw e (update-IsConsistent _ s (pipeline_done-IsConsistent h now line))
Step-IsConsistent s t h (Step.counted n e) =
    rw e (update-IsConsistent _ s (set_total-IsConsistent h n))
Step-IsConsistent s t h (Step.backfilled n e) =
    rw e (update-IsConsistent _ s (backfill_failures-IsConsistent h n))
Step-IsConsistent s t h (Step.blamed b e) =
    rw e (update-IsConsistent _ s (add_failure_elem-IsConsistent h b))
Step-IsConsistent s t h (Step.attached p e) =
    rw e (update-IsConsistent _ s (set_fail_log-IsConsistent h p))
Step-IsConsistent s t h (Step.listed line e) =
    rw e (update-IsConsistent _ s (add_recent-IsConsistent h line))
Step-IsConsistent s t h (Step.started hash short now log l e) =
    rw e (update-IsConsistent _ s (start_job-IsConsistent h hash short now log l))
Step-IsConsistent s t h (Step.finished hash short now later e) =
    rw e (update-IsConsistent _ s (finish_job-IsConsistent h hash short now later))
Step-IsConsistent s t h (Step.broken hash short now later e) =
    rw e (update-IsConsistent _ s (fail_job-IsConsistent h hash short now later))
Step-IsConsistent s t h (Step.skipped e) = rw e (update-IsConsistent _ s (skip_pull-IsConsistent h))
Step-IsConsistent s t h (Step.pulled e) = rw e (update-IsConsistent _ s (pull_done-IsConsistent h))

pub Trace-IsConsistent : {s t : State} → IsConsistent s → Trace s t → IsConsistent t
Trace-IsConsistent h Trace.here = h
Trace-IsConsistent h (Trace.next {t} {u} r st) = Step-IsConsistent t u (Trace-IsConsistent h r) st

-- Whatever the line, a consistent state is left consistent.
pub parse_line-IsConsistent :
    (o : Outside) (raw : Text) (s : State) → IsConsistent s → IsConsistent (parse_line o raw s)
parse_line-IsConsistent o raw s h = Trace-IsConsistent h (parse_line-Trace o raw s)
