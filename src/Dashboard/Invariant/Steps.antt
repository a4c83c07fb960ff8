-- ===== src/Dashboard/Invariant/Steps.antt =====
-- Every closure of tools/bst_dashboard/parser.py keeps the build state consistent.
use xfce_linux.Base.{
  ℕ, ◌≤◌, ◌≡◌, refl, Bool, true, false, ◌&&◌, [], ◌∷◌, Text, is_empty, any, tally, tally-append,
  All, All-append, All-keep, length, arith, if◌then◌else◌, Bool-cases, Option-cases, inl, inr,
  text_eq, ◌==◌, ltb,
}
use xfce_linux.Dashboard.Types.{Item, State, initial, is_set, success, failure, update, has_items}
use xfce_linux.Dashboard.Updates.{
  reset, set_start, root_causes, pipeline_done, set_total, backfill_failures, add_failure_elem,
  set_fail_log, add_recent, start_job, finish_job, fail_job, failed_item, skip_pull, pull_done,
  summary_item, get_job,
}
use xfce_linux.Dashboard.Invariant.Jobs.{
  JobsFiled, put_job-JobsFiled, pop_job-JobsFiled, get_job-HasLog,
}
use xfce_linux.Dashboard.Invariant.Failures.{
  IsRecorded, DistinctHashes, attach_log-IsRecorded, attach_log-DistinctHashes, length-attach_log,
  record_failure-IsRecorded, record_failure-DistinctHashes, append-DistinctHashes,
  keep-DistinctHashes,
}

abbrev pub is_success : Item → Bool
is_success i = elim i.status [ success ↦ true | failure ↦ false ]

-- The successes are counted exactly, the failures at least, and jobs and failures are filed well.
pub record IsConsistent (s : State) : Type 0 where
  pub jobs : JobsFiled s.active
  pub successes : s.success_count ≡ tally is_success s.completed
  pub counted : length s.failures ≤ s.failure_count
  pub recorded : All IsRecorded s.failures
  pub distinct : DistinctHashes s.failures

pub initial-IsConsistent : IsConsistent initial
initial-IsConsistent = record {
  jobs = tt;
  successes = refl;
  counted = omega arith;
  recorded = tt;
  distinct = tt;
}

pub update-IsConsistent :
    (fn : State → State) (s : State) → IsConsistent (fn s) → IsConsistent (update fn s)
unfolding update
update-IsConsistent fn s h = assumption

module _ (s : State) where
  pub reset-IsConsistent : IsConsistent (reset s)
  unfolding reset
  reset-IsConsistent = record {
    jobs = tt;
    successes = refl;
    counted = omega arith;
    recorded = tt;
    distinct = tt;
  }

  pub set_start-IsConsistent : (ts : ℕ) (line : Text) → IsConsistent (set_start ts line s)
  unfolding set_start
  set_start-IsConsistent ts line = record {
    jobs = tt;
    successes = refl;
    counted = omega arith;
    recorded = tt;
    distinct = tt;
  }

module _ {s : State} (h : IsConsistent s) where
  root_causes-IsConsistent : IsConsistent (root_causes s)
  unfolding root_causes
  root_causes-IsConsistent = elim (Bool-cases (has_items s.summary_elements)) [
    | inr e ↦ rw e h
    | inl e ↦ rw e (record {
      jobs = h.jobs;
      successes = h.successes;
      counted = omega arith;
      recorded = All-keep IsRecorded _ s.failures h.recorded;
      distinct = keep-DistinctHashes _ s.failures h.distinct;
    })
  ]

  pub set_total-IsConsistent : (n : ℕ) → IsConsistent (set_total n s)
  unfolding set_total
  set_total-IsConsistent n = assumption

  pub add_recent-IsConsistent : (line : Text) → IsConsistent (add_recent line s)
  unfolding add_recent
  add_recent-IsConsistent line = assumption

  pub skip_pull-IsConsistent : IsConsistent (skip_pull s)
  unfolding skip_pull
  skip_pull-IsConsistent = assumption

  pub pull_done-IsConsistent : IsConsistent (pull_done s)
  unfolding pull_done
  pull_done-IsConsistent = assumption

  pub backfill_failures-IsConsistent : (n : ℕ) → IsConsistent (backfill_failures n s)
  unfolding backfill_failures
  backfill_failures-IsConsistent n = elim (Bool-cases (s.failure_count == 0 && ltb 0 n)) [
    | inr e ↦ rw e h
    | inl e ↦ rw e (record {
      jobs = h.jobs;
      successes = h.successes;
      counted = ground (arith, h.counted);
      recorded = h.recorded;
      distinct = h.distinct;
    })
  ]

  pub add_failure_elem-IsConsistent : (e : Text) → IsConsistent (add_failure_elem e s)
  unfolding add_failure_elem
  add_failure_elem-IsConsistent e =
      elim (Bool-cases (any (λ (f : Item). text_eq f.element e) s.failures)) [
        | inl a ↦ rw a (assumption)
        | inr a ↦ rw a (record {
          jobs = h.jobs;
          successes = h.successes;
          counted = omega arith;
          recorded =
              All-append IsRecorded s.failures (summary_item e ∷ []) h.recorded ((refl, refl), tt);
          distinct = append-DistinctHashes e s.failures h.distinct;
        })
      ]

  pub set_fail_log-IsConsistent : (p : Text) → IsConsistent (set_fail_log p s)
  unfolding set_fail_log
  set_fail_log-IsConsistent p = record {
    jobs = h.jobs;
    successes = h.successes;
    counted = omega (arith, length-attach_log p s.failures, h.counted);
    recorded = attach_log-IsRecorded p s.failures h.recorded;
    distinct = attach_log-DistinctHashes p s.failures h.distinct;
  }

  pub start_job-IsConsistent :
      (hash short : Text) (now : ℕ) (log : Text)
      → is_empty log ≡ false
      → IsConsistent (start_job hash short now log s)
  unfolding start_job
  start_job-IsConsistent hash short now log e = record {
    jobs = put_job-JobsFiled hash _ s.active refl e h.jobs;
    successes = h.successes;
    counted = h.counted;
    recorded = h.recorded;
    distinct = h.distinct;
  }

  pub finish_job-IsConsistent :
      (hash short : Text) (now later : ℕ) → IsConsistent (finish_job hash short now later s)
  unfolding finish_job
  finish_job-IsConsistent hash short now later = record {
    jobs = pop_job-JobsFiled hash s.active h.jobs;
    successes = rw tally-append (ground (arith, h.successes));
    counted = h.counted;
    recorded = h.recorded;
    distinct = h.distinct;
  }

  pub fail_job-IsConsistent :
      (hash short : Text) (now later : ℕ) → IsConsistent (fail_job hash short now later s)
  unfolding fail_job
  fail_job-IsConsistent hash short now later = elim (Option-cases (get_job hash s.active)) [
    | inl e ↦ rw e h
    | inr (j, e) ↦
        let logged = (get_job-HasLog hash j s.active h.jobs e).1 in
        let i = failed_item hash short now j in
        rw e (record {
          jobs = pop_job-JobsFiled hash s.active h.jobs;
          successes = rw tally-append (ground (arith, h.successes));
          counted = omega arith;
          recorded = record_failure-IsRecorded i s.failures (refl, ground arith) h.recorded;
          distinct = record_failure-DistinctHashes i s.failures h.distinct;
        })
  ]

pub pipeline_done-IsConsistent :
    {s : State} → IsConsistent s → (now : ℕ) (line : Text) → IsConsistent (pipeline_done now line s)
unfolding pipeline_done
pipeline_done-IsConsistent {s} h now line =
    let kept =
      root_causes-IsConsistent
        {s = record s {
          active = [];
          catching_up = false;
          build_end_ts = if is_set s.build_end_ts then s.build_end_ts else now;
        }}
        (record {
          jobs = tt;
          successes = h.successes;
          counted = h.counted;
          recorded = h.recorded;
          distinct = h.distinct;
        }) in
    record {
      jobs = kept.jobs;
      successes = kept.successes;
      counted = kept.counted;
      recorded = kept.recorded;
      distinct = kept.distinct;
    }
