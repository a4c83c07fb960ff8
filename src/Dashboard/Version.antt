-- ===== src/Dashboard/Version.antt =====
-- The number `version` of tools/bst_dashboard/model.py, by which a client sees a change.
use xfce_linux.Base.{
  ap, ◌∙◌, Bool-cases, ◌&&◌, ◌==◌, ltb, any, text_eq, ℕ, ◌≡◌, ◌≤◌, ◌<◌, ◌+◌, ◌⊎◌, inl, inr, refl,
  Text, arith, Option-cases,
}
use xfce_linux.Dashboard.Types.{Item, has_items, State, update}
use xfce_linux.Dashboard.Updates.{
  root_causes, reset, set_start, pipeline_done, set_total, backfill_failures, add_failure_elem,
  set_fail_log, add_recent, start_job, finish_job, fail_job, skip_pull, pull_done, get_job,
}
use xfce_linux.Dashboard.Parse.{Outside, parse_line}
use xfce_linux.Dashboard.Trace.{Step, Trace, parse_line-Trace}

version-fail_job :
    (hash short : Text) (now later : ℕ) (s : State)
    → (fail_job hash short now later s).version ≡ s.version
unfolding fail_job
version-fail_job hash short now later s = elim (Option-cases (get_job hash s.active)) [
  | inl e ↦ rw e refl
  | inr (j, e) ↦ rw e refl
]

version-root_causes : (s : State) → (root_causes s).version ≡ s.version
unfolding root_causes
version-root_causes s = elim (Bool-cases (has_items s.summary_elements)) [
  | inl e ↦ rw e refl
  | inr e ↦ rw e refl
]

version-backfill_failures : (n : ℕ) (s : State) → (backfill_failures n s).version ≡ s.version
unfolding backfill_failures
version-backfill_failures n s = elim (Bool-cases (s.failure_count == 0 && ltb 0 n)) [
  | inl e ↦ rw e refl
  | inr e ↦ rw e refl
]

version-add_failure_elem : (e : Text) (s : State) → (add_failure_elem e s).version ≡ s.version
unfolding add_failure_elem
version-add_failure_elem e s =
    elim (Bool-cases (any (λ (f : Item). text_eq f.element e) s.failures)) [
      | inl b ↦ rw b refl
      | inr b ↦ rw b refl
    ]

version-update :
    (fn : State → State) (s t : State)
    → t ≡ update fn s
    → (fn s).version ≡ s.version
    → t.version ≡ s.version + 1
unfolding update
version-update fn s t e h = ap (λ (u : State). u.version) e ∙ ap (λ (n : ℕ). n + 1) h

-- Each update counts by one.
version-Step : (s t : State) → Step s t → t.version ≡ s.version + 1
unfolding reset set_start pipeline_done set_total set_fail_log add_recent start_job finish_job
    skip_pull pull_done
version-Step s t (Step.rotated e) = version-update _ s t e refl
version-Step s t (Step.header ts line e) = version-update _ s t e refl
version-Step s t (Step.ended now line e) = version-update _ s t e (version-root_causes _)
version-Step s t (Step.counted n e) = version-update _ s t e refl
version-Step s t (Step.backfilled n e) = version-update _ s t e (version-backfill_failures n s)
version-Step s t (Step.blamed b e) = version-update _ s t e (version-add_failure_elem b s)
version-Step s t (Step.attached p e) = version-update _ s t e refl
version-Step s t (Step.listed line e) = version-update _ s t e refl
version-Step s t (Step.started hash short now log l e) = version-update _ s t e refl
version-Step s t (Step.finished hash short now later e) = version-update _ s t e refl
version-Step s t (Step.broken hash short now later e) =
    version-update _ s t e (version-fail_job hash short now later s)
version-Step s t (Step.skipped e) = version-update _ s t e refl
version-Step s t (Step.pulled e) = version-update _ s t e refl

version-Trace : {s t : State} → Trace s t → (t ≡ s) ⊎ (s.version < t.version)
version-Trace Trace.here = inl refl
version-Trace (Trace.next {t} {u} r st) = ground (arith, version-Trace r, version-Step t u st)

-- A line that changes anything in the state raises the version, and none lowers it: a client that
-- sees the same version has the same state.
pub parse_line-eq_of_version :
    (o : Outside) (raw : Text) (s : State)
    → (s.version ≤ (parse_line o raw s).version)
      × ((parse_line o raw s).version ≡ s.version → parse_line o raw s ≡ s)
parse_line-eq_of_version o raw s = ground (arith, version-Trace (parse_line-Trace o raw s))
