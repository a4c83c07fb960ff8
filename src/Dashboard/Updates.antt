-- ===== src/Dashboard/Updates.antt =====
-- tools/bst_dashboard/parser.py: the closures that `parse_line` and `reset_state` hand to
-- `State.update`.
use xfce_linux.Base.{
  ℕ, ◌+◌, max, Bool, true, false, ◌&&◌, Option, none, some, List, [], ◌∷◌, ◌++◌, Text, length, any,
  keep, text_eq, is_empty, ◌==◌, ltb, if◌then◌else◌, ℤ, pos, int_seconds,
}
use xfce_linux.Dashboard.Types.{success, failure, Item, Job, State, is_set, has_items}

-- `d[k] = v`, `d.get(k)` and `d.pop(k, None)` of the dict `active`.
abbrev pub put_job : Text → Job → List (Text × Job) → List (Text × Job)
put_job k v [] = (k, v) ∷ []
put_job k v ((j, w) ∷ l) = if text_eq j k then (j, v) ∷ l else (j, w) ∷ put_job k v l

abbrev pub get_job : Text → List (Text × Job) → Option Job
get_job k [] = none
get_job k ((j, w) ∷ l) = if text_eq j k then some w else get_job k l

abbrev pub pop_job : Text → List (Text × Job) → List (Text × Job)
pop_job k [] = []
pop_job k ((j, w) ∷ l) = if text_eq j k then l else (j, w) ∷ pop_job k l

abbrev pub mem_text : Text → List Text → Bool
mem_text e l = any (text_eq e) l

-- `s.add(e)` of a set
abbrev pub add_text : Text → List Text → List Text
add_text e l = if mem_text e l then l else l ++ e ∷ []

-- What `_reset` and `_set_start` clear alike.
abbrev cleared : State → State
cleared s = record s {
  active = [];
  completed = [];
  failures = [];
  summary_elements = [];
  pulled = 0;
  success_count = 0;
  failure_count = 0;
  cached_count = 0;
  recent_lines = [];
  build_end_ts = 0;
  catching_up = true;
}

-- `_reset`
unfoldable pub reset : State → State
reset s = record (cleared s) { build_start_ts = 0 }

-- `_set_start`
unfoldable pub set_start : ℕ → Text → State → State
set_start ts line s = record (cleared s) { build_start_ts = ts; recent_lines = line ∷ [] }

-- The filter of `_pipeline_done`, which leaves the failures of the Failure Summary.
unfoldable pub root_causes : State → State
root_causes s =
    if has_items s.summary_elements
    then (let kept = keep (λ (f : Item). mem_text f.element s.summary_elements) s.failures in
        record s { failures = kept; failure_count = length kept })
    else s

-- `_pipeline_done`
unfoldable pub pipeline_done : ℕ → Text → State → State
unfolding root_causes
pipeline_done now line s =
    let ended : State = record s {
      active = [];
      catching_up = false;
      build_end_ts = if is_set s.build_end_ts then s.build_end_ts else now;
    } in
    let r = root_causes ended in
    record r { summary_elements = []; recent_lines = r.recent_lines ++ line ∷ [] }

-- `_set_total`
unfoldable pub set_total : ℕ → State → State
set_total n s = record s { total_elements = n }

-- `_backfill_failures`
unfoldable pub backfill_failures : ℕ → State → State
backfill_failures failed s =
    if s.failure_count == 0 && ltb 0 failed then record s { failure_count = failed } else s

abbrev pub summary_item : Text → Item
summary_item e = record {
  element = e;
  hash = [];
  duration = pos 0;
  status = failure;
  log = some [];
}

-- `_add_failure_elem`
unfoldable pub add_failure_elem : Text → State → State
add_failure_elem e s =
    let t : State = record s { summary_elements = add_text e s.summary_elements } in
    if any (λ (f : Item). text_eq f.element e) s.failures
    then t
    else let fs = s.failures ++ summary_item e ∷ [] in
      record t { failures = fs; failure_count = max s.failure_count (length fs) }

-- `not f.get("log")`
abbrev pub lacks_log : Item → Bool
lacks_log f = elim f.log [ none ↦ true | some l ↦ is_empty l ]

-- The loop over `reversed(s.failures)`: the last entry that lacks a log gets it.
abbrev pub attach_log : Text → List Item → List Item
attach_log p [] = []
attach_log p (f ∷ fs) =
    let rest = attach_log p fs in
    if any lacks_log fs
    then f ∷ rest
    else (if lacks_log f then record f { log = some p } else f) ∷ fs

-- `_set_fail_log`
unfoldable pub set_fail_log : Text → State → State
set_fail_log p s = record s { failures = attach_log p s.failures }

-- `_add`, `_add_recent`
unfoldable pub add_recent : Text → State → State
add_recent line s = record s { recent_lines = s.recent_lines ++ line ∷ [] }

-- `_start`
unfoldable pub start_job : Text → Text → ℕ → Text → State → State
start_job hash short now log s = record s {
  active =
      put_job hash
        (record { element = short; hash = hash; start = now; log = log; cmake = none; rust = none })
        s.active;
}

abbrev duration_of : ℕ → Option Job → ℤ
duration_of now none = pos 0
duration_of now (some j) = int_seconds now j.start

-- `_done`; the clock is read twice.
unfoldable pub finish_job : Text → Text → ℕ → ℕ → State → State
finish_job hash short now later s = record s {
  active = pop_job hash s.active;
  completed =
      s.completed
      ++ record {
        element = short;
        hash = hash;
        duration = duration_of now (get_job hash s.active);
        status = success;
        log = none;
      }
        ∷ [];
  success_count = s.success_count + 1;
  build_end_ts = later;
}

-- The loop with `f.update(item)` and its `else`: the first entry of the element with no hash
-- becomes `item`, or `item` is appended.
abbrev pub merge_item : Item → List Item → List Item
merge_item i [] = i ∷ []
merge_item i (f ∷ fs) =
    if text_eq f.element i.element && is_empty f.hash then i ∷ fs else f ∷ merge_item i fs

abbrev pub record_failure : Item → List Item → List Item
record_failure i fs = if any (λ (f : Item). text_eq f.hash i.hash) fs then fs else merge_item i fs

abbrev pub failed_item : Text → Text → ℕ → Job → Item
failed_item hash short now j = record {
  element = short;
  hash = hash;
  duration = int_seconds now j.start;
  status = failure;
  log = some j.log;
}

fail_tracked : Text → Text → ℕ → ℕ → Option Job → State → State
fail_tracked hash short now later none s = s
fail_tracked hash short now later (some j) s =
    let i = failed_item hash short now j in
    let fs = record_failure i s.failures in
    record s {
      active = pop_job hash s.active;
      completed = s.completed ++ i ∷ [];
      failures = fs;
      failure_count = length fs;
      build_end_ts = later;
    }

-- `_fail`
unfoldable pub fail_job : Text → Text → ℕ → ℕ → State → State
unfolding fail_tracked
fail_job hash short now later s = fail_tracked hash short now later (get_job hash s.active) s

-- `_skip_pull`, `_pull`
unfoldable pub skip_pull : State → State
skip_pull s = record s { cached_count = s.cached_count + 1 }

unfoldable pub pull_done : State → State
pull_done s = record s { pulled = s.pulled + 1 }
