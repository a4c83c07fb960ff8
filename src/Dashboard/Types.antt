-- ===== src/Dashboard/Types.antt =====
-- tools/bst_dashboard/model.py: the build state, its snapshot and its `update`.
use xfce_linux.Base.{
  ℕ, ◌+◌, Bool, true, false, ◌&&◌, ◌||◌, not, Option, List, [], ◌∷◌, map, Text, take_last, ◌==◌,
  if◌then◌else◌, ℤ, pos, int_seconds,
}

pub data Status : Type 0 where
  success failure : Status

-- An entry of `completed` or of `failures`; an entry of a success has no key `log`.
pub record Item : Type 0 where
  pub element : Text
  pub hash : Text
  pub duration : ℤ
  pub status : Status
  pub log : Option Text

-- An entry of `active`. The last two are the keys that the server adds to it from the job's log.
pub record Job : Type 0 where
  pub element : Text
  pub hash : Text
  pub start : ℕ
  pub log : Text
  pub cmake : Option (ℕ × ℕ)
  pub rust : Option (ℕ × Bool)

-- Times are clock readings in microseconds, and 0 where none was taken.
pub record State : Type 0 where
  pub active : List (Text × Job)
  pub completed : List Item
  pub failures : List Item
  pub summary_elements : List Text
  pub pulled : ℕ
  pub success_count : ℕ
  pub failure_count : ℕ
  pub cached_count : ℕ
  pub total_elements : ℕ
  pub recent_lines : List Text
  pub build_start_ts : ℕ
  pub build_end_ts : ℕ
  pub catching_up : Bool
  pub version : ℕ

-- `State()`
abbrev pub initial : State
initial = record {
  active = [];
  completed = [];
  failures = [];
  summary_elements = [];
  pulled = 0;
  success_count = 0;
  failure_count = 0;
  cached_count = 0;
  total_elements = 0;
  recent_lines = [];
  build_start_ts = 0;
  build_end_ts = 0;
  catching_up = true;
  version = 0;
}

-- `State.update`: the lock makes it one step.
unfoldable pub update : (State → State) → State → State
update fn s = let t = fn s in record t { version = t.version + 1 }

pub record Snapshot : Type 0 where
  pub active : List Job
  pub completed : List Item
  pub failures : List Item
  pub pulled : ℕ
  pub success : ℕ
  pub failure : ℕ
  pub cached : ℕ
  pub done : ℕ
  pub total : ℕ
  pub recent : List Text
  pub elapsed : ℤ
  pub live : Bool
  pub catching_up : Bool
  pub build_running : Bool
  pub version : ℕ
  pub sysinfo : List (Text × Text)

abbrev pub is_set : ℕ → Bool
is_set t = not (t == 0)

abbrev pub has_items {ℓ} : {A : Type ℓ} → List A → Bool
has_items [] = false
has_items (a ∷ l) = true

unfoldable pub is_live : State → Bool
is_live s = has_items s.active || s.catching_up

unfoldable pub elapsed_at : ℕ → State → ℤ
unfolding is_live int_seconds
elapsed_at now s =
    if is_live s
    then (if is_set s.build_start_ts then int_seconds now s.build_start_ts else pos 0)
    else if is_set s.build_end_ts && is_set s.build_start_ts
    then int_seconds s.build_end_ts s.build_start_ts
    else pos 0

-- `State.snapshot`, at a clock reading; `running` and `info` are what the callbacks
-- `build_running` and `sysinfo` say, the values of the second as they are printed.
unfoldable pub snapshot : ℕ → Bool → List (Text × Text) → State → Snapshot
unfolding elapsed_at is_live
snapshot now running info s = record {
  active = map (λ (_, j). j) s.active;
  completed = take_last 60 s.completed;
  failures = s.failures;
  pulled = s.pulled;
  success = s.success_count;
  failure = s.failure_count;
  cached = s.cached_count;
  done = s.success_count + s.cached_count + s.pulled + s.failure_count;
  total = s.total_elements;
  recent = take_last 80 s.recent_lines;
  elapsed = elapsed_at now s;
  live = is_live s;
  catching_up = s.catching_up;
  build_running = running;
  version = s.version;
  sysinfo = info;
}
