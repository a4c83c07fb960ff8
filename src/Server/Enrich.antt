-- ===== src/Server/Enrich.antt =====
-- tools/bst-dashboard.py: `_enrich_cmake`. The end of each job's log, decoded, is an argument.
use xfce_linux.Base.{
  ◌≡◌, refl, ap, ◌∙◌, Bool-cases, inl, inr, Bool, true, false, ◌==◌, not, Option, none, some, List,
  [], ◌∷◌, Text, is_empty, length, digits_value, if◌then◌else◌,
}
use xfce_linux.Regex.{Cursor, find_all, search_in, cap}
use xfce_linux.Dashboard.Types.{Job}
use xfce_linux.Dashboard.Patterns.{cmake_progress_re, rust_compile_re, rust_finished_re}

abbrev last_mark : List Cursor → Option Cursor
last_mark [] = none
last_mark (m ∷ []) = some m
last_mark (m ∷ n ∷ ms) = last_mark (n ∷ ms)

abbrev found_any : Option Cursor → Bool
found_any none = false
found_any (some m) = true

-- The count of the lines of cargo, if there is one.
unfoldable pub with_rust : Text → Job → Job
with_rust tail j =
    let n = length (find_all rust_compile_re tail) in
    if n == 0
    then j
    else record j { rust = some (n, not (found_any (search_in rust_finished_re tail))) }

abbrev by_mark : Text → Option Cursor → Job → Job
by_mark tail none j = with_rust tail j
by_mark tail (some m) j = record j {
  cmake = some (digits_value 0 (cap 1 m), digits_value 0 (cap 2 m));
}

unfoldable pub enrich_tail : Text → Job → Job
unfolding with_rust
enrich_tail tail j = by_mark tail (last_mark (find_all cmake_progress_re tail)) j

abbrev pub enrich_read : Option Text → Job → Job
enrich_read none j = j
enrich_read (some tail) j = enrich_tail tail j

abbrev pub enrich_job : (Text → Option Text) → Job → Job
enrich_job tail_of j = if is_empty j.log then j else enrich_read (tail_of j.log) j

-- `_enrich_cmake` of the jobs of a snapshot, which are those of the state.
abbrev pub enrich_cmake : (Text → Option Text) → List (Text × Job) → List (Text × Job)
enrich_cmake tail_of [] = []
enrich_cmake tail_of ((h, j) ∷ jobs) = (h, enrich_job tail_of j) ∷ enrich_cmake tail_of jobs

-- A job without what is added from its log.
abbrev pub bare_job : Job → Job
bare_job j = record j { cmake = none; rust = none }

abbrev pub bare_jobs : List (Text × Job) → List (Text × Job)
bare_jobs [] = []
bare_jobs ((h, j) ∷ jobs) = (h, bare_job j) ∷ bare_jobs jobs

with_rust-bare : (tail : Text) (j : Job) → bare_job (with_rust tail j) ≡ bare_job j
unfolding with_rust
with_rust-bare tail j = elim (Bool-cases (length (find_all rust_compile_re tail) == 0)) [
  | inl e ↦ rw e refl
  | inr e ↦ rw e refl
]

by_mark-bare :
    (tail : Text) (m : Option Cursor) (j : Job) → bare_job (by_mark tail m j) ≡ bare_job j
by_mark-bare tail none j = with_rust-bare tail j
by_mark-bare tail (some m) j = refl

enrich_read-bare : (t : Option Text) (j : Job) → bare_job (enrich_read t j) ≡ bare_job j
unfolding enrich_tail
enrich_read-bare none j = refl
enrich_read-bare (some tail) j = by_mark-bare tail (last_mark (find_all cmake_progress_re tail)) j

pub enrich_job-bare :
    (tail_of : Text → Option Text) (j : Job) → bare_job (enrich_job tail_of j) ≡ bare_job j
enrich_job-bare tail_of j = elim (Bool-cases (is_empty j.log)) [
  | inl e ↦ rw e refl
  | inr e ↦ rw e (enrich_read-bare (tail_of j.log) j)
]

pub enrich_cmake-bare :
    (tail_of : Text → Option Text) (jobs : List (Text × Job))
    → bare_jobs (enrich_cmake tail_of jobs) ≡ bare_jobs jobs
enrich_cmake-bare tail_of [] = refl
enrich_cmake-bare tail_of ((h, j) ∷ jobs) =
    ap (λ k. (h, k) ∷ bare_jobs (enrich_cmake tail_of jobs)) (enrich_job-bare tail_of j)
    ∙ ap (λ l. (h, bare_job j) ∷ l) (enrich_cmake-bare tail_of jobs)
