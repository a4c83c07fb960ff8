-- ===== src/Server/Sampler.antt =====
-- tools/bst-dashboard.py: `_sysinfo_sampler`, one round of its loop, with `_bst_container_id` and
-- `_bst_container_stats`. Python's floats are an argument.
use xfce_linux.Base.{
  ℕ, ◌^◌, Bool, ◌||◌, not, Option, none, some, List, [], ◌∷◌, Text, codes, is_empty, strip,
  before_first, after_first, has_char, ends_with, take, ◌-◌, length, drop_while_end, ◌==◌,
  if◌then◌else◌, ℤ,
}

-- Floats: `float(s)`, `int(x * n)`, which raises for an infinite x,
-- `max(0.0, min(100.0, round(100.0 * (1.0 - a / b), 1)))`, and `0.0`.
pub record Floats : Type 1 where
  pub Float : Type 0
  pub parse : Text → Option Float
  pub times : Float → ℕ → Option ℤ
  pub usage : ℤ → ℤ → Float
  pub zero_float : Float

-- What `podman` prints, unless it raises.
abbrev pub container_id : Option Text → Text
container_id none = []
container_id (some out) = strip out

-- The suffixes of a size with their factors.
abbrev suffixes : List (Text × ℕ)
suffixes = (codes "GiB", 2 ^ 30) ∷ (codes "MiB", 2 ^ 20) ∷ (codes "kB", 1000) ∷ []

abbrev pub without_suffix : Text → List (Text × ℕ) → Text × ℕ
without_suffix s [] = (s, 1)
without_suffix s ((suffix, factor) ∷ more) =
    let rest = without_suffix s more in
    if ends_with s suffix then (take (length s - length suffix) s, factor) else rest

abbrev is_percent : ℕ → Bool
is_percent c = c == b'%'

-- The load and the memory of the container, unless they raise.
module _ (fl : Floats) where
  abbrev pub Stats : Type 0
  Stats = Option fl.Float × Option ℤ

  abbrev pub with_memory : fl.Float → Option ℤ → Stats
  with_memory cpu none = (none, none)
  with_memory cpu (some n) = (some cpu, some n)

  abbrev pub scaled : fl.Float → Option fl.Float → ℕ → Stats
  scaled cpu none factor = (none, none)
  scaled cpu (some x) factor = with_memory cpu (fl.times x factor)

  abbrev pub by_load : Option fl.Float → Text → Stats
  by_load none memory = (none, none)
  by_load (some cpu) memory =
      let (number, factor) = without_suffix (strip (before_first b'/' memory)) suffixes in
      scaled cpu (fl.parse number) factor

  -- One line, of the load, a comma and the memory.
  abbrev pub stats_line : Text → Stats
  stats_line line =
      if is_empty line || not (has_char b',' line)
      then (none, none)
      else by_load (fl.parse (drop_while_end is_percent (strip (before_first b',' line))))
          (after_first b',' line)

  abbrev stats_of : Option Text → Stats
  stats_of none = (none, none)
  stats_of (some out) = stats_line (strip out)

  -- `_bst_container_stats`
  unfoldable pub container_stats : Text → Option Text → Stats
  container_stats cid out = if is_empty cid then (none, none) else stats_of out

  -- `_sysinfo`
  pub record Sysinfo : Type 0 where
    pub cpu_pct : fl.Float
    pub cpu_cores : List fl.Float
    pub mem_used : ℤ
    pub mem_total : ℕ
    pub bst_cpu_pct : Option fl.Float
    pub bst_mem : Option ℤ
    pub cpu_temp : Option ℤ
    pub bst_running : Bool
