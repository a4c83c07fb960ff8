-- ===== src/Luks/Exits.antt =====
-- xfce-linux/src/luks-unlock.py: how a run ends, and the constants of time in milliseconds.
use xfce_linux.Base.{ℕ, ◌*◌, List, [], Text, take}

-- A run exits with a status, returns (which is status 0), or raises; the last stands for a loop
-- that has no fuel left.
pub data Exit : Type 0 where
  exited : ℕ → Exit
  returned raised out_of_fuel : Exit

pub record Outcome : Type 0 where
  pub exit : Exit
  pub sent : List Text

abbrev pub seconds : ℕ → ℕ
seconds n = 1000 * n

abbrev pub poll_interval : ℕ
poll_interval = seconds 3

abbrev pub plymouth_wait : ℕ
plymouth_wait = seconds 10

abbrev pub prompt_deadline : ℕ
prompt_deadline = seconds 300

abbrev pub boot_deadline : ℕ
boot_deadline = seconds 300

-- The rounds that a loop can make before its deadline.
abbrev pub prompt_rounds : ℕ
prompt_rounds = 100

abbrev pub boot_rounds : ℕ
boot_rounds = 60

-- What the status tells: 1, that no key was sent; 0 or 2, that these were; or the run raised.
pub data Tells : List Text → Outcome → Type 0 where
  no_keys : {keys : List Text} → Tells keys (record { exit = exited 1; sent = [] })
  booted : {keys : List Text} → Tells keys (record { exit = exited 0; sent = keys })
  not_booted : {keys : List Text} → Tells keys (record { exit = exited 2; sent = keys })
  exception : {keys : List Text} (n : ℕ) → Tells keys (record { exit = raised; sent = take n keys })
