-- ===== src/Server/Runner.antt =====
-- tools/bst-dashboard.py: the options and the control of the build process. `BUILD_LOCK` makes
-- `start_build` and `stop_build` one step each.
use xfce_linux.Base.{
  str, ℕ, ◌+◌, ◌/◌, max, Bool, true, false, ◌||◌, Option, none, some, List, [], ◌∷◌, ◌++◌, Text,
  codes, is_empty, path_join, if◌then◌else◌, take,
}

-- `a or b` of an option of the command line and of a variable with its default
abbrev pub option_or : Option Text → Option Text → Text → Text
option_or none none default_value = default_value
option_or none (some v) default_value = v
option_or (some []) none default_value = default_value
option_or (some []) (some v) default_value = v
option_or (some (c ∷ s)) env default_value = c ∷ s

-- The configuration: the project, the home directory, the image, the target, and the number of
-- processors.
pub record Config : Type 0 where
  pub project : Text
  pub home : Text
  pub image : Text
  pub target : Text
  pub nproc : ℕ

abbrev pub cache_dir : Config → Text
cache_dir c = path_join (path_join c.home (codes ".cache")) (codes "buildstream")

-- The arguments of `podman` up to the image.
abbrev pub container_args : Config → List Text
container_args c =
    codes "podman"
    ∷ codes "run"
    ∷ codes "--rm"
    ∷ codes "--privileged"
    ∷ codes "--device"
    ∷ codes "/dev/fuse"
    ∷ codes "--network=host"
    ∷ codes "-v"
    ∷ (c.project ++ codes ":/src:rw")
    ∷ codes "-v"
    ∷ (cache_dir c ++ codes ":/root/.cache/buildstream:rw")
    ∷ codes "-w"
    ∷ codes "/src"
    ∷ c.image
    ∷ []

abbrev pub build_command : Config → List Text
build_command c =
    container_args c
    ++ codes "bash"
      ∷ codes "-c"
      ∷ codes "bst --colors \"$@\""
      ∷ codes "--"
      ∷ codes "--max-jobs"
      ∷ str (max 1 (c.nproc / 2))
      ∷ codes "--fetchers"
      ∷ str c.nproc
      ∷ codes "build"
      ∷ c.target
      ∷ []

-- `BUILD_PROC` by whether it runs, `_sysinfo["bst_running"]`, the log, and the commands and the
-- signals that were given.
pub record Runner : Type 0 where
  pub proc : Option Bool
  pub bst_running : Bool
  pub log : Text
  pub commands : List (List Text)
  pub terminated : ℕ
  pub stopped : List Text

abbrev pub is_alive : Option Bool → Bool
is_alive none = false
is_alive (some b) = b

-- `build_running`
abbrev pub build_running : Runner → Bool
build_running r = is_alive r.proc || r.bst_running

abbrev pub start_line : Text → Text
start_line now = codes "=== Build started at " ++ now ++ codes " ===\n"

-- How the calls of a start go: `makedirs` or the first `open` raises, the write of the header raises
-- after so many characters, the second `open` or `Popen` raises, or none of them does.
pub data Launch : Type 0 where
  no_log : Launch
  cut_header : ℕ → Launch
  no_process : Launch
  launches : Launch

-- The rest of `start_build`; without an answer it has raised.
abbrev pub launched : Config → Text → Launch → Runner → Runner × Option Bool
launched c now no_log r = (r, none)
launched c now (cut_header n) r = (record r { log = take n (start_line now) }, none)
launched c now no_process r = (record r { log = start_line now }, none)
launched c now launches r = (
  record r {
    proc = some true;
    log = start_line now;
    commands = r.commands ++ build_command c ∷ [];
  },
  some true,
)

-- `start_build`, at this date.
unfoldable pub start_build : Config → Text → Launch → Runner → Runner × Option Bool
start_build c now l r = if build_running r then (r, some false) else launched c now l r

abbrev pub terminate : Runner → Runner × Bool
terminate r =
    if is_alive r.proc then (record r { terminated = r.terminated + 1 }, true) else (r, false)

abbrev stop_container : Text → Bool → Runner × Bool → Runner × Bool
stop_container cid stops (r, killed) =
    if is_empty cid
    then (r, killed)
    else (record r { stopped = r.stopped ++ cid ∷ [] }, stops || killed)

-- `stop_build`: the id of the container, and whether `podman stop` returns.
unfoldable pub stop_build : Text → Bool → Runner → Runner × Bool
stop_build cid stops r = stop_container cid stops (terminate r)
