-- ===== src/Server/Tests.antt =====
-- tools/bst-dashboard.py: the theorems of the server at concrete inputs.
use xfce_linux.Base.{◌≡◌, refl, true, false, none, some, List, [], ◌∷◌, Text, codes, arith, pos}
use xfce_linux.Dashboard.Types.{State, initial}
use xfce_linux.Dashboard.Updates.{add_recent}
use xfce_linux.Server.Tail.{poll}
use xfce_linux.Server.Lines.{
  caught_up, begun, ArePieces, poll-cut, follow, follow-lines, poll-truncated,
}
use xfce_linux.Server.Runner.{
  Config, Runner, Launch, no_process, launches, build_running, build_command,
}
use xfce_linux.Server.Builds.{starts, answers, accepted, starts-first_launch}
use xfce_linux.Server.Routes.{norm_path}
use xfce_linux.Server.Deptree.{Nodes, nodes_of, read_dep_line, read_dep_lines, flushed}
use xfce_linux.Server.Trees.{IsName, AreNodes, tree_lines, tree_lines-nodes}
use xfce_linux.Server.Proc.{read_proc_stat, read_proc_meminfo}
use xfce_linux.Base.{low-IsScalar, encode, encode_char, take, inl, ◌⊎◌, Bool}
use xfce_linux.Server.Crates.{with_rust-find_all}
use xfce_linux.Regex.{exec, find_all, search_in}
use xfce_linux.Dashboard.Types.{Job}
use xfce_linux.Dashboard.Patterns.{cmake_progress_re, rust_compile_re, rust_finished_re}
use xfce_linux.Server.Enrich.{enrich_cmake, enrich_tail, with_rust}
use xfce_linux.Server.Temperature.{Sensor, pick_sensor, hwmon_temp, get_cpu_temp}

abbrev keep_line : Text → State → State
keep_line l s = add_recent l s

abbrev pieces : List Text
pieces = codes "one\ntw" ∷ codes "ö\n" ∷ codes "three\nfo" ∷ []

pieces_scalar : ArePieces keep_line (λ s. s) none pieces
pieces_scalar = (
  (λ e. cc, low-IsScalar (codes "one\ntw") refl),
  (
    (λ e. cc, low-IsScalar (codes "ö\n") refl),
    ((λ e. cc, low-IsScalar (codes "three\nfo") refl), tt),
  ),
)

follow-lines_example :
    follow keep_line (λ s. s) none pieces [] (record { buf = []; pos = 0; state = initial })
    ≡ record {
      buf = codes "fo";
      pos = 17;
      state = record initial { recent_lines = codes "one" ∷ codes "twö" ∷ codes "three" ∷ [] };
    }
unfolding add_recent encode encode_char
follow-lines_example = follow-lines keep_line (λ s. s) none pieces initial pieces_scalar

poll-truncated_example :
    poll keep_line
      (λ s. initial)
      (some (encode (codes "new\nb")))
      true
      none
      (record { buf = codes "rest"; pos = 40; state = initial })
    ≡ caught_up keep_line (λ s. initial) none (codes "new\nb") initial
unfolding encode encode_char
poll-truncated_example =
    poll-truncated keep_line (λ s. initial) none (codes "new\nb")
      (record { buf = codes "rest"; pos = 40; state = initial }) (omega arith) (λ e. cc)
      (low-IsScalar (codes "new\nb") refl)

poll-cut_example :
    poll keep_line
      (λ s. initial)
      (some (encode_char 0x20ac))
      true
      none
      (poll keep_line
        (λ s. initial)
        (some (take 1 (encode_char 0x20ac)))
        true
        none
        (begun keep_line (λ s. initial) none [] initial))
    ≡ begun keep_line (λ s. initial) none (encode_char 0x20ac) initial
poll-cut_example =
    poll-cut keep_line (λ s. initial) none 0x20ac initial (omega arith) (inl (omega arith))

abbrev pub config : Config
config = record {
  project = codes "/p";
  home = codes "/root";
  image = codes "bst2";
  target = codes "a.bst";
  nproc = 6;
}

abbrev pub at_rest : Runner
at_rest = record {
  proc = none;
  bst_running = false;
  log = codes "old";
  commands = [];
  terminated = 0;
  stopped = [];
}

-- The first start cannot run podman, the second launches a build, and the third comes after it.
abbrev tries : List (Text × Launch)
tries = (codes "one", no_process) ∷ (codes "two", launches) ∷ (codes "three", launches) ∷ []

starts-first_launch_example :
    ((starts config tries at_rest).commands ≡ build_command config ∷ [])
    × (build_running (starts config tries at_rest) ≡ true)
    × (accepted (answers config tries at_rest) ≡ 1)
    × ((starts config tries at_rest).log ≡ codes "=== Build started at two ===\n")
starts-first_launch_example = starts-first_launch config tries at_rest refl

path_normed : norm_path (codes "/bst/api/log/?hash=1") ≡ (codes "/api/log", codes "hash=1")
unfolding norm_path
path_normed = refl

abbrev tree : Nodes
tree =
    (codes "a.bst", codes "b.bst" ∷ codes "c.bst" ∷ [])
    ∷ (codes "b.bst", [])
    ∷ (codes "c.bst", codes "b.bst" ∷ [])
    ∷ []

a_named : IsName (codes "a.bst")
a_named = record { no_tab = refl; some_char = refl; left = refl; right = refl }

b_named : IsName (codes "b.bst")
b_named = record { no_tab = refl; some_char = refl; left = refl; right = refl }

c_named : IsName (codes "c.bst")
c_named = record { no_tab = refl; some_char = refl; left = refl; right = refl }

tree_named : AreNodes [] tree
tree_named = (
  refl,
  a_named,
  (b_named, (c_named, tt)),
  (refl, b_named, tt, (refl, c_named, (b_named, tt), tt)),
)

tree_lines-nodes_example :
    flushed (read_dep_lines (tree_lines tree) (record { name = none; deps = []; nodes = [] }))
    ≡ tree
tree_lines-nodes_example = tree_lines-nodes tree tree_named

stat_read :
    read_proc_stat (
      codes "cpu  10 1 5 80 4 0 0 9"
      ∷ codes "cpu0 1 2 3 4 5 6 7"
      ∷ codes "intr 1"
      ∷ codes "cpu1 1"
      ∷ [])
    ≡ (84, 100) ∷ (9, 28) ∷ []
unfolding read_proc_stat
stat_read = refl

meminfo_read :
    read_proc_meminfo (codes "MemTotal:  100 kB" ∷ codes "MemAvailable: 40 kB" ∷ [])
    ≡ some (pos 61440, 102400)
unfolding read_proc_meminfo
meminfo_read = refl

nodes_read : nodes_of (codes "a.bst\t- b.bst\n- c.bst\nb.bst\t[]\nc.bst\t- b.bst\n") ≡ tree
unfolding nodes_of read_dep_line
nodes_read = refl

abbrev job : Job
job = record {
  element = codes "a.bst";
  hash = codes "01";
  start = 5;
  log = codes "/l";
  cmake = none;
  rust = none;
}

marks_read :
    enrich_cmake (λ p. some (codes "[1/20] cc\n[ 7/20] cc\n")) ((codes "01", job) ∷ [])
    ≡ (codes "01", record job { cmake = some (7, 20) }) ∷ []
unfolding enrich_tail with_rust find_all search_in exec cmake_progress_re
marks_read = refl

abbrev core : Sensor
core = record {
  fname = codes "temp2_input";
  label = some (codes "Core 0");
  value = some (pos 41000);
}

abbrev package_sensor : Sensor
package_sensor = record {
  fname = codes "temp1_input";
  label = some (codes "Package id 0");
  value = some (pos 45000);
}

temperature_read :
    get_cpu_temp
      (some (
        record {
          dir = codes "hwmon0";
          name = some (codes "coretemp");
          sensors = some (core ∷ package_sensor ∷ []);
        }
        ∷ []))
      none
    ≡ some (pos 45000)
unfolding get_cpu_temp hwmon_temp pick_sensor
temperature_read = refl

abbrev cargo_log : Text
cargo_log = codes "   Compiling foo v1.2\n   Compiling bar v2.0\n"

with_rust-find_all_example :
    ((with_rust cargo_log job).rust ≡ none)
    ⊎ ((b : Bool) × ((with_rust cargo_log job).rust ≡ some (1, b)))
with_rust-find_all_example = with_rust-find_all cargo_log job

crates_counted : (with_rust cargo_log job).rust ≡ some (1, true)
unfolding with_rust find_all search_in exec rust_compile_re rust_finished_re
crates_counted = refl
