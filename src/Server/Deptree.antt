-- ===== src/Server/Deptree.antt =====
-- tools/bst-dashboard.py: `_fetch_deptree`, from the output of `bst show` to the nodes.
use xfce_linux.Base.{
  ℕ, zero, suc, ℤ, pos, negsuc, take, take_last, Bool, ◌||◌, Option, none, some, List, [], ◌∷◌,
  ◌++◌, Text, codes, is_empty, starts_with, strip, split_lines, drop_while, has_char, before_first,
  after_first, text_eq, ◌==◌, if◌then◌else◌,
}

abbrev pub Nodes : Type 0
Nodes = List (Text × List Text)

-- `nodes[name] = deps`
abbrev pub put_node : Text → List Text → Nodes → Nodes
put_node k v [] = (k, v) ∷ []
put_node k v ((j, w) ∷ l) = if text_eq j k then (j, v) ∷ l else (j, w) ∷ put_node k v l

-- `current_name`, `current_deps` and `nodes`
pub record DepReader : Type 0 where
  pub name : Option Text
  pub deps : List Text
  pub nodes : Nodes

-- `_flush`
abbrev pub flush : Option Text → List Text → Nodes → Nodes
flush none deps nodes = nodes
flush (some name) deps nodes = put_node name deps nodes

abbrev pub is_dash : ℕ → Bool
is_dash c = c == b'-'

-- `s.lstrip("-").strip()`
abbrev pub bare : Text → Text
bare s = strip (drop_while is_dash s)

abbrev pub add_dep : Text → List Text → List Text
add_dep dep deps = if is_empty dep then deps else deps ++ dep ∷ []

abbrev pub first_dep : Text → List Text
first_dep part = if is_empty part || text_eq part (codes "[]") then [] else add_dep (bare part) []

abbrev pub go_on : Option Text → Text → DepReader → DepReader
go_on none line r = r
go_on (some name) line r =
    if starts_with (strip line) (codes "-")
    then record r { deps = add_dep (bare (strip line)) r.deps }
    else r

-- The body of the loop.
unfoldable pub read_dep_line : Text → DepReader → DepReader
read_dep_line line r =
    if has_char 9 line
    then record {
      name = some (strip (before_first 9 line));
      deps = first_dep (strip (after_first 9 line));
      nodes = flush r.name r.deps r.nodes;
    }
    else go_on r.name line r

abbrev pub read_dep_lines : List Text → DepReader → DepReader
read_dep_lines [] r = r
read_dep_lines (l ∷ ls) r = read_dep_lines ls (read_dep_line l r)

abbrev pub flushed : DepReader → Nodes
flushed r = flush r.name r.deps r.nodes

unfoldable pub nodes_of : Text → Nodes
nodes_of out =
    flushed (read_dep_lines (split_lines out) (record { name = none; deps = []; nodes = [] }))

-- `_deptree`; the last is the error.
pub data Tree : Type 0 where
  idle loading : Tree
  ready : Nodes → Tree
  failed_tree : Text → Tree

-- How the command ends: by an exception with its message, or with a status, an output and errors.
pub data Shown : Type 0 where
  show_raised : Text → Shown
  show_ended : ℤ → Text → Text → Shown

abbrev pub or_failed : Text → Text
or_failed [] = codes "bst show failed"
or_failed (c ∷ s) = c ∷ s

-- What the thread makes of the end of the command.
unfoldable pub tree_of : Shown → Tree
tree_of (show_raised message) = failed_tree (take 500 message)
tree_of (show_ended (pos zero) out errors) = ready (nodes_of out)
tree_of (show_ended (pos (suc n)) out errors) =
    failed_tree (take 500 (or_failed (take_last 500 (strip errors))))
tree_of (show_ended (negsuc n) out errors) =
    failed_tree (take 500 (or_failed (take_last 500 (strip errors))))

-- The first step of `_fetch_deptree`, which returns if a fetch is in progress.
unfoldable pub begin_fetch : Tree → Option Tree
begin_fetch loading = none
begin_fetch idle = some loading
begin_fetch (ready nodes) = some loading
begin_fetch (failed_tree message) = some loading
