-- ===== src/Server/Routes.antt =====
-- tools/bst-dashboard.py: the routes of `Handler`.
use xfce_linux.Base.{
  Bytes, decode, ℕ, Bool, ◌&&◌, Option, none, some, List, [], ◌∷◌, Text, codes, starts_with, drop,
  drop_while_end, has_char, split_on, before_first, after_first, text_eq, take_last, split_lines,
  join, ◌==◌, if◌then◌else◌,
}
use xfce_linux.Regex.{sub_all}
use xfce_linux.Dashboard.Types.{Job, State}
use xfce_linux.Dashboard.Updates.{get_job}
use xfce_linux.Dashboard.Patterns.{ansi}

abbrev pub is_slash : ℕ → Bool
is_slash c = c == b'/'

abbrev pub or_root : Text → Text
or_root [] = codes "/"
or_root (c ∷ s) = c ∷ s

-- `_norm_path`
abbrev pub without_prefix : Text → Text
without_prefix path = if starts_with path (codes "/bst") then or_root (drop 4 path) else path

abbrev pub query_of : Text → Text
query_of s = if has_char b'?' s then after_first b'?' s else []

unfoldable pub norm_path : Text → Text × Text
norm_path s = (without_prefix (or_root (drop_while_end is_slash (before_first b'?' s))), query_of s)

-- What a POST does.
pub data Post : Type 0 where
  post_start post_stop post_refresh post_unknown : Post

abbrev pub post_route : Text → Post
post_route path =
    if text_eq path (codes "/api/start")
    then post_start
    else if text_eq path (codes "/api/stop")
    then post_stop
    else if text_eq path (codes "/api/deptree/refresh")
    then post_refresh
    else post_unknown

pub data Get : Type 0 where
  get_state get_deptree get_log get_page : Get

abbrev pub get_route : Text → Get
get_route path =
    if text_eq path (codes "/api/state")
    then get_state
    else if text_eq path (codes "/api/deptree")
    then get_deptree
    else if text_eq path (codes "/api/log")
    then get_log
    else get_page

-- `dict(p.split("=", 1) for p in query.split("&") if "=" in p)`, where the last of a name counts.
abbrev pub param_in : Text → List Text → Option Text
param_in k [] = none
param_in k (p ∷ ps) =
    let rest = param_in k ps in
    elim rest [
      | some v ↦ some v
      | none ↦
          if has_char b'=' p && text_eq (before_first b'=' p) k
          then some (after_first b'=' p)
          else none
    ]

abbrev pub param : Text → Text → Option Text
param k query = param_in k (split_on b'&' query)

abbrev pub log_of : Option Job → Option Text
log_of none = none
log_of (some j) = some j.log

-- The path of the log that `/api/log` serves. `unquote` and `abspath` are arguments.
abbrev pub by_path :
    (Text → Text) → (Text → Text) → Text → Option Text → Option Text → State → Option Text
by_path unquote abspath bst_logs (some p) h s =
    if starts_with (abspath (unquote p)) bst_logs then some (unquote p) else none
by_path unquote abspath bst_logs none none s = none
by_path unquote abspath bst_logs none (some h) s = log_of (get_job h s.active)

unfoldable pub log_path : (Text → Text) → (Text → Text) → Text → Text → State → Option Text
log_path unquote abspath bst_logs query s =
    by_path unquote abspath bst_logs (param (codes "path") query) (param (codes "hash") query) s

-- A file: it is not there, it cannot be read with this message, or it has these bytes.
pub data File : Type 0 where
  absent : File
  unreadable : Text → File
  file_bytes : Bytes → File

-- The answer: the status and the text.
pub record Answer : Type 0 where
  pub status : ℕ
  pub body : Text

unfoldable pub last_lines : Text → Text
unfolding sub_all ansi
last_lines raw = join (codes "\n") (take_last 300 (split_lines (sub_all ansi [] raw)))

abbrev pub file_answer : File → Answer
file_answer absent = record { status = 404; body = codes "Log not available" }
file_answer (unreadable message) = record { status = 500; body = message }
file_answer (file_bytes raw) = record { status = 200; body = last_lines (decode raw) }

abbrev pub path_answer : (Text → File) → Option Text → Answer
path_answer file none = record { status = 404; body = codes "Log not available" }
path_answer file (some []) = record { status = 404; body = codes "Log not available" }
path_answer file (some (c ∷ s)) = file_answer (file (c ∷ s))
