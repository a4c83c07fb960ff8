-- ===== src/Server/Handler.antt =====
-- tools/bst-dashboard.py: `Handler`, from a request to the reply and what it leaves of the server.
use xfce_linux.Base.{
  int_text, str, ℕ, ◌-◌, Bool, true, false, Option, none, some, List, [], ◌∷◌, ◌++◌, Text, Bytes,
  codes, encode, decode, drop, length, map, if◌then◌else◌, json_text, json_list, json_dict,
}
use xfce_linux.Dashboard.Types.{State, Snapshot, snapshot}
use xfce_linux.Server.Runner.{Config, Runner, Launch, build_running, start_build, stop_build}
use xfce_linux.Server.Deptree.{Tree, idle, loading, ready, failed_tree, Nodes}
use xfce_linux.Server.Fetching.{Fetching, ask}
use xfce_linux.Server.Enrich.{enrich_cmake}
use xfce_linux.Server.Routes.{
  norm_path, Post, post_start, post_stop, post_refresh, post_unknown, post_route, Get, get_state,
  get_deptree, get_log, get_page, get_route, File, absent, unreadable, file_bytes, Answer,
  path_answer, log_path,
}

-- The target of the request, and its header `Content-Length`.
pub record Incoming : Type 0 where
  pub target : Text
  pub content_length : Option Text

-- The status, the headers that the handler sends, and the bytes.
pub record Reply : Type 0 where
  pub status : ℕ
  pub headers : List (Text × Text)
  pub body : Bytes

-- `STATE`, the build and the dependency tree.
pub record Server : Type 0 where
  pub state : State
  pub runner : Runner
  pub fetching : Fetching

-- What the handler finds when it runs: the clock, the date, how the calls of a start go, the
-- container, whether `podman stop` returns, the files, `unquote` and `abspath`, what the sampler
-- published, `json.dumps` of a snapshot, and the page.
pub record World : Type 0 where
  pub config : Config
  pub clock : ℕ
  pub date : Text
  pub launch : Launch
  pub cid : Text
  pub stops : Bool
  pub file : Text → File
  pub unquote : Text → Text
  pub abspath : Text → Text
  pub sysinfo : List (Text × Text)
  pub dumps : Snapshot → Text
  pub page : Text

abbrev pub content_type : Text → Bytes → List (Text × Text)
content_type kind body =
    (codes "Content-Type", kind)
    ∷ (codes "Content-Length", str (length body))
    ∷ (codes "Cache-Control", codes "no-store")
    ∷ []

abbrev pub sized_reply : ℕ → Text → Bytes → Reply
sized_reply status kind body = record {
  status = status;
  headers = content_type kind body;
  body = body;
}

-- `_json_reply`, and the same lines of `do_GET`, of the text that `json.dumps` gives
unfoldable pub json_reply : Text → Reply
json_reply text = sized_reply 200 (codes "application/json") (encode text)

abbrev pub not_found : Reply
not_found = record { status = 404; headers = []; body = [] }

abbrev pub json_bool : Bool → Text
json_bool b = if b then codes "true" else codes "false"

abbrev pub ok_reply : Bool → Reply
ok_reply ok = json_reply (json_dict ((json_text (codes "ok"), json_bool ok) ∷ []))

-- Whether `int` takes the header, which is 0 where there is none. The body is read and dropped.
unfoldable pub has_length : Option Text → Bool
unfolding int_text
has_length none = true
has_length (some s) = elim (int_text s) [ none ↦ false | some n ↦ true ]

-- The reply to an answer, unless there is an exception.
abbrev pub reply_if : Option Bool → Option Reply
reply_if none = none
reply_if (some ok) = some (ok_reply ok)

module _ (w : World) where
  -- What is left after an exception, which sends no reply, is left all the same.
  abbrev started : Server → Runner × Option Bool → Option Reply × Server
  started s (r, ok) = (reply_if ok, record s { runner = r })

  abbrev stopped : Server → Runner × Bool → Option Reply × Server
  stopped s (r, ok) = (some (ok_reply ok), record s { runner = r })

  abbrev pub post : Post → Server → Option Reply × Server
  post post_start s = started s (start_build w.config w.date w.launch s.runner)
  post post_stop s = stopped s (stop_build w.cid w.stops s.runner)
  post post_refresh s = (some (ok_reply true), record s { fetching = ask s.fetching })
  post post_unknown s = (some not_found, s)

  -- `do_POST`; there is no reply if `int` or `start_build` raises.
  unfoldable pub do_post : Incoming → Server → Option Reply × Server
  do_post q s =
      if has_length q.content_length then post (post_route (norm_path q.target).0) s else (none, s)

  -- The last 8 KB of a job's log, decoded.
  abbrev tail_of_file : File → Option Text
  tail_of_file absent = none
  tail_of_file (unreadable message) = none
  tail_of_file (file_bytes bytes) = some (decode (drop (length bytes - 8192) bytes))

  -- The job dicts of the snapshot are those of the state, so that it is enriched too.
  abbrev pub enriched : State → State
  enriched s = record s { active = enrich_cmake (λ path. tail_of_file (w.file path)) s.active }

  abbrev pub get_state_reply : Server → Reply × Server
  get_state_reply s =
      let t = enriched s.state in
      (
        json_reply (w.dumps (snapshot w.clock (build_running s.runner) w.sysinfo t)),
        record s { state = t },
      )

  abbrev json_node : Text × List Text → Text × Text
  json_node (name, deps) = (json_text name, json_list (map json_text deps))

  abbrev tree_fields : Text → Nodes → Text → List (Text × Text)
  tree_fields status nodes root =
      (json_text (codes "status"), json_text status)
      ∷ (json_text (codes "nodes"), json_dict (map json_node nodes))
      ∷ (json_text (codes "root"), json_text root)
      ∷ []

  -- `payload`, as `json.dumps` writes it; an idle tree is shown as loading.
  abbrev pub tree_json : Tree → Text
  tree_json idle = json_dict (tree_fields (codes "loading") [] [])
  tree_json loading = json_dict (tree_fields (codes "loading") [] w.config.target)
  tree_json (ready nodes) = json_dict (tree_fields (codes "ready") nodes w.config.target)
  tree_json (failed_tree message) = json_dict (
      tree_fields (codes "error") [] w.config.target
      ++ (json_text (codes "error"), json_text message) ∷ [])

  abbrev pub if_idle : Tree → Fetching → Fetching
  if_idle idle f = ask f
  if_idle loading f = f
  if_idle (ready nodes) f = f
  if_idle (failed_tree message) f = f

  abbrev pub get_deptree_reply : Server → Reply × Server
  get_deptree_reply s = (
    json_reply (tree_json s.fetching.tree),
    record s { fetching = if_idle s.fetching.tree s.fetching },
  )

  -- `os.path.expanduser("~/.cache/buildstream/logs")`
  abbrev pub bst_logs : Text
  bst_logs = w.config.home ++ codes "/.cache/buildstream/logs"

  abbrev pub answer_reply : Answer → Reply
  answer_reply a = sized_reply a.status (codes "text/plain; charset=utf-8") (encode a.body)

  abbrev pub get_log_reply : Text → State → Reply
  get_log_reply query s =
      answer_reply (path_answer w.file (log_path w.unquote w.abspath bst_logs query s))

  abbrev pub get : Get → Text → Server → Reply × Server
  get get_state query s = get_state_reply s
  get get_deptree query s = get_deptree_reply s
  get get_log query s = (get_log_reply query s.state, s)
  get get_page query s = (sized_reply 200 (codes "text/html; charset=utf-8") (encode w.page), s)

  -- `do_GET`
  unfoldable pub do_get : Incoming → Server → Reply × Server
  do_get q s = let (path, query) = norm_path q.target in get (get_route path) query s
