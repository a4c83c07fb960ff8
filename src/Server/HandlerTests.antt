-- ===== src/Server/HandlerTests.antt =====
-- tools/bst-dashboard.py: requests and fetches.
use xfce_linux.Base.{
  ◌≡◌, refl, true, none, some, [], ◌∷◌, Text, codes, encode, encode_char, decode, json_text,
}
use xfce_linux.Regex.{sub_all, exec}
use xfce_linux.Dashboard.Types.{Job, initial}
use xfce_linux.Server.Deptree.{ready}
use xfce_linux.Server.Fetching.{at_start}
use xfce_linux.Server.Routes.{file_bytes, norm_path, log_path, last_lines}
use xfce_linux.Server.Handler.{
  Incoming, Server, World, do_get, do_post, ok_reply, has_length, tree_json,
}
use xfce_linux.Server.Replies.{IsSized, Keeps, do_get-IsSized, do_get-Keeps}
use xfce_linux.Server.Serving.{Serves, do_get-Serves}
use xfce_linux.Server.Runner.{launches}
use xfce_linux.Server.Tests.{config, at_rest}

abbrev pub same : Text → Text
same s = s

abbrev pub world : World
world = record {
  config = config;
  clock = 0;
  date = codes "now";
  launch = launches;
  cid = [];
  stops = true;
  file = λ p. file_bytes (encode (codes "one\ntwo"));
  unquote = same;
  abspath = same;
  sysinfo = [];
  dumps = λ s. codes "{}";
  page = codes "<html>";
}

abbrev pub job : Job
job = record {
  element = codes "a.bst";
  hash = codes "ab";
  start = 0;
  log = codes "/logs/a.log";
  cmake = none;
  rust = none;
}

abbrev pub server : Server
server = record {
  state = record initial { active = (codes "ab", job) ∷ [] };
  runner = at_rest;
  fetching = at_start;
}

abbrev pub asking : Text → Incoming
asking target = record { target = target; content_length = none }

do_get-IsSized_example : IsSized (do_get world (asking (codes "/bst/")) server).0
do_get-IsSized_example = do_get-IsSized world (asking (codes "/bst/")) server

do_get-Keeps_example : Keeps world server (do_get world (asking (codes "/api/deptree")) server).1
do_get-Keeps_example = do_get-Keeps world (asking (codes "/api/deptree")) server

-- A file in a sibling of the directory of the logs.
abbrev sibling : Incoming
sibling = asking (codes "/api/log?path=/root/.cache/buildstream/logs-other/x")

do_get-Serves_example :
    Serves world server.state (do_get world sibling server).0
    × ((do_get world sibling server).1 ≡ server)
unfolding norm_path
do_get-Serves_example = do_get-Serves world sibling server refl

sibling_served : (do_get world sibling server).0.body ≡ encode (codes "one\ntwo")
unfolding do_get norm_path log_path last_lines decode encode encode_char sub_all exec
sibling_served = refl

log_served :
    (do_get world (asking (codes "/bst/api/log?hash=ab")) server).0.body ≡ encode (codes "one\ntwo")
unfolding do_get norm_path log_path last_lines decode encode encode_char sub_all exec
log_served = refl

posted :
    do_post world
      (record { target = codes "/api/deptree/refresh"; content_length = some (codes " 1_0") })
      server
    ≡ (some (ok_reply true), record server { fetching = record at_start { asked = 1 } })
unfolding do_post norm_path has_length
posted = refl

refused :
    do_post world
      (record { target = codes "/api/start"; content_length = some (codes "1_") })
      server
    ≡ (none, server)
unfolding do_post has_length
refused = refl

tree_shown :
    tree_json world (ready ((codes "é.bst", codes "b.bst" ∷ codes "c.bst" ∷ []) ∷ []))
    ≡ codes
        "{\"status\": \"ready\", \"nodes\": {\"\\u00e9.bst\": [\"b.bst\", \"c.bst\"]}, \"root\": \"a.bst\"}"
unfolding json_text
tree_shown = refl
