-- ===== src/Server/Replies.antt =====
-- tools/bst-dashboard.py: the length that a reply of `do_GET` announces, and what a GET leaves as it
-- was.
use xfce_linux.Base.{
  str, str-value, ℕ, ◌≡◌, refl, ap, Bool, true, false, Option, none, some, List, [], ◌∷◌, Text,
  Bytes, codes, encode, length, text_eq, if◌then◌else◌, digits_value, ◌⊎◌, inl, inr,
}
use xfce_linux.Dashboard.Types.{State}
use xfce_linux.Server.Deptree.{Tree, idle, loading, ready, failed_tree}
use xfce_linux.Server.Fetching.{Fetching, ask}
use xfce_linux.Server.Enrich.{bare_jobs, enrich_cmake-bare}
use xfce_linux.Server.Routes.{
  norm_path, Get, get_state, get_deptree, get_log, get_page, get_route, Answer, path_answer,
  log_path,
}
use xfce_linux.Server.Handler.{
  Incoming, Reply, Server, World, sized_reply, json_reply, get, do_get, if_idle, answer_reply,
  bst_logs,
}

abbrev pub header : Text → List (Text × Text) → Option Text
header k [] = none
header k ((j, v) ∷ hs) = if text_eq j k then some v else header k hs

-- The reply says in decimal digits how many bytes it has.
abbrev pub IsSized : Reply → Type 0
IsSized r =
    (v : Text) × (header (codes "Content-Length") r.headers ≡ some v)
    × (digits_value 0 v ≡ length r.body)

sized_reply-IsSized :
    (status : ℕ) (kind : Text) (body : Bytes) → IsSized (sized_reply status kind body)
sized_reply-IsSized status kind body = (str (length body), refl, str-value (length body))

json_reply-IsSized : (text : Text) → IsSized (json_reply text)
unfolding json_reply
json_reply-IsSized text = sized_reply-IsSized 200 (codes "application/json") (encode text)

module _ (w : World) where
  answer-IsSized : (a : Answer) → IsSized (answer_reply w a)
  answer-IsSized a =
      sized_reply-IsSized a.status (codes "text/plain; charset=utf-8") (encode a.body)

  get-IsSized : (g : Get) (query : Text) (s : Server) → IsSized (get w g query s).0
  get-IsSized get_state query s = json_reply-IsSized _
  get-IsSized get_deptree query s = json_reply-IsSized _
  get-IsSized get_log query s =
      answer-IsSized (path_answer w.file (log_path w.unquote w.abspath (bst_logs w) query s.state))
  get-IsSized get_page query s =
      sized_reply-IsSized 200 (codes "text/html; charset=utf-8") (encode w.page)

  -- Every reply to a GET says in its header how many bytes it has.
  pub do_get-IsSized : (q : Incoming) (s : Server) → IsSized (do_get w q s).0
  unfolding do_get
  do_get-IsSized q s = get-IsSized (get_route (norm_path q.target).0) (norm_path q.target).1 s

  -- The state without what is added to the jobs from their logs.
  abbrev pub bare_state : State → State
  bare_state s = record s { active = bare_jobs s.active }

  abbrev pub is_idle : Tree → Bool
  is_idle idle = true
  is_idle loading = false
  is_idle (ready nodes) = false
  is_idle (failed_tree message) = false

  -- All is kept but the progress of the jobs, and at most one fetch is asked for, of an idle tree.
  abbrev pub Keeps : Server → Server → Type 0
  Keeps s t =
      (t.runner ≡ s.runner)
      × (bare_state t.state ≡ bare_state s.state)
      × ((t.fetching ≡ s.fetching)
          ⊎ ((is_idle s.fetching.tree ≡ true) × (t.fetching ≡ ask s.fetching)))

  if_idle-Keeps :
      (t : Tree) (f : Fetching)
      → (if_idle w t f ≡ f) ⊎ ((is_idle t ≡ true) × (if_idle w t f ≡ ask f))
  if_idle-Keeps idle f = inr (refl, refl)
  if_idle-Keeps loading f = inl refl
  if_idle-Keeps (ready nodes) f = inl refl
  if_idle-Keeps (failed_tree message) f = inl refl

  get-Keeps : (g : Get) (query : Text) (s : Server) → Keeps s (get w g query s).1
  get-Keeps get_state query s =
      (refl, ap (λ l. record s.state { active = l }) (enrich_cmake-bare _ s.state.active), inl refl)
  get-Keeps get_deptree query s = (refl, refl, if_idle-Keeps s.fetching.tree s.fetching)
  get-Keeps get_log query s = (refl, refl, inl refl)
  get-Keeps get_page query s = (refl, refl, inl refl)

  -- A GET leaves the build and the state as they were but for the progress that is added to active
  -- jobs from their logs, and asks for no fetch, or for one of an idle tree.
  pub do_get-Keeps : (q : Incoming) (s : Server) → Keeps s (do_get w q s).1
  unfolding do_get
  do_get-Keeps q s = get-Keeps (get_route (norm_path q.target).0) (norm_path q.target).1 s
