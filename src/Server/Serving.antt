-- ===== src/Server/Serving.antt =====
-- tools/bst-dashboard.py: the logs that `/api/log` serves.
use xfce_linux.Base.{
  ◌≡◌, ◌⊎◌, refl, sym, subst, Option, none, some, [], ◌∷◌, Text, codes, ◌++◌, starts_with,
  starts_with-split, Bool-cases, inl, inr,
}
use xfce_linux.Dashboard.Types.{State, Job}
use xfce_linux.Dashboard.Updates.{get_job}
use xfce_linux.Server.Routes.{
  norm_path, get_log, get_route, file_answer, path_answer, log_path, by_path, log_of, param,
}
use xfce_linux.Server.Handler.{Incoming, Reply, Server, World, get, do_get, bst_logs, answer_reply}

module _ (w : World) where
  -- A path whose absolute form goes on from the text of the directory of the logs, with a separator or
  -- not, or the log of an active job.
  abbrev pub IsServed : Text → State → Type 0
  IsServed p s =
      ((rest : Text) × (w.abspath p ≡ bst_logs w ++ rest))
      ⊎ ((h : Text) × (j : Job) × (get_job h s.active ≡ some j) × (j.log ≡ p))

  log_of-IsServed :
      (h : Text) (o : Option Job) (p : Text) (s : State)
      → get_job h s.active ≡ o
      → log_of o ≡ some p
      → IsServed p s
  log_of-IsServed h none p s e k = absurd (cc)
  log_of-IsServed h (some j) p s e k = inr (h, j, e, cc)

  by_path-IsServed :
      (a b : Option Text) (p : Text) (s : State)
      → by_path w.unquote w.abspath (bst_logs w) a b s ≡ some p
      → IsServed p s
  by_path-IsServed (some c) b p s k =
      elim (Bool-cases (starts_with (w.abspath (w.unquote c)) (bst_logs w))) [
        | inl e ↦
            let q = rw e at k in
            let r : w.unquote c ≡ p = cc in
            inl (
              subst (λ x. (rest : Text) × (w.abspath x ≡ bst_logs w ++ rest)) r
                (starts_with-split (w.abspath (w.unquote c)) (bst_logs w) e))
        | inr e ↦ absurd (let q = rw e at k in cc)
      ]
  by_path-IsServed none none p s k = absurd (cc)
  by_path-IsServed none (some h) p s k = log_of-IsServed h (get_job h s.active) p s refl k

  log_path-IsServed :
      (query p : Text) (s : State)
      → log_path w.unquote w.abspath (bst_logs w) query s ≡ some p
      → IsServed p s
  unfolding log_path
  log_path-IsServed query p s k =
      by_path-IsServed (param (codes "path") query) (param (codes "hash") query) p s k

  -- Nothing is served, or the end of a file that may be.
  abbrev pub Serves : State → Reply → Type 0
  Serves s r =
      (r ≡ answer_reply w (record { status = 404; body = codes "Log not available" }))
      ⊎ ((p : Text) × IsServed p s × (r ≡ answer_reply w (file_answer (w.file p))))

  path_answer-Serves :
      (o : Option Text) (s : State)
      → ((p : Text) → o ≡ some p → IsServed p s)
      → Serves s (answer_reply w (path_answer w.file o))
  path_answer-Serves none s h = inl refl
  path_answer-Serves (some []) s h = inl refl
  path_answer-Serves (some (c ∷ p)) s h = inr (c ∷ p, h (c ∷ p) refl, refl)

  -- A GET of /api/log changes nothing. It answers 404, or the end of the file, or its error, at a
  -- path that is the log of an active job, or whose absolute form begins with the text of the
  -- directory of the logs: inside it, or in a sibling whose name only begins with its name.
  pub do_get-Serves :
      (q : Incoming) (s : Server)
      → get_route (norm_path q.target).0 ≡ get_log
      → Serves s.state (do_get w q s).0 × ((do_get w q s).1 ≡ s)
  unfolding do_get
  do_get-Serves q s e =
      subst
        (λ g.
          Serves s.state (get w g (norm_path q.target).1 s).0
          × ((get w g (norm_path q.target).1 s).1 ≡ s))
        (sym e)
        (
          path_answer-Serves _ s.state (λ p. log_path-IsServed (norm_path q.target).1 p s.state),
          refl,
        )
