-- ===== src/Server/Sound.antt =====
-- tools/bst-dashboard.py: what holds of the server however its threads take turns.
use xfce_linux.Base.{
  ℕ, ◌≡◌, refl, ◌∙◌, Bool, Option, List, [], ◌∷◌, Text, Bytes, is_empty, ltb, ◌&&◌, not, Bool-cases,
  inl, inr,
}
use xfce_linux.Dashboard.Types.{State, is_set}
use xfce_linux.Dashboard.Parse.{Outside, parse_line, reset_state}
use xfce_linux.Dashboard.Invariant.{parse_line-IsConsistent}
use xfce_linux.Dashboard.Invariant.Steps.{IsConsistent, update-IsConsistent, reset-IsConsistent}
use xfce_linux.Server.Runner.{
  Config, Runner, build_running, Launch, no_log, cut_header, no_process, launches, launched,
  start_build, stop_build, is_alive,
}
use xfce_linux.Server.Tail.{Tail, no_jobs, poll, done_catching_up}
use xfce_linux.Server.Deptree.{Tree, idle, loading, ready, failed_tree}
use xfce_linux.Server.Fetching.{Fetching, IsSingle, turn-IsSingle}
use xfce_linux.Server.Routes.{
  norm_path, Post, post_start, post_stop, post_refresh, post_unknown, post_route, Get, get_state,
  get_deptree, get_log, get_page, get_route,
}
use xfce_linux.Server.Handler.{
  Incoming, Server, World, get, do_get, post, do_post, enriched, if_idle, has_length,
}
use xfce_linux.Server.Sampler.{Floats}
use xfce_linux.Server.Steps.{
  Process, Event, gets, posts, polls, samples, fetches, exits, tail_of, step, steps, IsSound,
}
use xfce_linux.Server.Kept.{enriched-JobsFiled, poll-keeps}

done_catching_up-IsConsistent :
    (m : Option ℕ) (s : State) → IsConsistent s → IsConsistent (done_catching_up m s)
unfolding done_catching_up
done_catching_up-IsConsistent m s h =
    let last = no_jobs s.active && ltb 0 s.success_count && not (is_set s.build_end_ts) in
    elim (Bool-cases last) [ inl e ↦ rw e assumption | inr e ↦ rw e assumption ]

reset_state-IsConsistent : (s : State) → IsConsistent (reset_state s)
unfolding reset_state
reset_state-IsConsistent s = update-IsConsistent _ s (reset-IsConsistent s)

-- What a request keeps of the server, for a container that the sampler has or has not seen.
record IsKept (b : Bool) (s : Server) : Type 0 where
  consistent : IsConsistent s.state
  single : IsSingle s.fetching
  informed : s.runner.bst_running ≡ b

launched-informed :
    (c : Config) (now : Text) (l : Launch) (r : Runner)
    → (launched c now l r).0.bst_running ≡ r.bst_running
launched-informed c now no_log r = refl
launched-informed c now (cut_header n) r = refl
launched-informed c now no_process r = refl
launched-informed c now launches r = refl

start_build-informed :
    (c : Config) (now : Text) (l : Launch) (r : Runner)
    → (start_build c now l r).0.bst_running ≡ r.bst_running
unfolding start_build
start_build-informed c now l r = elim (Bool-cases (build_running r)) [
  | inl e ↦ rw e refl
  | inr e ↦ rw e (launched-informed c now l r)
]

stop_build-informed :
    (cid : Text) (stops : Bool) (r : Runner)
    → (stop_build cid stops r).0.bst_running ≡ r.bst_running
unfolding stop_build
stop_build-informed cid stops r = elim (Bool-cases (is_alive r.proc)) [
  | inl e ↦ elim (Bool-cases (is_empty cid)) [ inl f ↦ rw (e, f) refl | inr f ↦ rw (e, f) refl ]
  | inr e ↦ elim (Bool-cases (is_empty cid)) [ inl f ↦ rw (e, f) refl | inr f ↦ rw (e, f) refl ]
]

module _ (w : World) (b : Bool) where
  if_idle-IsSingle : (t : Tree) (f : Fetching) → IsSingle f → IsSingle (if_idle w t f)
  if_idle-IsSingle idle f h = h
  if_idle-IsSingle loading f h = h
  if_idle-IsSingle (ready nodes) f h = h
  if_idle-IsSingle (failed_tree message) f h = h

  enriched-IsConsistent : (s : State) → IsConsistent s → IsConsistent (enriched w s)
  enriched-IsConsistent s h = record {
    jobs = enriched-JobsFiled _ s.active h.jobs;
    successes = h.successes;
    counted = h.counted;
    recorded = h.recorded;
    distinct = h.distinct;
  }

  get-IsKept : (g : Get) (query : Text) (s : Server) → IsKept b s → IsKept b (get w g query s).1
  get-IsKept get_state query s h = record {
    consistent = enriched-IsConsistent s.state h.consistent;
    single = h.single;
    informed = h.informed;
  }
  get-IsKept get_deptree query s h = record {
    consistent = h.consistent;
    single = if_idle-IsSingle s.fetching.tree s.fetching h.single;
    informed = h.informed;
  }
  get-IsKept get_log query s h = h
  get-IsKept get_page query s h = h

  post-IsKept : (p : Post) (s : Server) → IsKept b s → IsKept b (post w p s).1
  post-IsKept post_start s h = record {
    consistent = h.consistent;
    single = h.single;
    informed = start_build-informed w.config w.date w.launch s.runner ∙ h.informed;
  }
  post-IsKept post_stop s h = record {
    consistent = h.consistent;
    single = h.single;
    informed = stop_build-informed w.cid w.stops s.runner ∙ h.informed;
  }
  post-IsKept post_refresh s h = record {
    consistent = h.consistent;
    single = h.single;
    informed = h.informed;
  }
  post-IsKept post_unknown s h = h

  do_post-IsKept : (q : Incoming) (s : Server) → IsKept b s → IsKept b (do_post w q s).1
  unfolding do_post
  do_post-IsKept q s h = elim (Bool-cases (has_length q.content_length)) [
    | inr e ↦ rw e h
    | inl e ↦ rw e (post-IsKept (post_route (norm_path q.target).0) s h)
  ]

module _ (fl : Floats) where
  kept : (p : Process fl) → IsSound fl p → IsKept p.sampler.info.bst_running p.server
  kept p h = record { consistent = h.consistent; single = h.single; informed = h.informed }

  sound :
      (p : Process fl) (s : Server)
      → IsKept p.sampler.info.bst_running s
      → IsSound fl (record p { server = s })
  sound p s h = record { consistent = h.consistent; single = h.single; informed = h.informed }

  polls-IsConsistent :
      (o : State → Text → Outside) (file : Option Bytes) (readable : Bool) (m : Option ℕ) (t : Tail)
      → IsConsistent t.state
      → IsConsistent (poll (λ l s. parse_line (o s l) l s) reset_state file readable m t).state
  polls-IsConsistent o file readable m t h =
      poll-keeps (λ l s. parse_line (o s l) l s) reset_state IsConsistent
        (λ l s k. parse_line-IsConsistent (o s l) l s k) (λ s k. reset_state-IsConsistent s)
        (λ n s k. update-IsConsistent _ s (done_catching_up-IsConsistent n s k)) file readable m t h

  step-IsSound : (e : Event fl) (p : Process fl) → IsSound fl p → IsSound fl (step fl e p)
  unfolding step do_get
  step-IsSound (gets w q) p h = sound p _ (
      get-IsKept w p.sampler.info.bst_running (get_route (norm_path q.target).0)
        (norm_path q.target).1 p.server (kept p h))
  step-IsSound (posts w q) p h =
      sound p _ (do_post-IsKept w p.sampler.info.bst_running q p.server (kept p h))
  step-IsSound (polls o file readable m) p h = record {
    consistent = polls-IsConsistent o file readable m (tail_of fl p) h.consistent;
    single = h.single;
    informed = h.informed;
  }
  step-IsSound (samples r) p h = record {
    consistent = h.consistent;
    single = h.single;
    informed = refl;
  }
  step-IsSound (fetches w t) p h = record {
    consistent = h.consistent;
    single = turn-IsSingle w.config t p.server.fetching h.single;
    informed = h.informed;
  }
  step-IsSound exits p h = record {
    consistent = h.consistent;
    single = h.single;
    informed = h.informed;
  }

  -- However requests, the fetches, the turns of `tail_log`, the rounds of the sampler and the end of
  -- the build process follow one another, the build state stays consistent, a command lists the
  -- dependency tree exactly while it is loading, and the control of the build knows of a container
  -- what the sampler found last.
  pub steps-IsSound :
      (es : List (Event fl)) (p : Process fl) → IsSound fl p → IsSound fl (steps fl es p)
  steps-IsSound [] p h = h
  steps-IsSound (e ∷ es) p h = steps-IsSound es (step fl e p) (step-IsSound e p h)
