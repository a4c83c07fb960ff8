-- ===== src/Server/Steps.antt =====
-- tools/bst-dashboard.py: the server while its threads take turns: requests, the fetches of the
-- dependency tree, `tail_log`, the sampler, and the end of the build process.
use xfce_linux.Base.{ℕ, ◌≡◌, Bool, false, Option, none, some, List, [], ◌∷◌, Text, Bytes}
use xfce_linux.Dashboard.Types.{State}
use xfce_linux.Dashboard.Parse.{Outside, parse_line, reset_state}
use xfce_linux.Dashboard.Invariant.Steps.{IsConsistent}
use xfce_linux.Server.Tail.{Tail, poll}
use xfce_linux.Server.Fetching.{Turn, turn, IsSingle}
use xfce_linux.Server.Handler.{Incoming, Server, World, do_get, do_post}
use xfce_linux.Server.Sampler.{Floats}
use xfce_linux.Server.Sampling.{Readings, Sampler, sample, noticed}

module _ (fl : Floats) where
  -- The process: what requests see, `buf` and `pos` of `tail_log`, and the sampler.
  pub record Process : Type 0 where
    pub server : Server
    pub buf : Text
    pub pos : ℕ
    pub sampler : Sampler fl

  -- What happens next. A turn of `tail_log` has the file, whether it can be read, its time, and what
  -- the parser reads of the world at each line.
  pub data Event : Type 0 where
    gets posts : World → Incoming → Event
    polls : (State → Text → Outside) → Option Bytes → Bool → Option ℕ → Event
    samples : Readings → Event
    fetches : World → Turn → Event
    exits : Event

  abbrev pub tail_of : Process → Tail
  tail_of p = record { buf = p.buf; pos = p.pos; state = p.server.state }

  abbrev pub with_tail : Tail → Process → Process
  with_tail t p = record p {
    server = record p.server { state = t.state };
    buf = t.buf;
    pos = t.pos;
  }

  abbrev pub with_sampler : Sampler fl → Process → Process
  with_sampler a p = record p {
    sampler = a;
    server = record p.server { runner = noticed fl a p.server.runner };
  }

  abbrev pub ended : Option Bool → Option Bool
  ended none = none
  ended (some b) = some false

  unfoldable pub step : Event → Process → Process
  step (gets w q) p = record p { server = (do_get w q p.server).1 }
  step (posts w q) p = record p { server = (do_post w q p.server).1 }
  step (polls o file readable mtime) p =
      with_tail (poll (λ l s. parse_line (o s l) l s) reset_state file readable mtime (tail_of p)) p
  step (samples r) p = with_sampler (sample fl r p.sampler) p
  step (fetches w t) p = record p {
    server = record p.server { fetching = turn w.config t p.server.fetching };
  }
  step exits p = record p {
    server = record p.server {
      runner = record p.server.runner { proc = ended p.server.runner.proc };
    };
  }

  abbrev pub steps : List Event → Process → Process
  steps [] p = p
  steps (e ∷ es) p = steps es (step e p)

  -- The build state is consistent, a command lists the tree exactly while it is loading, and the
  -- control of the build knows of containers what the sampler does.
  pub record IsSound (p : Process) : Type 0 where
    pub consistent : IsConsistent p.server.state
    pub single : IsSingle p.server.fetching
    pub informed : p.server.runner.bst_running ≡ p.sampler.info.bst_running
