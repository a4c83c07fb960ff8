-- ===== src/Server/StepTests.antt =====
-- tools/bst-dashboard.py: a server whose threads take turns.
use xfce_linux.Base.{refl, true, none, some, List, [], ◌∷◌, codes, encode, pos}
use xfce_linux.Dashboard.Types.{initial}
use xfce_linux.Dashboard.Invariant.Steps.{initial-IsConsistent}
use xfce_linux.Dashboard.Parse.{Outside}
use xfce_linux.Server.Deptree.{show_ended}
use xfce_linux.Server.Fetching.{begins, ends, at_start}
use xfce_linux.Server.Steps.{
  Process, Event, gets, posts, polls, samples, fetches, exits, steps, IsSound,
}
use xfce_linux.Server.Sound.{steps-IsSound}
use xfce_linux.Server.Tests.{at_rest}
use xfce_linux.Server.HandlerTests.{world, asking}
use xfce_linux.Server.SamplerTests.{wholes, readings, before}

abbrev outside : Outside
outside = record {
  now = 9_000_000;
  later = 9_000_001;
  timestamp = λ t. none;
  logs_dir = codes "/logs";
}

abbrev process : Process wholes
process = record {
  server = record { state = initial; runner = at_rest; fetching = at_start };
  buf = [];
  pos = 0;
  sampler = before;
}

-- The tree is asked for twice, and a build is started and ends.
abbrev events : List (Event wholes)
events =
    gets world (asking (codes "/api/deptree"))
    ∷ posts world (asking (codes "/api/deptree/refresh"))
    ∷ fetches world begins
    ∷ posts world (asking (codes "/api/start"))
    ∷ polls (λ s l. outside) (some (encode (codes "[--:--:--] START\n"))) true none
    ∷ samples readings
    ∷ fetches world begins
    ∷ gets world (asking (codes "/api/state"))
    ∷ fetches world (ends (show_ended (pos 0) [] []))
    ∷ exits
    ∷ []

steps-IsSound_example : IsSound wholes (steps wholes events process)
steps-IsSound_example =
    steps-IsSound wholes events process
      (record { consistent = initial-IsConsistent; single = refl; informed = refl })
