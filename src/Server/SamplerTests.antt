-- ===== src/Server/SamplerTests.antt =====
-- tools/bst-dashboard.py: two rounds of the sampler.
use xfce_linux.Base.{
  ◌≡◌, refl, false, none, some, [], ◌∷◌, codes, pos, ◌*◌, digits_value, before_first, ℤ, negsuc,
  arith,
}
use xfce_linux.Server.Proc.{read_proc_stat, read_proc_meminfo}
use xfce_linux.Server.Sampler.{Floats, container_stats}
use xfce_linux.Server.Sampling.{Readings, Sampler, sample, noticed, IsFresh, sample-sample}
use xfce_linux.Server.Runner.{launches, start_build}
use xfce_linux.Server.Tests.{config, at_rest}

-- Whole numbers in place of floats.
abbrev pub wholes : Floats
wholes = record {
  Float = ℤ;
  parse = λ s. some (pos (digits_value 0 (before_first b'.' s)));
  times = λ x n. elim x [ pos m ↦ some (pos (m * n)) | negsuc m ↦ none ];
  usage = λ a b. a;
  zero_float = pos 0;
}

abbrev pub readings : Readings
readings = record {
  stat = codes "cpu  1 0 1 8 2 0 0" ∷ codes "cpu0 1 0 1 8 2 0 0" ∷ codes "intr 1" ∷ [];
  meminfo = some (codes "MemTotal: 100 kB" ∷ codes "MemAvailable: 40 kB" ∷ []);
  ps = some (codes "c0ffee\n");
  stats = some (codes "12%,3MiB / 31GiB\n");
  chips = none;
  zones = none;
}

abbrev pub before : Sampler wholes
before = record {
  prev = (9, 10) ∷ (9, 10) ∷ [];
  info = record {
    cpu_pct = pos 0;
    cpu_cores = [];
    mem_used = pos 0;
    mem_total = 0;
    bst_cpu_pct = none;
    bst_mem = none;
    cpu_temp = none;
    bst_running = false;
  };
}

stats_read :
    container_stats wholes (codes "c0ffee") (some (codes "12%,3MiB / 31GiB\n"))
    ≡ (some (pos 12), some (pos 3_145_728))
unfolding container_stats
stats_read = refl

-- The readings of the round before.
abbrev earlier : Readings
earlier = record readings {
  stat = codes "cpu  1 0 0 7 2 0 0" ∷ codes "cpu0 1 0 1 8 2 0 0" ∷ [];
  ps = none;
}

sample-sample_example :
    IsFresh wholes
      ((10, 12) ∷ (10, 12) ∷ [])
      ((9, 10) ∷ (10, 12) ∷ [])
      (pos 61_440)
      102_400
      readings
      (sample wholes readings (sample wholes earlier before)).info
    × ((start_build config
          (codes "now")
          launches
          (noticed wholes (sample wholes readings (sample wholes earlier before)) at_rest)).1
        ≡ some false)
unfolding read_proc_stat read_proc_meminfo
sample-sample_example =
    sample-sample wholes config (codes "now") at_rest earlier readings before (pos 61_440) 102_400
      refl (omega arith) refl
