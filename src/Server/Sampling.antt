-- ===== src/Server/Sampling.antt =====
-- tools/bst-dashboard.py: the loop of `_sysinfo_sampler`, one round for each set of readings.
use xfce_linux.Base.{
  ℕ, ◌<◌, ◌≡◌, ◌≢◌, subst, refl, ap, ◌∙◌, Bool, true, false, ◌||◌, not, Option, none, some, List,
  [], ◌∷◌, Text, is_empty, length, ◌==◌, if◌then◌else◌, ℤ, arith, Bool-cases, inl, inr,
}
use xfce_linux.Server.Proc.{read_proc_stat, read_proc_meminfo, difference}
use xfce_linux.Server.Temperature.{Chip, Zone, get_cpu_temp}
use xfce_linux.Server.Sampler.{Floats, container_id, container_stats, Sysinfo}
use xfce_linux.Server.Runner.{Config, Runner, launches, is_alive, build_running, start_build}

-- What a round finds: the lines of /proc/stat and, unless it raises, of /proc/meminfo, what the two
-- calls of `podman` print, and the directories of /sys.
pub record Readings : Type 0 where
  pub stat : List Text
  pub meminfo : Option (List Text)
  pub ps : Option Text
  pub stats : Option Text
  pub chips : Option (List Chip)
  pub zones : Option (List Zone)

abbrev no_ticks : List (ℕ × ℕ) → Bool
no_ticks [] = true
no_ticks (t ∷ ts) = false

module _ (fl : Floats) where
  -- `_cpu_prev` and `_sysinfo`
  pub record Sampler : Type 0 where
    pub prev : List (ℕ × ℕ)
    pub info : Sysinfo fl

  abbrev pub usage_of : ℕ × ℕ → ℕ × ℕ → fl.Float
  usage_of (idle, total) (prev_idle, prev_total) =
      if total == prev_total
      then fl.zero_float
      else fl.usage (difference idle prev_idle) (difference total prev_total)

  -- The loop over the processors.
  abbrev pub usages : List (ℕ × ℕ) → List (ℕ × ℕ) → List fl.Float
  usages [] prev = []
  usages (t ∷ ts) [] = []
  usages (t ∷ ts) (p ∷ ps) = usage_of t p ∷ usages ts ps

  abbrev pub publish : List fl.Float → Option (ℤ × ℕ) → Readings → Sysinfo fl → Sysinfo fl
  publish pcts none r info = info
  publish [] (some m) r info = info
  publish (total ∷ cores) (some (used, whole)) r info =
      let cid = container_id r.ps in
      let (cpu, mem) = container_stats fl cid r.stats in
      record {
        cpu_pct = total;
        cpu_cores = cores;
        mem_used = used;
        mem_total = whole;
        bst_cpu_pct = cpu;
        bst_mem = mem;
        cpu_temp = get_cpu_temp r.chips r.zones;
        bst_running = not (is_empty cid);
      }

  abbrev pub meminfo_of : Option (List Text) → Option (ℤ × ℕ)
  meminfo_of none = none
  meminfo_of (some lines) = read_proc_meminfo lines

  -- One round.
  unfoldable pub sample : Readings → Sampler → Sampler
  sample r s =
      let stats = read_proc_stat r.stat in
      if no_ticks s.prev || not (length s.prev == length stats)
      then record s { prev = stats }
      else record {
        prev = stats;
        info = publish (usages stats s.prev) (meminfo_of r.meminfo) r s.info;
      }

  -- The samples' view of the container reaches the control of the build.
  abbrev pub noticed : Sampler → Runner → Runner
  noticed s r = record r { bst_running = s.info.bst_running }

  -- The load of a processor between two readings of its idle and of all its ticks.
  pub data IsLoad : ℕ × ℕ → ℕ × ℕ → fl.Float → Type 0 where
    still : {i j n : ℕ} → IsLoad (i, n) (j, n) fl.zero_float
    moved :
        {i j m n : ℕ} → m ≢ n → IsLoad (i, m) (j, n) (fl.usage (difference i j) (difference m n))

  pub data AreLoads : List (ℕ × ℕ) → List (ℕ × ℕ) → List fl.Float → Type 0 where
    no_loads : AreLoads [] [] []
    load_of :
        {t p : ℕ × ℕ} {x : fl.Float} {ts ps : List (ℕ × ℕ)} {xs : List fl.Float}
        → IsLoad t p x
        → AreLoads ts ps xs
        → AreLoads (t ∷ ts) (p ∷ ps) (x ∷ xs)

  usage_of-IsLoad : (i m j n : ℕ) → IsLoad (i, m) (j, n) (usage_of (i, m) (j, n))
  usage_of-IsLoad i m j n = elim (Bool-cases (m == n)) [
    | inl e ↦
        rw e (
          subst (λ k. IsLoad (i, m) (j, k) fl.zero_float) (let p : m ≡ n = ground arith in p) still)
    | inr e ↦ rw e (moved (let p : m ≢ n = λ q. ground arith in p))
  ]

  usages-AreLoads : (ts ps : List (ℕ × ℕ)) → length ts ≡ length ps → AreLoads ts ps (usages ts ps)
  usages-AreLoads [] [] h = no_loads
  usages-AreLoads [] (p ∷ ps) h = absurd (omega arith)
  usages-AreLoads (t ∷ ts) [] h = absurd (omega arith)
  usages-AreLoads ((i, m) ∷ ts) ((j, n) ∷ ps) h =
      load_of (usage_of-IsLoad i m j n) (usages-AreLoads ts ps (omega (arith, h)))

  -- What a round publishes after readings of the processors, with its own, its memory and its
  -- container.
  abbrev pub IsFresh : List (ℕ × ℕ) → List (ℕ × ℕ) → ℤ → ℕ → Readings → Sysinfo fl → Type 0
  IsFresh ts ps u t r info =
      AreLoads ts ps (info.cpu_pct ∷ info.cpu_cores)
      × (info.bst_running ≡ not (is_empty (container_id r.ps)))
      × (info.mem_used ≡ u)
      × (info.mem_total ≡ t)

  publish-IsFresh :
      (ts ps : List (ℕ × ℕ)) (u : ℤ) (t : ℕ) (r : Readings) (info : Sysinfo fl)
      → length ts ≡ length ps
      → 0 < length ps
      → IsFresh ts ps u t r (publish (usages ts ps) (some (u, t)) r info)
  publish-IsFresh [] [] u t r info h k = absurd (omega arith)
  publish-IsFresh [] (p ∷ ps) u t r info h k = absurd (omega arith)
  publish-IsFresh (x ∷ ts) [] u t r info h k = absurd (omega arith)
  publish-IsFresh (x ∷ ts) (p ∷ ps) u t r info h k =
      (usages-AreLoads (x ∷ ts) (p ∷ ps) h, refl, refl, refl)

  has_ticks : (ps : List (ℕ × ℕ)) → 0 < length ps → no_ticks ps ≡ false
  has_ticks [] h = absurd (omega arith)
  has_ticks (p ∷ ps) h = refl

  same_length : (m n : ℕ) → m ≡ n → (n == m) ≡ true
  same_length m n h = ground arith

  -- A round keeps its readings of the processors for the next.
  sample-prev : (r : Readings) (s : Sampler) → (sample r s).prev ≡ read_proc_stat r.stat
  unfolding sample
  sample-prev r s =
      let first = no_ticks s.prev || not (length s.prev == length (read_proc_stat r.stat)) in
      elim (Bool-cases first) [ inl e ↦ rw e refl | inr e ↦ rw e refl ]

  sample-IsFresh :
      (r : Readings) (s : Sampler) (ps : List (ℕ × ℕ)) (u : ℤ) (t : ℕ)
      → s.prev ≡ ps
      → length (read_proc_stat r.stat) ≡ length ps
      → 0 < length ps
      → meminfo_of r.meminfo ≡ some (u, t)
      → IsFresh (read_proc_stat r.stat) ps u t r (sample r s).info
  unfolding sample
  sample-IsFresh r s ps u t p h k e =
      rw (p, has_ticks ps k)
        (rw (same_length (length (read_proc_stat r.stat)) (length ps) h)
          (rw e (publish-IsFresh (read_proc_stat r.stat) ps u t r s.info h k)))

  accepts :
      (c : Config) (now : Text) (r : Runner)
      → (start_build c now launches r).1 ≡ some (not (build_running r))
  unfolding start_build
  accepts c now r = elim (Bool-cases (build_running r)) [ inl e ↦ rw e refl | inr e ↦ rw e refl ]

  -- After two rounds, whatever was before, that read as many processors, one at least, and the
  -- memory in the second, there is a load for each of them, of its ticks between the two readings
  -- and zero where it had none, with the memory; and a start whose calls go well is only accepted if
  -- podman named no container in the second round and no process of the server runs.
  pub sample-sample :
      (c : Config) (now : Text) (b : Runner) (q r : Readings) (s : Sampler) (u : ℤ) (t : ℕ)
      → length (read_proc_stat r.stat) ≡ length (read_proc_stat q.stat)
      → 0 < length (read_proc_stat q.stat)
      → meminfo_of r.meminfo ≡ some (u, t)
      → IsFresh (read_proc_stat r.stat) (read_proc_stat q.stat) u t r (sample r (sample q s)).info
        × ((start_build c now launches (noticed (sample r (sample q s)) b)).1
            ≡ some (not (is_alive b.proc || not (is_empty (container_id r.ps)))))
  sample-sample c now b q r s u t h k e =
      let f = sample-IsFresh r (sample q s) _ u t (sample-prev q s) h k e in
      (
        f,
        accepts c now (noticed (sample r (sample q s)) b)
            ∙ ap (λ x. some (not (is_alive b.proc || x))) f.1,
      )
