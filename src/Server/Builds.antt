-- ===== src/Server/Builds.antt =====
-- tools/bst-dashboard.py: starts and stops of the build.
use xfce_linux.Base.{
  ℕ, suc, ◌+◌, ◌≡◌, refl, sym, subst, ap, ◌∙◌, take, Option, none, some, List, Bool, true, false,
  ◌||◌, ◌&&◌, not, if◌then◌else◌, [], ◌∷◌, ◌++◌, Text, is_empty, Bool-cases, inl, inr, arith,
}
use xfce_linux.Server.Runner.{
  Config, Runner, Launch, no_log, cut_header, no_process, launches, launched, is_alive,
  build_running, start_line, build_command, start_build, stop_build,
}

-- Starts one after the other, each at a date and with its calls.
abbrev pub starts : Config → List (Text × Launch) → Runner → Runner
starts c [] r = r
starts c ((now, l) ∷ ls) r = starts c ls (start_build c now l r).0

abbrev pub answers : Config → List (Text × Launch) → Runner → List (Option Bool)
answers c [] r = []
answers c ((now, l) ∷ ls) r = let (r', a) = start_build c now l r in a ∷ answers c ls r'

-- The date of the first start whose calls all go well.
abbrev pub first_launch : List (Text × Launch) → Option Text
first_launch [] = none
first_launch ((now, launches) ∷ ls) = some now
first_launch ((now, no_log) ∷ ls) = first_launch ls
first_launch ((now, no_process) ∷ ls) = first_launch ls
first_launch ((now, cut_header n) ∷ ls) = first_launch ls

-- The number of the answers that are true.
abbrev pub accepted : List (Option Bool) → ℕ
accepted [] = 0
accepted (none ∷ given) = accepted given
accepted (some false ∷ given) = accepted given
accepted (some true ∷ given) = suc (accepted given)

-- What starts make of a server: without a launch they give no command, and with a first one of this
-- date they give one in all, which runs.
abbrev pub AreStarts : Config → Runner → Option Text → Runner → ℕ → Type 0
AreStarts c r none t n = (t.commands ≡ r.commands) × (build_running t ≡ false) × (n ≡ 0)
AreStarts c r (some now) t n =
    (t.commands ≡ r.commands ++ build_command c ∷ [])
    × (build_running t ≡ true)
    × (n ≡ 1)
    × (t.log ≡ start_line now)

running-starts :
    (c : Config) (ls : List (Text × Launch)) (r : Runner)
    → build_running r ≡ true
    → (starts c ls r ≡ r) × (accepted (answers c ls r) ≡ 0)
unfolding start_build
running-starts c [] r e = (refl, refl)
running-starts c ((now, l) ∷ ls) r e = rw e (running-starts c ls r e)

kept :
    (c : Config) (r s t : Runner) (given : ℕ) (first : Option Text)
    → s.commands ≡ r.commands
    → AreStarts c s first t given
    → AreStarts c r first t given
kept c r s t given none e (k, b, n) = (k ∙ e, b, n)
kept c r s t given (some now) e (k, b, n, l) =
    (k ∙ ap (λ cs. cs ++ build_command c ∷ []) e, b, n, l)

begun :
    (c : Config) (now : Text) (l : Launch) (r : Runner)
    → build_running r ≡ false
    → start_build c now l r ≡ launched c now l r
unfolding start_build
begun c now l r e = rw e refl

launched-starts :
    (c : Config) (ls : List (Text × Launch)) (now : Text) (r : Runner)
    → AreStarts c r
        (some now)
        (starts c ls (launched c now launches r).0)
        (suc (accepted (answers c ls (launched c now launches r).0)))
launched-starts c ls now r =
    let s = (launched c now launches r).0 in
    let (same, zero_more) = running-starts c ls s refl in
    (ap (λ t. t.commands) same, ap build_running same, ap suc zero_more, ap (λ t. t.log) same)

-- Where no build runs, of any number of starts, in each of which a call may raise, the first whose
-- calls go well gives the only command and the only answer that is true, and its build runs
-- afterwards with the date of that start in the log; if there is none, no command is given and no
-- build runs.
pub starts-first_launch :
    (c : Config) (ls : List (Text × Launch)) (r : Runner)
    → build_running r ≡ false
    → AreStarts c r (first_launch ls) (starts c ls r) (accepted (answers c ls r))
unfolding start_build
starts-first_launch c [] r e = (refl, e, refl)
starts-first_launch c ((now, no_log) ∷ ls) r e = rw e (starts-first_launch c ls r e)
starts-first_launch c ((now, cut_header n) ∷ ls) r e =
    let s = record r { log = take n (start_line now) } in
    rw e (kept c r s _ _ (first_launch ls) refl (starts-first_launch c ls s e))
starts-first_launch c ((now, no_process) ∷ ls) r e =
    let s = record r { log = start_line now } in
    rw e (kept c r s _ _ (first_launch ls) refl (starts-first_launch c ls s e))
starts-first_launch c ((now, launches) ∷ ls) r e =
    subst (λ (t, a). AreStarts c r (some now) (starts c ls t) (accepted (a ∷ answers c ls t)))
      (sym (begun c now launches r e)) (launched-starts c ls now r)

-- A stop signals the process if it runs, stops the container if there is one, and answers whether it
-- did one of them.
pub stop_build-terminate :
    (cid : Text) (stops : Bool) (r : Runner)
    → ((stop_build cid stops r).0.terminated
        ≡ (if is_alive r.proc then r.terminated + 1 else r.terminated))
      × ((stop_build cid stops r).0.stopped
          ≡ (if is_empty cid then r.stopped else r.stopped ++ cid ∷ []))
      × ((stop_build cid stops r).1 ≡ (is_alive r.proc || (not (is_empty cid) && stops)))
      × ((stop_build cid stops r).0.commands ≡ r.commands)
unfolding stop_build
stop_build-terminate cid stops r = elim (Bool-cases (is_alive r.proc)) [
  | inl e ↦ elim (Bool-cases (is_empty cid)) [
    | inl f ↦ rw (e, f) (refl, refl, refl, refl)
    | inr f ↦ rw (e, f) (refl, refl, ground arith, refl)
  ]
  | inr e ↦ elim (Bool-cases (is_empty cid)) [
    | inl f ↦ rw (e, f) (refl, refl, refl, refl)
    | inr f ↦ rw (e, f) (refl, refl, ground arith, refl)
  ]
]
