-- ===== src/Server/Fetching.antt =====
-- tools/bst-dashboard.py: the threads that run `_fetch_deptree`. `_deptree_lock` makes its first step
-- and its last one step each; the command runs between them.
use xfce_linux.Base.{
  ℕ, zero, suc, pos, negsuc, Bool-cases, inl, inr, ◌+◌, ◌-◌, ◌≡◌, refl, Bool, true, false, Option,
  none, some, List, [], ◌∷◌, ◌++◌, Text, codes, ◌==◌, if◌then◌else◌, arith,
}
use xfce_linux.Server.Runner.{Config, container_args}
use xfce_linux.Server.Deptree.{
  Tree, idle, loading, ready, failed_tree, Shown, show_raised, show_ended, tree_of, begin_fetch,
}

-- The command that lists the elements with their dependencies.
abbrev pub show_command : Config → List Text
show_command c =
    container_args c
    ++ codes "bst"
      ∷ codes "show"
      ∷ codes "--deps"
      ∷ codes "all"
      ∷ codes "--format"
      ∷ codes "%{name}\t%{deps}\n"
      ∷ c.target
      ∷ []

-- `_deptree`, the threads that have not begun, the threads that run the command, and the commands.
pub record Fetching : Type 0 where
  pub tree : Tree
  pub asked : ℕ
  pub running : ℕ
  pub shows : List (List Text)

-- `threading.Thread(target=_fetch_deptree).start()`
abbrev pub ask : Fetching → Fetching
ask f = record f { asked = f.asked + 1 }

abbrev begun : Config → Fetching → Option Tree → Fetching
begun c f none = record f { asked = f.asked - 1 }
begun c f (some t) = record f {
  tree = t;
  asked = f.asked - 1;
  running = f.running + 1;
  shows = f.shows ++ show_command c ∷ [];
}

-- What the threads do: one begins, or the command of one ends like this.
pub data Turn : Type 0 where
  asks begins : Turn
  ends : Shown → Turn

unfoldable pub turn : Config → Turn → Fetching → Fetching
unfolding begin_fetch
turn c asks f = ask f
turn c begins f = if f.asked == 0 then f else begun c f (begin_fetch f.tree)
turn c (ends shown) f =
    if f.running == 0 then f else record f { tree = tree_of shown; running = f.running - 1 }

abbrev pub at_start : Fetching
at_start = record { tree = idle; asked = 0; running = 0; shows = [] }

abbrev pub is_loading : Tree → Bool
is_loading idle = false
is_loading loading = true
is_loading (ready nodes) = false
is_loading (failed_tree message) = false

-- One command runs if the tree is loading, and none otherwise.
abbrev pub IsSingle : Fetching → Type 0
IsSingle f = f.running ≡ (if is_loading f.tree then 1 else 0)

done_loading : (shown : Shown) → is_loading (tree_of shown) ≡ false
unfolding tree_of
done_loading (show_raised message) = refl
done_loading (show_ended (pos zero) out errors) = refl
done_loading (show_ended (pos (suc n)) out errors) = refl
done_loading (show_ended (negsuc n) out errors) = refl

begun-IsSingle :
    (c : Config) (f : Fetching) (t : Tree)
    → f.running ≡ (if is_loading t then 1 else 0)
    → f.tree ≡ t
    → IsSingle (begun c f (begin_fetch t))
unfolding begin_fetch
begun-IsSingle c f idle h e = omega arith
begun-IsSingle c f loading h e = rw e h
begun-IsSingle c f (ready nodes) h e = omega arith
begun-IsSingle c f (failed_tree message) h e = omega arith

alone : (b : Bool) (n : ℕ) → n ≡ (if b then 1 else 0) → n - 1 ≡ 0
alone b n h = ground arith

pub turn-IsSingle : (c : Config) (t : Turn) (f : Fetching) → IsSingle f → IsSingle (turn c t f)
unfolding turn
turn-IsSingle c asks f h = h
turn-IsSingle c begins f h = elim (Bool-cases (f.asked == 0)) [
  | inl e ↦ rw e h
  | inr e ↦ rw e (begun-IsSingle c f f.tree h refl)
]
turn-IsSingle c (ends shown) f h = elim (Bool-cases (f.running == 0)) [
  | inl e ↦ rw e h
  | inr e ↦ rw (e, done_loading shown) (alone (is_loading f.tree) f.running h)
]
