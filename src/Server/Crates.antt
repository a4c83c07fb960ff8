-- ===== src/Server/Crates.antt =====
-- tools/bst-dashboard.py: the count of the lines of cargo.
use xfce_linux.Base.{
  ◌≡◌, ◌≤◌, refl, Bool, ◌==◌, ◌⊎◌, inl, inr, some, Text, length, arith, Bool-cases,
}
use xfce_linux.Regex.{find_all}
use xfce_linux.Regex.Anchored.{find_all-anchored}
use xfce_linux.Dashboard.Types.{Job}
use xfce_linux.Dashboard.Patterns.{rust_compile_re}
use xfce_linux.Server.Enrich.{with_rust}

few_lines : (tail : Text) → length (find_all rust_compile_re tail) ≤ 1
unfolding rust_compile_re
few_lines tail = find_all-anchored _ tail

-- The end of a log changes nothing of what a job has of cargo, or gives it a count of 1,
-- however many lines it has.
pub with_rust-find_all :
    (tail : Text) (j : Job)
    → ((with_rust tail j).rust ≡ j.rust) ⊎ ((b : Bool) × ((with_rust tail j).rust ≡ some (1, b)))
unfolding with_rust
with_rust-find_all tail j =
    let n = length (find_all rust_compile_re tail) in
    elim (Bool-cases (n == 0)) [
      | inl e ↦ rw e (inl refl)
      | inr e ↦ let l = few_lines tail in let p : n ≡ 1 = ground arith in rw p (inr (_, refl))
    ]
