-- ===== src/Luks/Command.antt =====
-- xfce-linux/src/luks-unlock.py: `main`, over the three modes.
use xfce_linux.Base.{List, [], ◌∷◌, Text, codes, text_eq, if◌then◌else◌}
use xfce_linux.Luks.Exits.{Exit, exited}

-- The three functions that `main` calls, by how they end.
pub record Modes : Type 0 where
  pub run_libvirt : Text → Text → Text → Exit
  pub run_qemu : Text → Text → Text → Exit
  pub run_wait_live : Text → Text → Exit

abbrev pub with_three : (Text → Text → Text → Exit) → List Text → Exit
with_three run (a ∷ b ∷ c ∷ more) = run a b c
with_three run (a ∷ b ∷ []) = exited 1
with_three run (a ∷ []) = exited 1
with_three run [] = exited 1

abbrev pub with_two : (Text → Text → Exit) → List Text → Exit
with_two run (a ∷ b ∷ more) = run a b
with_two run (a ∷ []) = exited 1
with_two run [] = exited 1

-- `main`, of the arguments after the name of the program.
unfoldable pub main : Modes → List Text → Exit
main m [] = exited 1
main m (mode ∷ args) =
    if text_eq mode (codes "libvirt")
    then with_three m.run_libvirt args
    else if text_eq mode (codes "qemu")
    then with_three m.run_qemu args
    else if text_eq mode (codes "wait-live")
    then with_two m.run_wait_live args
    else exited 1
