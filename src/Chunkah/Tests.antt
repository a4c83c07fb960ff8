-- ===== src/Chunkah/Tests.antt =====
-- scripts: the map of a small image, generated and applied.
use xfce_linux.Base.{
  ◌+◌, ◌≡◌, refl, false, true, some, Option, List, [], ◌∷◌, ◌++◌, Text, codes, pos, text_eq,
  if◌then◌else◌, json_plain, none,
}
use xfce_linux.Regex.{sub_all, exec}
use xfce_linux.Filemap.Contents.{list_all_contents, read_line, strip_ansi, ansi_escape}
use xfce_linux.Filemap.Build.{build_filemap, total_files}
use xfce_linux.Filemap.Main.{Ran, run_raised, run_ended, output, gen_filemap, bst, failed_1}
use xfce_linux.Xattrs.{Info, Disk, Run, component, update_interval, write_of}
use xfce_linux.Xattrs.Main.{applied, usage, summary, apply_main}
use xfce_linux.Chunkah.{infos_of, baked, apply_main-gen_filemap}

abbrev listing : Text
listing = codes "gnome/a.bst:\n\t-rwxr-xr-x  exe  12  usr/bin/a\n\tdrwxr-xr-x  dir  0  usr\n"

-- The commands of bst.
abbrev commands : List Text → Ran
commands (a ∷ b ∷ c ∷ cs) =
    run_ended (pos 0) (if text_eq c (codes "show") then codes "gnome/a.bst\n" else listing) []
commands (a ∷ b ∷ []) = run_raised
commands (a ∷ []) = run_raised
commands [] = run_raised

abbrev loads : Text → Option (List Info)
loads text = some (infos_of (build_filemap (list_all_contents listing)))

abbrev disk : Disk
disk = record { present = λ t. true; refuses = λ t n. false }

apply_main-gen_filemap_example :
    (r : Run) × (apply_main
        (baked
          (codes "files")
          (codes "/mnt")
          (gen_filemap (codes "files") commands false (codes "t.bst")))
        loads
        disk
        (codes "apply" ∷ codes "/mnt" ∷ [])
      ≡ applied r (summary r))
    × (r.writes
        ≡ write_of (codes "/mnt/usr/bin/a") component (codes "gnome/a.bst")
          ∷ write_of (codes "/mnt/usr/bin/a") update_interval (codes "monthly")
          ∷ [])
    × (r.err ≡ 0)
    × (r.ok + r.skip ≡ 1)
unfolding list_all_contents read_line strip_ansi sub_all exec ansi_escape build_filemap total_files
apply_main-gen_filemap_example =
    apply_main-gen_filemap commands (codes "files") (codes "t.bst") (codes "gnome/a.bst\n") listing
      [] [] refl refl loads disk (codes "apply") (codes "/mnt") refl (λ t n. refl)

printed :
    output (build_filemap (list_all_contents listing))
    ≡ codes "{\n  \"gnome/a.bst\": {\n    \"interval\": \"monthly\",\n    \"files\": [\n"
      ++ codes "      \"/usr/bin/a\"\n    ]\n  }\n}\n"
unfolding output json_plain list_all_contents read_line strip_ansi sub_all exec ansi_escape
    build_filemap
printed = refl

stopped_by_bst :
    gen_filemap
      (codes "files")
      (λ cmd. run_ended (pos 2) [] (codes " no project \n"))
      false
      (codes "t.bst")
    ≡ record {
      exit = failed_1;
      stdout = [];
      stderr =
          codes "ERROR: just bst show --format %{name} --deps run t.bst\n" ++ codes "no project\n";
      written = [];
    }
unfolding gen_filemap bst
stopped_by_bst = refl

no_arguments :
    apply_main (λ p. none) loads disk (codes "apply" ∷ [])
    ≡ usage (codes "usage: apply <rootfs> [filemap.json]\n")
unfolding apply_main
no_arguments = refl
