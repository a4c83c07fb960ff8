-- ===== src/Filemap/Main.antt =====
-- scripts/gen-filemap.py: `bst` and `main` after the arguments. What the commands do is an argument.
use xfce_linux.Base.{
  zero, suc, ℤ, pos, negsuc, Bool, List, [], ◌∷◌, ◌++◌, Text, codes, join, strip, length, map, str,
  json_plain, json_lines, json_fields, if◌then◌else◌,
}
use xfce_linux.Filemap.Contents.{Contents, list_elements, list_all_contents}
use xfce_linux.Filemap.Build.{Entry, build_filemap, total_files, manifest}

-- How a command ends: `subprocess.run` raises, or it has a status, an output and errors.
pub data Ran : Type 0 where
  run_raised : Ran
  run_ended : ℤ → Text → Text → Ran

-- What `bst` does: it raises, it prints this error and exits with 1, or it returns the output.
pub data Called : Type 0 where
  call_raised : Called
  call_failed : Text → Called
  call_returned : Text → Called

abbrev error_of : List Text → Text → Text
error_of cmd errors =
    codes "ERROR: " ++ join (codes " ") cmd ++ codes "\n" ++ strip errors ++ codes "\n"

abbrev pub called : List Text → Ran → Called
called cmd run_raised = call_raised
called cmd (run_ended (pos zero) out errors) = call_returned out
called cmd (run_ended (pos (suc n)) out errors) = call_failed (error_of cmd errors)
called cmd (run_ended (negsuc n) out errors) = call_failed (error_of cmd errors)

-- `bst`
unfoldable pub bst : (List Text → Ran) → List Text → Called
bst run args = let cmd = codes "just" ∷ codes "bst" ∷ args in called cmd (run cmd)

abbrev pub show_args : Text → List Text
show_args target =
    codes "show" ∷ codes "--format" ∷ codes "%{name}" ∷ codes "--deps" ∷ codes "run" ∷ target ∷ []

abbrev pub contents_args : List Text → List Text
contents_args elements = codes "artifact" ∷ codes "list-contents" ∷ codes "--long" ∷ elements

-- `filemap`, as `json.dumps` writes it, and a line end
abbrev pub entry_field : Entry → Text × Text
entry_field d = (
  json_plain d.element,
  json_fields (codes "  ") (
      (json_plain (codes "interval"), json_plain d.interval)
      ∷ (json_plain (codes "files"), json_lines (codes "    ") (map json_plain d.files))
      ∷ []),
)

unfoldable pub output : List Entry → Text
output filemap = json_fields [] (map entry_field filemap) ++ codes "\n"

-- How `main` ends, with what it prints and the files that it writes.
pub data Exit : Type 0 where
  ended failed_1 raised : Exit

pub record Made : Type 0 where
  pub exit : Exit
  pub stdout : Text
  pub stderr : Text
  pub written : List (Text × Text)

abbrev stopped : Exit → Text → Made
stopped e err = record { exit = e; stdout = []; stderr = err; written = [] }

abbrev pub found_line : List Text → Text
found_line elements =
    codes "Found " ++ str (length elements) ++ codes " elements in dependency tree.\n"

abbrev pub query_line : List Text → Text
query_line elements =
    codes "Querying artifact contents for " ++ str (length elements) ++ codes " elements...\n"

abbrev pub built_line : Contents → Text
built_line contents =
    codes "Built filemap: "
    ++ str (length (build_filemap contents))
    ++ codes " components, "
    ++ str (total_files contents)
    ++ codes " files.\n"

-- `OUTPUT_PATH.parent`
module _ (files_dir : Text) where
  abbrev pub output_path : Text
  output_path = files_dir ++ codes "/filemap.json"

  abbrev pub manifest_path : Text
  manifest_path = files_dir ++ codes "/fakecap-manifest.tsv"

  abbrev written_line : Text → Text
  written_line path = codes "Written to " ++ path ++ codes "\n"

  -- The end of `main`, from the contents on.
  unfoldable pub finish_map : Bool → Text → Contents → Made
  finish_map dry_run err contents =
      let filemap = build_filemap contents in
      if dry_run
      then record {
        exit = ended;
        stdout = output filemap ++ codes "\n";
        stderr = err ++ built_line contents;
        written = [];
      }
      else record {
        exit = ended;
        stdout = [];
        stderr =
            err ++ built_line contents ++ written_line output_path ++ written_line manifest_path;
        written = (output_path, output filemap) ∷ (manifest_path, manifest filemap) ∷ [];
      }

  abbrev pub after_contents : Bool → Text → Called → Made
  after_contents dry_run err call_raised = stopped raised err
  after_contents dry_run err (call_failed error) = stopped failed_1 (err ++ error)
  after_contents dry_run err (call_returned out) = finish_map dry_run err (list_all_contents out)

  abbrev pub after_show : (List Text → Ran) → Bool → Called → Made
  after_show run dry_run call_raised = stopped raised []
  after_show run dry_run (call_failed error) = stopped failed_1 error
  after_show run dry_run (call_returned out) =
      let elements = list_elements out in
      after_contents dry_run (found_line elements ++ query_line elements)
        (bst run (contents_args elements))

  -- `main`
  unfoldable pub gen_filemap : (List Text → Ran) → Bool → Text → Made
  gen_filemap run dry_run target = after_show run dry_run (bst run (show_args target))
