-- ===== src/Filemap/Build.antt =====
-- scripts/gen-filemap.py: `main`, from the contents to the map and to the manifest.
use xfce_linux.Base.{
  ℕ, ◌+◌, Bool, List, [], ◌∷◌, ◌++◌, Text, codes, starts_with, any, join, map, length,
  if◌then◌else◌,
}
use xfce_linux.Filemap.Sort.{sort}
use xfce_linux.Filemap.Contents.{Contents, guess_interval}

pub record Entry : Type 0 where
  pub element : Text
  pub interval : Text
  pub files : List Text

-- `SKIP_PREFIXES`
abbrev pub skip_prefixes : List Text
skip_prefixes = codes "oci/layers/" ∷ []

abbrev pub is_skipped : Text → Bool
is_skipped element = any (starts_with element) skip_prefixes

abbrev pub same : Text → Text
same s = s

abbrev pub item_element : Text × List Text → Text
item_element (e, fs) = e

abbrev pub entry_for : Text → List Text → Entry
entry_for e fs = record { element = e; interval = guess_interval e; files = sort same fs }

-- The loop over the sorted items; an element with no files, or a layer, is left out.
abbrev pub entries : Contents → List Entry
entries [] = []
entries ((e, []) ∷ c) = entries c
entries ((e, f ∷ fs) ∷ c) =
    let rest = entries c in if is_skipped e then rest else entry_for e (f ∷ fs) ∷ rest

unfoldable pub build_filemap : Contents → List Entry
build_filemap c = entries (sort item_element c)

abbrev pub total_of : Contents → ℕ
total_of [] = 0
total_of ((e, []) ∷ c) = total_of c
total_of ((e, f ∷ fs) ∷ c) =
    let rest = total_of c in if is_skipped e then rest else length (f ∷ fs) + rest

-- `total_files`
unfoldable pub total_files : Contents → ℕ
total_files c = total_of (sort item_element c)

abbrev pub manifest_line : Text → Text → Text → Text
manifest_line element interval file = file ++ codes "\t" ++ element ++ codes "\t" ++ interval

abbrev pub entry_lines : List Entry → List Text
entry_lines [] = []
entry_lines (d ∷ ds) = map (manifest_line d.element d.interval) d.files ++ entry_lines ds

abbrev pub entry_element : Entry → Text
entry_element d = d.element

-- `manifest_lines`, sorted
unfoldable pub manifest_lines : List Entry → List Text
manifest_lines filemap = sort same (entry_lines (sort entry_element filemap))

abbrev pub manifest_header : Text
manifest_header = codes "# fakecap component manifest: path\tcomponent\tinterval\n"

-- `manifest`
unfoldable pub manifest : List Entry → Text
manifest filemap = manifest_header ++ join (codes "\n") (manifest_lines filemap) ++ codes "\n"
