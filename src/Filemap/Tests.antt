-- ===== src/Filemap/Tests.antt =====
-- scripts/gen-filemap.py: the map of a small listing.
use xfce_linux.Base.{◌≡◌, refl, List, [], ◌∷◌, ◌++◌, Text, codes, All, map, unlines}
use xfce_linux.Regex.{sub_all, exec}
use xfce_linux.Filemap.Sort.{IsSorted}
use xfce_linux.Filemap.Contents.{
  Contents, strip_ansi, read_line, list_all_contents, list_elements, ansi_escape,
}
use xfce_linux.Filemap.Build.{build_filemap, total_files, manifest, manifest_lines, entry_element}
use xfce_linux.Filemap.Entries.{
  claims, count_files, IsEntry, build_filemap-claims, build_filemap-IsSorted,
}
use xfce_linux.Filemap.Listing.{Listed, Items, file_line, IsListed, IsElement}
use xfce_linux.Filemap.Items.{AreItems}
use xfce_linux.Filemap.Whole.{list_all_contents-render}
use xfce_linux.Filemap.Colours.{strip_ansi-scan}
use xfce_linux.Regex.Escapes.{scan, step}
use xfce_linux.Regex.Pieces.{Piece, chars, code, render}

abbrev listing : Text
listing =
    codes "\u{1b}[32mgnome/b.bst:\u{1b}[0m\n\t-rw-r--r--  exe  12  usr/bin/z\n"
    ++ codes "\tdrwxr-xr-x  dir  0  usr/bin\n\t-rw-r--r--  reg  12  usr/bin/a\n\n"
    ++ codes
        "a.bst:\n\tlrwxrwxrwx  link  0  etc/x -> y\noci/layers/l.bst:\n\t-rw-r--r--  reg  1  all\n"

abbrev contents : Contents
contents =
    (codes "gnome/b.bst", codes "/usr/bin/z" ∷ codes "/usr/bin/a" ∷ [])
    ∷ (codes "a.bst", codes "/etc/x" ∷ [])
    ∷ (codes "oci/layers/l.bst", codes "/all" ∷ [])
    ∷ []

listing_read : list_all_contents listing ≡ contents
unfolding list_all_contents read_line strip_ansi sub_all exec ansi_escape
listing_read = refl

elements_read :
    list_elements (codes "\u{1b}[1ma.bst\u{1b}[0m \nvalue\n b.bst\n")
    ≡ codes "a.bst" ∷ codes "b.bst" ∷ []
unfolding list_elements strip_ansi sub_all exec ansi_escape
elements_read = refl

manifest_of_contents :
    manifest (build_filemap contents)
    ≡ codes "# fakecap component manifest: path\tcomponent\tinterval\n"
      ++ codes "/etc/x\ta.bst\tmonthly\n/usr/bin/a\tgnome/b.bst\tmonthly\n"
      ++ codes "/usr/bin/z\tgnome/b.bst\tmonthly\n"
unfolding manifest manifest_lines build_filemap
manifest_of_contents = refl

build_filemap-claims_example :
    claims (codes "gnome/b.bst") (codes "/usr/bin/a") (build_filemap contents) ≡ 1
build_filemap-claims_example =
    build_filemap-claims (codes "gnome/b.bst") (codes "/usr/bin/a") contents

build_filemap-IsSorted_example :
    IsSorted entry_element (build_filemap contents)
    × All IsEntry (build_filemap contents)
    × (total_files contents ≡ count_files (build_filemap contents))
build_filemap-IsSorted_example = build_filemap-IsSorted contents

abbrev program : Listed
program = record {
  mode = codes "-rwxr-xr-x";
  ftype = codes "exe";
  size = codes "32003936";
  path = codes "usr/bin/ghostty";
}

abbrev folder : Listed
folder = record {
  mode = codes "drwxr-xr-x";
  ftype = codes "dir";
  size = codes "0";
  path = codes "usr/bin";
}

program-IsListed : IsListed program
program-IsListed = record {
  mode = record { no_space = refl; some_char = refl };
  ftype = record { no_space = refl; some_char = refl };
  size = record { no_space = refl; some_char = refl };
  path = record { no_space = refl; some_char = refl };
}

folder-IsListed : IsListed folder
folder-IsListed = record {
  mode = record { no_space = refl; some_char = refl };
  ftype = record { no_space = refl; some_char = refl };
  size = record { no_space = refl; some_char = refl };
  path = record { no_space = refl; some_char = refl };
}

a-IsElement : IsElement (codes "a.bst")
a-IsElement = record { word = record { no_space = refl; some_char = refl }; no_colon = refl }

b-IsElement : IsElement (codes "b.bst")
b-IsElement = record { word = record { no_space = refl; some_char = refl }; no_colon = refl }

abbrev items : Items
items = (codes "b.bst", folder ∷ program ∷ []) ∷ (codes "a.bst", folder ∷ []) ∷ []

items-AreItems : AreItems [] items
items-AreItems = (
  b-IsElement,
  refl,
  (folder-IsListed, (program-IsListed, tt)),
  (a-IsElement, refl, (folder-IsListed, tt), tt),
)

abbrev as_is : Text → List Piece
as_is l = chars l ∷ []

-- The lines of the listing, the first name in green.
abbrev rows : List (List Piece)
rows =
    (code (codes "32") b'm' ∷ chars (codes "b.bst:") ∷ code [] b'm' ∷ [])
    ∷ as_is (file_line folder)
    ∷ as_is (file_line program)
    ∷ []
    ∷ as_is (codes "a.bst:")
    ∷ as_is (file_line folder)
    ∷ []
    ∷ []

list_all_contents-render_example :
    list_all_contents (unlines (map render rows))
    ≡ (codes "b.bst", codes "/usr/bin/ghostty" ∷ []) ∷ []
list_all_contents-render_example =
    list_all_contents-render items rows items-AreItems
      (
        ((refl, refl, refl), (refl, ((refl, refl, refl), tt))),
        ((refl, tt), ((refl, tt), (tt, ((refl, tt), ((refl, tt), (tt, tt)))))),
      )
      refl

strip_ansi-scan_example :
    strip_ansi (codes "\u{1b}[1;2~\u{1b}[32ma\u{1b}[") ≡ codes "\u{1b}[1;2~a\u{1b}["
unfolding scan step
strip_ansi-scan_example = strip_ansi-scan (codes "\u{1b}[1;2~\u{1b}[32ma\u{1b}[")
