-- ===== src/Filemap/Contents.antt =====
-- scripts/gen-filemap.py: `guess_interval`, `list_elements` and `list_all_contents`, of what the
-- commands of `bst` print.
use xfce_linux.Base.{
  ℕ, Bool, ◌||◌, not, Option, none, some, List, [], ◌∷◌, ◌++◌, Text, codes, is_empty, contains_text,
  starts_with, ends_with, rstrip, strip, drop_while_end, split_words, split_lines, text_eq, keep,
  map, ◌==◌, if◌then◌else◌,
}
use xfce_linux.Regex.{Regex, sat, star, chr, ◌▸◌, sub_all, is_digit, is_lower, is_upper}

abbrev pub is_param : ℕ → Bool
is_param c = is_digit c || c == b';'

abbrev pub is_letter : ℕ → Bool
is_letter c = is_lower c || is_upper c

-- `_ANSI_ESCAPE`
unfoldable pub ansi_escape : Regex
ansi_escape = chr 0x1b ▸ chr b'[' ▸ star (sat is_param) ▸ sat is_letter

unfoldable pub strip_ansi : Text → Text
unfolding sub_all ansi_escape
strip_ansi s = sub_all ansi_escape [] s

-- `INTERVAL_HINTS`
abbrev pub interval_hints : List (Text × Text)
interval_hints =
    (codes "xfce-linux/", codes "weekly")
    ∷ (codes "gnome/", codes "monthly")
    ∷ (codes "freedesktop-sdk", codes "monthly")
    ∷ []

abbrev pub first_hint : Text → List (Text × Text) → Text
first_hint element [] = codes "monthly"
first_hint element ((hint, interval) ∷ hints) =
    let rest = first_hint element hints in if contains_text element hint then interval else rest

abbrev pub guess_interval : Text → Text
guess_interval element = first_hint element interval_hints

-- `list_elements`, of what `bst show` prints
unfoldable pub list_elements : Text → List Text
list_elements out =
    keep (λ e. ends_with e (codes ".bst")) (map (λ l. strip (strip_ansi l)) (split_lines out))

-- The dict of the files by their elements, in the order of insertion.
abbrev pub Contents : Type 0
Contents = List (Text × List Text)

-- `result[current].append(path)`
abbrev pub append_file : Text → Text → Contents → Contents
append_file e f [] = (e, f ∷ []) ∷ []
append_file e f ((d, fs) ∷ c) =
    if text_eq d e then (d, fs ++ f ∷ []) ∷ c else (d, fs) ∷ append_file e f c

-- The file that the parts of an indented line name, if they name one.
abbrev pub file_of : List Text → Option Text
file_of (mode ∷ ftype ∷ size ∷ path ∷ more) =
    if text_eq ftype (codes "dir") then none else some (codes "/" ++ path)
file_of (a ∷ b ∷ c ∷ []) = none
file_of (a ∷ b ∷ []) = none
file_of (a ∷ []) = none
file_of [] = none

abbrev pub add_entry : Text → Option Text → Contents → Contents
add_entry e none c = c
add_entry e (some f) c = append_file e f c

abbrev pub is_colon : ℕ → Bool
is_colon c = c == b':'

-- `line.strip().rstrip(":")`
abbrev pub header_of : Text → Text
header_of line = drop_while_end is_colon (strip line)

-- `current` and `result`
pub record Reader : Type 0 where
  pub current : Option Text
  pub result : Contents

abbrev pub read_entry : Option Text → Text → Contents → Contents
read_entry none line c = c
read_entry (some e) line c = add_entry e (file_of (split_words line)) c

-- The body of the loop.
unfoldable pub read_line : Text → Reader → Reader
read_line raw r =
    let line = rstrip raw in
    if is_empty line
    then r
    else if not (starts_with line (codes "\t"))
    then record r { current = some (header_of line) }
    else record r { result = read_entry r.current line r.result }

abbrev pub read_lines : List Text → Reader → Reader
read_lines [] r = r
read_lines (l ∷ ls) r = read_lines ls (read_line l r)

-- `list_all_contents`, of what `bst artifact list-contents` prints
unfoldable pub list_all_contents : Text → Contents
list_all_contents out =
    (read_lines (map strip_ansi (split_lines out)) (record { current = none; result = [] })).result
