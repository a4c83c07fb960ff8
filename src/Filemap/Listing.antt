-- ===== src/Filemap/Listing.antt =====
-- scripts/gen-filemap.py: what `list_all_contents` reads of the lines that bst prints.
use xfce_linux.Base.{
  ℕ, ◌≡◌, refl, ap, ◌∙◌, false, not, Option, some, none, List, [], ◌∷◌, ◌++◌, Text, codes, map, any,
  text_eq, ◌==◌, is_empty, is_space, rstrip, drop_while, drop_while_end, split_words, starts_with,
  if◌then◌else◌, arith, or_left,
}
use xfce_linux.Filemap.Contents.{
  Contents, add_entry, file_of, is_colon, header_of, Reader, read_entry, read_line,
}
use xfce_linux.Filemap.Words.{
  IsWord, split_words-two_spaces, split_words-word, drop_while_end-word, drop_while_end-append,
  drop_while_end-last_char, append_some,
}

-- A file as bst lists it.
pub record Listed : Type 0 where
  pub mode : Text
  pub ftype : Text
  pub size : Text
  pub path : Text

abbrev pub two_spaces : Text → Text → Text
two_spaces w s = w ++ b' ' ∷ b' ' ∷ s

abbrev pub fields_of : Listed → Text
fields_of f = two_spaces f.mode (two_spaces f.ftype (two_spaces f.size f.path))

-- The lines of an element: its name with a colon, a line for each file, and an empty line.
abbrev pub file_line : Listed → Text
file_line f = 9 ∷ fields_of f

abbrev pub item_lines : Text → List Listed → List Text
item_lines e fs = (e ++ b':' ∷ []) ∷ (map file_line fs ++ [] ∷ [])

abbrev pub Items : Type 0
Items = List (Text × List Listed)

abbrev pub listing_lines : Items → List Text
listing_lines [] = []
listing_lines ((e, fs) ∷ items) = item_lines e fs ++ listing_lines items

-- The paths of the files that are no directories.
abbrev pub claimed : List Listed → List Text
claimed [] = []
claimed (f ∷ fs) =
    let rest = claimed fs in
    if text_eq f.ftype (codes "dir") then rest else (codes "/" ++ f.path) ∷ rest

abbrev pub with_files : Text → List Text → Contents → Contents
with_files e [] c = c
with_files e (f ∷ fs) c = c ++ (e, f ∷ fs) ∷ []

abbrev pub contents_after : Contents → Items → Contents
contents_after c [] = c
contents_after c ((e, fs) ∷ items) = contents_after (with_files e (claimed fs) c) items

pub record IsListed (f : Listed) : Type 0 where
  pub mode : IsWord f.mode
  pub ftype : IsWord f.ftype
  pub size : IsWord f.size
  pub path : IsWord f.path

-- The name of an element: a word that does not end in a colon.
pub record IsElement (e : Text) : Type 0 where
  pub word : IsWord e
  pub no_colon : drop_while_end is_colon e ≡ e

split_words-fields :
    (f : Listed) → IsListed f → split_words (file_line f) ≡ f.mode ∷ f.ftype ∷ f.size ∷ f.path ∷ []
split_words-fields f h =
    split_words-two_spaces f.mode (two_spaces f.ftype (two_spaces f.size f.path)) h.mode
    ∙ ap (λ l. f.mode ∷ l) (split_words-two_spaces f.ftype (two_spaces f.size f.path) h.ftype)
    ∙ ap (λ l. f.mode ∷ f.ftype ∷ l) (split_words-two_spaces f.size f.path h.size)
    ∙ ap (λ l. f.mode ∷ f.ftype ∷ f.size ∷ l) (split_words-word f.path h.path)

-- A text that does not end in white space.
record IsClosed (s : Text) : Type 0 where
  same : drop_while_end is_space s ≡ s
  some_char : is_empty s ≡ false

word-IsClosed : (w : Text) → IsWord w → IsClosed w
word-IsClosed w h = record { same = drop_while_end-word w h.no_space; some_char = h.some_char }

append-IsClosed : (a s : Text) → IsClosed s → IsClosed (a ++ s)
append-IsClosed a s h = record {
  same = drop_while_end-append is_space a s h.same h.some_char;
  some_char = append_some a s h.some_char;
}

two_spaces-IsClosed : (w s : Text) → IsClosed s → IsClosed (two_spaces w s)
two_spaces-IsClosed w s h =
    append-IsClosed w (b' ' ∷ b' ' ∷ s) (append-IsClosed (b' ' ∷ b' ' ∷ []) s h)

file_line-IsClosed : (f : Listed) → IsListed f → IsClosed (file_line f)
file_line-IsClosed f h = append-IsClosed (9 ∷ []) (fields_of f) (
    two_spaces-IsClosed f.mode _
      (two_spaces-IsClosed f.ftype _ (two_spaces-IsClosed f.size _ (word-IsClosed f.path h.path))))

-- The body of the loop, of the line without the white space at its end.
abbrev line_step : Text → Reader → Reader
line_step line r =
    if is_empty line
    then r
    else if not (starts_with line (codes "\t"))
    then record r { current = some (header_of line) }
    else record r { result = read_entry r.current line r.result }

abbrev pub wanted : Listed → Option Text
wanted f = if text_eq f.ftype (codes "dir") then none else some (codes "/" ++ f.path)

pub read_line-file :
    (e : Text) (c : Contents) (f : Listed)
    → IsListed f
    → read_line (file_line f) (record { current = some e; result = c })
      ≡ record { current = some e; result = add_entry e (wanted f) c }
unfolding read_line
read_line-file e c f h =
    let p : rstrip (file_line f) ≡ file_line f = (file_line-IsClosed f h).same in
    ap (λ l. line_step l (record { current = some e; result = c })) p
    ∙ ap (λ ws. record { current = some e; result = add_entry e (file_of ws) c })
        (split_words-fields f h)

pub read_line-empty : (r : Reader) → read_line [] r ≡ r
unfolding read_line
read_line-empty r = refl

head_solid : (x : ℕ) (e : Text) → any is_space (x ∷ e) ≡ false → is_space x ≡ false
head_solid x e h = or_left (is_space x) (any is_space e) h

-- The first character of a word.
first_solid : (e : Text) → IsWord e → drop_while is_space (e ++ b':' ∷ []) ≡ e ++ b':' ∷ []
first_solid [] h = refl
first_solid (x ∷ e) h = rw (head_solid x e h.no_space) refl

header_of-element : (e : Text) → IsElement e → header_of (e ++ b':' ∷ []) ≡ e
header_of-element e h =
    let closed = append-IsClosed e (b':' ∷ []) (record { same = refl; some_char = refl }) in
    ap (λ s. drop_while_end is_colon (drop_while_end is_space s)) (first_solid e h.word)
    ∙ ap (drop_while_end is_colon) closed.same
    ∙ drop_while_end-last_char is_colon e b':' refl
    ∙ h.no_colon

no_tab : (x : ℕ) → is_space x ≡ false → (x == 9) ≡ false
no_tab x h = ground arith

header_no_tab : (e : Text) → IsWord e → starts_with (e ++ b':' ∷ []) (codes "\t") ≡ false
header_no_tab [] h = refl
header_no_tab (x ∷ e) h = rw (no_tab x (head_solid x e h.no_space)) refl

line_step-header :
    (l : Text) (r : Reader)
    → is_empty l ≡ false
    → starts_with l (codes "\t") ≡ false
    → line_step l r ≡ record r { current = some (header_of l) }
line_step-header l r h k = rw (h, k) refl

pub read_line-header :
    (e : Text) (r : Reader)
    → IsElement e
    → read_line (e ++ b':' ∷ []) r ≡ record r { current = some e }
unfolding read_line
read_line-header e r h =
    let closed = append-IsClosed e (b':' ∷ []) (record { same = refl; some_char = refl }) in
    ap (λ l. line_step l r) closed.same
    ∙ line_step-header (e ++ b':' ∷ []) r closed.some_char (header_no_tab e h.word)
    ∙ ap (λ n. record r { current = some n }) (header_of-element e h)
