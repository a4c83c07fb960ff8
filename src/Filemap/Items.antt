-- ===== src/Filemap/Items.antt =====
-- scripts/gen-filemap.py: `list_all_contents` on the lines of a whole listing.
use xfce_linux.Base.{
  ◌≡◌, refl, ap, sym, ◌∙◌, append_assoc, append-nil, Bool, false, ◌||◌, some, none, List, [], ◌∷◌,
  ◌++◌, Text, codes, map, text_eq, text_eq_self, All, arith, Bool-cases, inl, inr,
}
use xfce_linux.Filemap.Contents.{Contents, append_file, add_entry, Reader, read_line, read_lines}
use xfce_linux.Filemap.Listing.{
  Listed, Items, file_line, item_lines, listing_lines, claimed, with_files, contents_after,
  IsListed, IsElement, wanted, read_line-file, read_line-header, read_line-empty,
}

abbrev pub has_element : Text → Contents → Bool
has_element e [] = false
has_element e ((d, fs) ∷ c) = text_eq d e || has_element e c

append_file-new :
    (e f : Text) (c : Contents)
    → has_element e c ≡ false
    → append_file e f c ≡ c ++ (e, f ∷ []) ∷ []
append_file-new e f [] h = refl
append_file-new e f ((d, fs) ∷ c) h =
    let k : text_eq d e ≡ false = ground arith in
    let l : has_element e c ≡ false = ground arith in
    rw k (ap (λ x. (d, fs) ∷ x) (append_file-new e f c l))

append_file-last :
    (e f : Text) (fs : List Text) (c : Contents)
    → has_element e c ≡ false
    → append_file e f (c ++ (e, fs) ∷ []) ≡ c ++ (e, fs ++ f ∷ []) ∷ []
append_file-last e f fs [] h = rw (text_eq_self e) refl
append_file-last e f fs ((d, gs) ∷ c) h =
    let k : text_eq d e ≡ false = ground arith in
    let l : has_element e c ≡ false = ground arith in
    rw k (ap (λ x. (d, gs) ∷ x) (append_file-last e f fs c l))

append_file-with_files :
    (e f : Text) (fs : List Text) (c : Contents)
    → has_element e c ≡ false
    → append_file e f (with_files e fs c) ≡ with_files e (fs ++ f ∷ []) c
append_file-with_files e f [] c h = append_file-new e f c h
append_file-with_files e f (g ∷ fs) c h = append_file-last e f (g ∷ fs) c h

add_entry-claimed :
    (e : Text) (f : Listed) (acc : List Text) (c : Contents)
    → has_element e c ≡ false
    → add_entry e (wanted f) (with_files e acc c) ≡ with_files e (acc ++ claimed (f ∷ [])) c
add_entry-claimed e f acc c h = elim (Bool-cases (text_eq f.ftype (codes "dir"))) [
  | inl k ↦ rw k (ap (λ a. with_files e a c) (sym (append-nil acc)))
  | inr k ↦ rw k (append_file-with_files e (codes "/" ++ f.path) acc c h)
]

claimed-cons : (f : Listed) (fs : List Listed) → claimed (f ∷ fs) ≡ claimed (f ∷ []) ++ claimed fs
claimed-cons f fs = elim (Bool-cases (text_eq f.ftype (codes "dir"))) [
  | inl k ↦ rw k refl
  | inr k ↦ rw k refl
]

read_lines-append :
    (xs ys : List Text) (r : Reader) → read_lines (xs ++ ys) r ≡ read_lines ys (read_lines xs r)
read_lines-append [] ys r = refl
read_lines-append (x ∷ xs) ys r = read_lines-append xs ys (read_line x r)

abbrev reader : Text → Contents → Reader
reader e c = record { current = some e; result = c }

read_lines-files :
    (e : Text) (fs : List Listed) (acc : List Text) (c : Contents)
    → has_element e c ≡ false
    → All IsListed fs
    → read_lines (map file_line fs) (reader e (with_files e acc c))
      ≡ reader e (with_files e (acc ++ claimed fs) c)
read_lines-files e [] acc c h hs = ap (λ a. reader e (with_files e a c)) (sym (append-nil acc))
read_lines-files e (f ∷ fs) acc c h (k, hs) =
    ap (read_lines (map file_line fs))
      (read_line-file e (with_files e acc c) f k ∙ ap (reader e) (add_entry-claimed e f acc c h))
    ∙ read_lines-files e fs (acc ++ claimed (f ∷ [])) c h hs
    ∙ ap (λ a. reader e (with_files e a c))
        (append_assoc acc (claimed (f ∷ [])) (claimed fs)
          ∙ ap (λ l. acc ++ l) (sym (claimed-cons f fs)))

read_lines-item :
    (e : Text) (fs : List Listed) (r : Reader)
    → IsElement e
    → has_element e r.result ≡ false
    → All IsListed fs
    → read_lines (item_lines e fs) r ≡ reader e (with_files e (claimed fs) r.result)
read_lines-item e fs r h n hs =
    ap (read_lines (map file_line fs ++ [] ∷ [])) (read_line-header e r h)
    ∙ read_lines-append (map file_line fs) ([] ∷ []) (reader e r.result)
    ∙ ap (read_lines ([] ∷ [])) (read_lines-files e fs [] r.result n hs)
    ∙ read_line-empty (reader e (with_files e (claimed fs) r.result))

-- The elements have names, none of an element with files before, and well made files.
abbrev pub AreItems : Contents → Items → Type 0
AreItems c [] = Unit
AreItems c ((e, fs) ∷ items) =
    IsElement e
    × (has_element e c ≡ false)
    × All IsListed fs
    × AreItems (with_files e (claimed fs) c) items

listing_lines-result :
    (items : Items) (r : Reader)
    → AreItems r.result items
    → (read_lines (listing_lines items) r).result ≡ contents_after r.result items
listing_lines-result [] r h = refl
listing_lines-result ((e, fs) ∷ items) r (h, n, hs, k) =
    ap (λ x. x.result) (read_lines-append (item_lines e fs) (listing_lines items) r)
    ∙ ap (λ x. (read_lines (listing_lines items) x).result) (read_lines-item e fs r h n hs)
    ∙ listing_lines-result items (reader e (with_files e (claimed fs) r.result)) k

-- Of the lines of a listing, whose elements differ and whose fields have no white space, the reader
-- makes each element's paths without the directories, in their order, and no entry for an element
-- with none.
pub listing_lines-contents :
    (items : Items)
    → AreItems [] items
    → (read_lines (listing_lines items) (record { current = none; result = [] })).result
      ≡ contents_after [] items
listing_lines-contents items h = listing_lines-result items _ h
