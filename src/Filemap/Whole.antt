-- ===== src/Filemap/Whole.antt =====
-- scripts/gen-filemap.py: `list_all_contents` of the whole text that bst prints.
use xfce_linux.Base.{
  any-append_false, ℕ, ◌≡◌, refl, ap, ◌∙◌, false, none, List, [], ◌∷◌, Text, any, All, arith, map,
  IsLine, is_line_end, is_space, unlines, split_lines-unlines, subst, All-append, sym,
}
use xfce_linux.Regex.Pieces.{Piece, render, text_of}
use xfce_linux.Filemap.Contents.{strip_ansi, list_all_contents, read_lines, Contents}
use xfce_linux.Filemap.Words.{IsWord}
use xfce_linux.Filemap.Listing.{
  Listed, Items, file_line, item_lines, listing_lines, IsListed, contents_after, two_spaces,
  with_files, claimed,
}
use xfce_linux.Filemap.Items.{AreItems, listing_lines-contents}
use xfce_linux.Filemap.Colours.{IsColoured, strip_ansi-render, render-IsLine}

no_space-no_end : (c : ℕ) → is_space c ≡ false → is_line_end c ≡ false
no_space-no_end c h = ground arith

word-IsLine : (w : Text) → any is_space w ≡ false → IsLine w
word-IsLine [] h = refl
word-IsLine (c ∷ w) h = ground (arith, no_space-no_end c, word-IsLine w)

two_spaces-IsLine : (w s : Text) → IsWord w → IsLine s → IsLine (two_spaces w s)
two_spaces-IsLine w s h k =
    any-append_false is_line_end w (b' ' ∷ b' ' ∷ s) (word-IsLine w h.no_space) k

file_line-IsLine : (f : Listed) → IsListed f → IsLine (file_line f)
file_line-IsLine f h = two_spaces-IsLine f.mode _ h.mode (
    two_spaces-IsLine f.ftype _ h.ftype
      (two_spaces-IsLine f.size _ h.size (word-IsLine f.path h.path.no_space)))

files-IsLine : (fs : List Listed) → All IsListed fs → All IsLine (map file_line fs)
files-IsLine [] h = tt
files-IsLine (f ∷ fs) (h, hs) = (file_line-IsLine f h, files-IsLine fs hs)

listing_lines-IsLine :
    (c : Contents) (items : Items) → AreItems c items → All IsLine (listing_lines items)
listing_lines-IsLine c [] h = tt
listing_lines-IsLine c ((e, fs) ∷ items) (h, n, hs, k) =
    All-append IsLine (item_lines e fs) (listing_lines items)
      (
        any-append_false is_line_end e (b':' ∷ []) (word-IsLine e h.word.no_space) refl,
        All-append IsLine (map file_line fs) ([] ∷ []) (files-IsLine fs hs) (refl, tt),
      )
      (listing_lines-IsLine (with_files e (claimed fs) c) items k)

lines-IsLine :
    (rows : List (List Piece))
    → All (All IsColoured) rows
    → All IsLine (map text_of rows)
    → All IsLine (map render rows)
lines-IsLine [] h k = tt
lines-IsLine (r ∷ rows) (h, hs) (k, ks) = (render-IsLine r h k, lines-IsLine rows hs ks)

strip_rows :
    (rows : List (List Piece))
    → All (All IsColoured) rows
    → map strip_ansi (map render rows) ≡ map text_of rows
strip_rows [] h = refl
strip_rows (r ∷ rows) (h, hs) =
    ap (λ l. l ∷ map strip_ansi (map render rows)) (strip_ansi-render r h)
    ∙ ap (λ ls. text_of r ∷ ls) (strip_rows rows hs)

-- The text that bst prints for a listing, whatever colours stand in its lines, gives each element's
-- paths.
pub list_all_contents-render :
    (items : Items) (rows : List (List Piece))
    → AreItems [] items
    → All (All IsColoured) rows
    → map text_of rows ≡ listing_lines items
    → list_all_contents (unlines (map render rows)) ≡ contents_after [] items
unfolding list_all_contents
list_all_contents-render items rows h k e =
    let lines = subst (λ ls. All IsLine ls) (sym e) (listing_lines-IsLine [] items h) in
    ap (λ ls. (read_lines (map strip_ansi ls) (record { current = none; result = [] })).result)
      (split_lines-unlines (map render rows) (lines-IsLine rows k lines))
    ∙ ap (λ ls. (read_lines ls (record { current = none; result = [] })).result)
        (strip_rows rows k ∙ e)
    ∙ listing_lines-contents items h
