-- ===== src/Chunkah.antt =====
-- scripts/gen-filemap.py and scripts/apply-xattrs.py together: the map that the first writes, baked
-- into the image, is the map that the second applies.
use xfce_linux.Base.{
  ℕ, zero, suc, ◌+◌, ◌≡◌, refl, ap, sym, ◌∙◌, Bool, true, false, Option, none, some, List, [], ◌∷◌,
  ◌++◌, Text, codes, text_eq, text_eq_self, pos, length, if◌then◌else◌, arith,
}
use xfce_linux.Filemap.Contents.{list_elements, list_all_contents}
use xfce_linux.Filemap.Build.{Entry, build_filemap, total_files, manifest}
use xfce_linux.Filemap.Sort.{sum_of}
use xfce_linux.Filemap.Entries.{count_files, build_filemap-IsSorted}
use xfce_linux.Filemap.Main.{
  Ran, run_ended, Called, call_returned, bst, called, show_args, contents_args, output, Made,
  finish_map, gen_filemap, output_path, manifest_path, after_show, after_contents, found_line,
  query_line,
}
use xfce_linux.Xattrs.{Info, Disk, Run, Write, apply_xattrs}
use xfce_linux.Xattrs.Main.{Applied, applied, summary, map_path, with_map, with_text, apply_main}
use xfce_linux.Xattrs.Counts.{
  files_of, asked_writes, apply_xattrs-asked_writes, apply_xattrs-IsCounted,
}
pub mod Tests

-- An entry as `json.loads` gives it back.
abbrev pub info_of : Entry → Info
info_of d = record { element = d.element; files = d.files; interval = some d.interval }

abbrev pub infos_of : List Entry → List Info
infos_of [] = []
infos_of (d ∷ ds) = info_of d ∷ infos_of ds

files_of-infos_of : (ds : List Entry) → files_of (infos_of ds) ≡ count_files ds
files_of-infos_of [] = refl
files_of-infos_of (d ∷ ds) = ap (λ n. length d.files + n) (files_of-infos_of ds)

abbrev find_text : Text → List (Text × Text) → Option Text
find_text k [] = none
find_text k ((j, v) ∷ l) = if text_eq j k then some v else find_text k l

-- The image has the written map, and it alone.
abbrev pub baked : Text → Text → Made → Text → Option Text
baked files_dir rootfs made path =
    if text_eq path (map_path rootfs [])
    then find_text (output_path files_dir) made.written
    else none

baked-written :
    (files_dir rootfs : Text) (made : Made) (text : Text) (more : List (Text × Text))
    → made.written ≡ (output_path files_dir, text) ∷ more
    → baked files_dir rootfs made (map_path rootfs []) ≡ some text
baked-written files_dir rootfs made text more e =
    rw (text_eq_self (map_path rootfs [])) (rw e (rw (text_eq_self (output_path files_dir)) refl))

abbrev pub just : List Text → List Text
just args = codes "just" ∷ codes "bst" ∷ args

module _ (run : List Text → Ran) (files_dir target show_out list_out show_err list_err : Text)
    (shown : run (just (show_args target)) ≡ run_ended (pos 0) show_out show_err)
    (listed : run (just (contents_args (list_elements show_out)))
      ≡ run_ended (pos 0) list_out list_err) where
  abbrev filemap : List Entry
  filemap = build_filemap (list_all_contents list_out)

  gen_filemap-written :
      (gen_filemap files_dir run false target).written
      ≡ (output_path files_dir, output filemap) ∷ (manifest_path files_dir, manifest filemap) ∷ []
  unfolding gen_filemap bst finish_map
  gen_filemap-written =
      ap (λ r. (after_show files_dir run false (called (just (show_args target)) r)).written) shown
      ∙ ap
          (λ r.
            (after_contents files_dir false
              (found_line (list_elements show_out) ++ query_line (list_elements show_out))
              (called (just (contents_args (list_elements show_out))) r)).written)
          listed

  module _ (loads : Text → Option (List Info)) (d : Disk) (name rootfs : Text)
      (read_back : loads (output filemap) ≡ some (infos_of filemap))
      (willing : (t n : Text) → d.refuses t n ≡ false) where
    abbrev pub image : Text → Option Text
    image = baked files_dir rootfs (gen_filemap files_dir run false target)

    apply_main-filemap :
        apply_main image loads d (name ∷ rootfs ∷ [])
        ≡ applied
            (apply_xattrs d rootfs (infos_of filemap))
            (summary (apply_xattrs d rootfs (infos_of filemap)))
    unfolding apply_main
    apply_main-filemap =
        ap (with_text image loads d rootfs) (
          baked-written files_dir rootfs (gen_filemap files_dir run false target) (output filemap) _
            gen_filemap-written)
        ∙ ap (with_map image loads d rootfs) read_back

    set_and_skipped :
        (r : Run) (n m : ℕ) → r.ok + r.skip + r.err ≡ n → r.err ≡ 0 → n ≡ m → r.ok + r.skip ≡ m
    set_and_skipped r n m h e k = omega (arith, h, e, k)

    -- If both commands of bst end with 0, and the map is parsed as it was printed, then on a disk that
    -- refuses nothing apply-xattrs, on the image with the map that gen-filemap wrote, makes the calls
    -- that this map asks for, without an error, and counts each of its files as set or skipped.
    pub apply_main-gen_filemap :
        (r : Run) × (apply_main image loads d (name ∷ rootfs ∷ []) ≡ applied r (summary r))
        × (r.writes ≡ asked_writes d rootfs (infos_of (build_filemap (list_all_contents list_out))))
        × (r.err ≡ 0)
        × (r.ok + r.skip ≡ total_files (list_all_contents list_out))
    apply_main-gen_filemap =
        let r = apply_xattrs d rootfs (infos_of filemap) in
        let (w, e) = apply_xattrs-asked_writes d rootfs willing (infos_of filemap) in
        let (sorted, entries, total) = build_filemap-IsSorted (list_all_contents list_out) in
        (
          r,
          apply_main-filemap,
          w,
          e,
          set_and_skipped r _ _ (apply_xattrs-IsCounted d rootfs (infos_of filemap)).0 e
              (files_of-infos_of filemap ∙ sym total),
        )
