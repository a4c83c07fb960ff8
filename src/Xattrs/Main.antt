-- ===== src/Xattrs/Main.antt =====
-- scripts/apply-xattrs.py: `main`, from the arguments on. The reading of the map, `json.loads` and
-- the file system are arguments.
use xfce_linux.Base.{Option, none, some, List, [], ◌∷◌, ◌++◌, Text, codes, path_join, str}
use xfce_linux.Xattrs.{Info, Disk, Run, apply_xattrs}

-- How `main` ends: it returns this status after this line on the standard error, with the calls of a
-- run if there was one, or it raises.
pub data Applied : Type 0 where
  usage : Text → Applied
  applied : Run → Text → Applied
  raised : Applied

abbrev usage_line : Text → Text
usage_line name = codes "usage: " ++ name ++ codes " <rootfs> [filemap.json]\n"

abbrev pub summary : Run → Text
summary r =
    codes "set "
    ++ str r.ok
    ++ codes " xattrs, skipped "
    ++ str r.skip
    ++ codes ", errors "
    ++ str r.err
    ++ codes "\n"

-- `filemap_path`
abbrev pub map_path : Text → List Text → Text
map_path rootfs [] = path_join rootfs (codes "usr/lib/chunkah/filemap.json")
map_path rootfs (path ∷ more) = path

module _ (read_text : Text → Option Text) (loads : Text → Option (List Info)) (d : Disk) where
  abbrev pub with_map : Text → Option (List Info) → Applied
  with_map rootfs none = raised
  with_map rootfs (some filemap) = let r = apply_xattrs d rootfs filemap in applied r (summary r)

  abbrev pub with_text : Text → Option Text → Applied
  with_text rootfs none = raised
  with_text rootfs (some text) = with_map rootfs (loads text)

  -- `main`, of `sys.argv`
  unfoldable pub apply_main : List Text → Applied
  apply_main [] = raised
  apply_main (name ∷ []) = usage (usage_line name)
  apply_main (name ∷ rootfs ∷ more) = with_text rootfs (read_text (map_path rootfs more))
