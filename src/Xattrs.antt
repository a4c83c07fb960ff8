-- ===== src/Xattrs.antt =====
-- scripts/apply-xattrs.py: `main`, from the parsed map on. The file system is an argument.
use xfce_linux.Base.{
  ℕ, ◌+◌, Bool, true, false, not, Option, none, some, List, [], ◌∷◌, ◌++◌, Text, codes, drop_while,
  path_join, length, ◌==◌, leb, if◌then◌else◌,
}
pub mod Counts
pub mod Main
pub mod Tests

-- One entry of the map; a key that is missing gives no files, or no interval.
pub record Info : Type 0 where
  pub element : Text
  pub files : List Text
  pub interval : Option Text

-- Which targets are there, by `exists` or `is_symlink`, and which `os.setxattr` refuses with an
-- `OSError`, by the attribute.
pub record Disk : Type 0 where
  pub present : Text → Bool
  pub refuses : Text → Text → Bool

-- The calls of `os.setxattr` that succeed: target, attribute and value.
pub record Write : Type 0 where
  pub target : Text
  pub name : Text
  pub value : Text

-- `ok`, `skip`, `err`, the calls and the targets that were warned of.
pub record Run : Type 0 where
  pub ok : ℕ
  pub skip : ℕ
  pub err : ℕ
  pub writes : List Write
  pub warned : List Text

abbrev is_slash : ℕ → Bool
is_slash c = c == b'/'

-- `rootfs / file_path.lstrip("/")`
abbrev pub target_of : Text → Text → Text
target_of rootfs file = path_join rootfs (drop_while is_slash file)

abbrev pub interval_of : Option Text → Text
interval_of none = codes "weekly"
interval_of (some i) = i

abbrev pub component : Text
component = codes "user.component"

abbrev pub update_interval : Text
update_interval = codes "user.update-interval"

abbrev pub write_of : Text → Text → Text → Write
write_of target name value = record { target = target; name = name; value = value }

-- The `except` block.
abbrev pub failed : Text → Run → Run
failed target r = record r {
  err = r.err + 1;
  warned = if leb (r.err + 1) 5 then r.warned ++ target ∷ [] else r.warned;
}

-- One turn of the inner loop.
unfoldable pub apply_file : Disk → Text → Info → Text → Run → Run
apply_file d rootfs info file r =
    let target = target_of rootfs file in
    let first : Run = record r {
      writes = r.writes ++ write_of target component info.element ∷ [];
    } in
    let second : Run = record r {
      ok = r.ok + 1;
      writes =
          r.writes
          ++ write_of target component info.element
            ∷ write_of target update_interval (interval_of info.interval)
            ∷ [];
    } in
    if not (d.present target)
    then record r { skip = r.skip + 1 }
    else if d.refuses target component
    then failed target r
    else if d.refuses target update_interval
    then failed target first
    else second

unfoldable pub apply_files : Disk → Text → Info → List Text → Run → Run
apply_files d rootfs info [] r = r
apply_files d rootfs info (f ∷ fs) r = apply_files d rootfs info fs (apply_file d rootfs info f r)

unfoldable pub apply_all : Disk → Text → List Info → Run → Run
apply_all d rootfs [] r = r
apply_all d rootfs (info ∷ infos) r =
    apply_all d rootfs infos (apply_files d rootfs info info.files r)

-- The whole run.
unfoldable pub apply_xattrs : Disk → Text → List Info → Run
apply_xattrs d rootfs filemap =
    apply_all d rootfs filemap (record { ok = 0; skip = 0; err = 0; writes = []; warned = [] })
