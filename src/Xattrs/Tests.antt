-- ===== src/Xattrs/Tests.antt =====
-- scripts/apply-xattrs.py: a run over a map of two elements.
use xfce_linux.Base.{◌≡◌, refl, not, none, some, List, [], ◌∷◌, codes, contains_text}
use xfce_linux.Xattrs.{
  Info, Disk, component, update_interval, write_of, apply_xattrs, apply_all, apply_files,
  apply_file,
}

abbrev stubborn : Disk
stubborn = record {
  present = λ t. not (contains_text t (codes "gone"));
  refuses = λ t n. contains_text t (codes "etc");
}

abbrev infos : List Info
infos =
    record {
      element = codes "gnome/a.bst";
      files = codes "/usr/bin/a" ∷ codes "/gone" ∷ [];
      interval = none;
    }
    ∷ record {
      element = codes "b.bst";
      files = codes "/etc/b" ∷ [];
      interval = some (codes "monthly");
    }
    ∷ []

-- The second file is not there, and the third has no attributes.
applied : apply_xattrs stubborn (codes "/mnt") infos ≡ record {
  ok = 1;
  skip = 1;
  err = 1;
  writes =
      write_of (codes "/mnt/usr/bin/a") component (codes "gnome/a.bst")
      ∷ write_of (codes "/mnt/usr/bin/a") update_interval (codes "weekly")
      ∷ [];
  warned = codes "/mnt/etc/b" ∷ [];
}
unfolding apply_xattrs apply_all apply_files apply_file
applied = refl
