-- ===== src/Xattrs/Counts.antt =====
-- scripts/apply-xattrs.py: the counts of a run, and the attributes that it leaves.
use xfce_linux.Base.{
  ℕ, ◌+◌, ◌≡◌, refl, sym, ◌∙◌, ap, append_assoc, append-nil, true, false, List, [], ◌∷◌, ◌++◌, Text,
  length, length-append, leb, if◌then◌else◌, arith, Bool-cases, inl, inr, subst,
}
use xfce_linux.Xattrs.{
  Info, Disk, Write, Run, target_of, interval_of, component, update_interval, write_of, apply_file,
  apply_files, apply_all, apply_xattrs,
}

abbrev pub files_of : List Info → ℕ
files_of [] = 0
files_of (i ∷ is) = length i.files + files_of is

-- What the counts of a run say.
abbrev counted : Run → ℕ
counted r = r.ok + r.skip + r.err

record IsCounted (n : ℕ) (r : Run) : Type 0 where
  files : counted r ≡ n
  warnings : length r.warned ≡ (if leb r.err 5 then r.err else 5)

module _ (d : Disk) (rootfs : Text) where
  apply_file-IsCounted :
      (i : Info) (f : Text) (n : ℕ) (r : Run)
      → IsCounted n r
      → IsCounted (n + 1) (apply_file d rootfs i f r)
  unfolding apply_file
  apply_file-IsCounted i f n r h =
      let a = h.files in
      let w = h.warnings in
      let x = length-append r.warned (target_of rootfs f ∷ []) in
      elim (Bool-cases (d.present (target_of rootfs f))) [
        | inr p ↦ rw p (record { files = omega (arith, a); warnings = w })
        | inl p ↦ rw p (elim (Bool-cases (d.refuses (target_of rootfs f) component)) [
          | inl q ↦ rw q (record { files = omega (arith, a); warnings = ground arith })
          | inr q ↦ rw q (elim (Bool-cases (d.refuses (target_of rootfs f) update_interval)) [
            | inl s ↦ rw s (record { files = omega (arith, a); warnings = ground arith })
            | inr s ↦ rw s (record { files = omega (arith, a); warnings = w })
          ])
        ])
      ]

  apply_files-IsCounted :
      (i : Info) (fs : List Text) (n : ℕ) (r : Run)
      → IsCounted n r
      → IsCounted (n + length fs) (apply_files d rootfs i fs r)
  unfolding apply_files
  apply_files-IsCounted i [] n r h =
      subst (λ k. IsCounted k r) (let p : n ≡ n + 0 = omega arith in p) h
  apply_files-IsCounted i (f ∷ fs) n r h =
      let p : n + 1 + length fs ≡ n + length (f ∷ fs) = omega arith in
      subst (λ k. IsCounted k (apply_files d rootfs i fs (apply_file d rootfs i f r))) p
        (apply_files-IsCounted i fs (n + 1) _ (apply_file-IsCounted i f n r h))

  apply_all-IsCounted :
      (is : List Info) (n : ℕ) (r : Run)
      → IsCounted n r
      → IsCounted (n + files_of is) (apply_all d rootfs is r)
  unfolding apply_all
  apply_all-IsCounted [] n r h = subst (λ k. IsCounted k r) (let p : n ≡ n + 0 = omega arith in p) h
  apply_all-IsCounted (i ∷ is) n r h =
      let p : n + length i.files + files_of is ≡ n + files_of (i ∷ is) = omega arith in
      subst (λ k. IsCounted k (apply_all d rootfs is (apply_files d rootfs i i.files r))) p
        (apply_all-IsCounted is (n + length i.files) _ (apply_files-IsCounted i i.files n r h))

  -- Every file of the map is counted once, as set, skipped or failed, and the first five failures
  -- are warned of.
  pub apply_xattrs-IsCounted :
      (is : List Info)
      → ((apply_xattrs d rootfs is).ok
            + (apply_xattrs d rootfs is).skip
            + (apply_xattrs d rootfs is).err
          ≡ files_of is)
        × (length (apply_xattrs d rootfs is).warned
            ≡ (if leb (apply_xattrs d rootfs is).err 5 then (apply_xattrs d rootfs is).err else 5))
  unfolding apply_xattrs
  apply_xattrs-IsCounted is =
      let h = apply_all-IsCounted is 0 _ (record { files = refl; warnings = refl }) in
      let f = h.files in (omega (arith, f), h.warnings)

  -- The attributes that the map asks for, on the targets that are there.
  abbrev file_writes : Info → List Text → List Write
  file_writes i [] = []
  file_writes i (f ∷ fs) =
      let rest = file_writes i fs in
      let t = target_of rootfs f in
      if d.present t
      then write_of t component i.element
        ∷ write_of t update_interval (interval_of i.interval)
        ∷ rest
      else rest

  abbrev pub asked_writes : List Info → List Write
  asked_writes [] = []
  asked_writes (i ∷ is) = file_writes i i.files ++ asked_writes is

  module _ (willing : (t n : Text) → d.refuses t n ≡ false) where
    apply_file-skips :
        (i : Info) (f : Text) (r : Run)
        → d.present (target_of rootfs f) ≡ false
        → ((apply_file d rootfs i f r).writes ≡ r.writes)
          × ((apply_file d rootfs i f r).err ≡ r.err)
    unfolding apply_file
    apply_file-skips i f r p = rw p (refl, refl)

    apply_file-writes :
        (i : Info) (f : Text) (r : Run)
        → d.present (target_of rootfs f) ≡ true
        → ((apply_file d rootfs i f r).writes
            ≡ r.writes
              ++ write_of (target_of rootfs f) component i.element
                ∷ write_of (target_of rootfs f) update_interval (interval_of i.interval)
                ∷ [])
          × ((apply_file d rootfs i f r).err ≡ r.err)
    unfolding apply_file
    apply_file-writes i f r p =
        let t = target_of rootfs f in
        rw (p, willing t component, willing t update_interval) (refl, refl)

    apply_files-writes :
        (i : Info) (fs : List Text) (r : Run)
        → ((apply_files d rootfs i fs r).writes ≡ r.writes ++ file_writes i fs)
          × ((apply_files d rootfs i fs r).err ≡ r.err)
    unfolding apply_files
    apply_files-writes i [] r = (sym (append-nil r.writes), refl)
    apply_files-writes i (f ∷ fs) r =
        let t = target_of rootfs f in
        let (w, e) = apply_files-writes i fs (apply_file d rootfs i f r) in
        elim (Bool-cases (d.present t)) [
          | inr p ↦ rw p (
              let (v, c) = apply_file-skips i f r p in
              (w ∙ ap (λ ws. ws ++ file_writes i fs) v, e ∙ c))
          | inl p ↦ rw p (
              let (v, c) = apply_file-writes i f r p in
              (
                w
                    ∙ ap (λ ws. ws ++ file_writes i fs) v
                    ∙ append_assoc r.writes _ (file_writes i fs),
                e ∙ c,
              ))
        ]

    apply_all-writes :
        (is : List Info) (r : Run)
        → ((apply_all d rootfs is r).writes ≡ r.writes ++ asked_writes is)
          × ((apply_all d rootfs is r).err ≡ r.err)
    unfolding apply_all
    apply_all-writes [] r = (sym (append-nil r.writes), refl)
    apply_all-writes (i ∷ is) r =
        let (w, e) = apply_all-writes is (apply_files d rootfs i i.files r) in
        let (v, c) = apply_files-writes i i.files r in
        (
          w
              ∙ ap (λ ws. ws ++ asked_writes is) v
              ∙ append_assoc r.writes (file_writes i i.files) (asked_writes is),
          e ∙ c,
        )

    -- On a file system that refuses nothing the calls are those that the map asks for, in its order,
    -- and no error is counted.
    pub apply_xattrs-asked_writes :
        (is : List Info)
        → ((apply_xattrs d rootfs is).writes ≡ asked_writes is)
          × ((apply_xattrs d rootfs is).err ≡ 0)
    unfolding apply_xattrs
    apply_xattrs-asked_writes is = apply_all-writes is _
