-- ===== src/Filemap/Entries.antt =====
-- scripts/gen-filemap.py: what the map holds.
use xfce_linux.Base.{
  ℕ, ◌+◌, ◌≡◌, ◌≢◌, refl, ap, sym, ◌∙◌, true, false, List, [], ◌∷◌, Text, text_eq, text_eq→≡,
  length, length-append, suc, map, if◌then◌else◌, All, arith, Bool-cases, inl, inr,
}
use xfce_linux.Filemap.Sort.{
  sum_of, sort, IsSorted, sort-IsSorted, sort-sum_of, sort-length, tail-IsSorted, text_le,
  text_le_trans,
}
use xfce_linux.Filemap.Contents.{Contents, guess_interval}
use xfce_linux.Filemap.Build.{
  Entry, is_skipped, same, item_element, entry_for, entries, build_filemap, total_of, total_files,
  entry_lines, entry_element, manifest_lines, manifest_line,
}

-- How often a list of files has a file, and how often an element claims it.
abbrev pub has : Text → Text → ℕ
has f g = if text_eq g f then 1 else 0

abbrev claim : Text → Text → Text × List Text → ℕ
claim e f (d, fs) = if text_eq d e then sum_of (has f) fs else 0

abbrev pub claims_in : Text → Text → Contents → ℕ
claims_in e f c = sum_of (claim e f) c

abbrev entry_claim : Text → Text → Entry → ℕ
entry_claim e f d = if text_eq d.element e then sum_of (has f) d.files else 0

abbrev pub claims : Text → Text → List Entry → ℕ
claims e f ds = sum_of (entry_claim e f) ds

zero_plus : (n : ℕ) → 0 + n ≡ n
zero_plus n = omega arith

entries-claims :
    (e f : Text) (c : Contents)
    → claims e f (entries c) ≡ (if is_skipped e then 0 else claims_in e f c)
entries-claims e f [] = ground arith
entries-claims e f ((d, []) ∷ c) = let h = entries-claims e f c in ground arith
entries-claims e f ((d, g ∷ gs) ∷ c) =
    let h = entries-claims e f c in
    let s = sort-sum_of same (has f) (g ∷ gs) in
    elim (Bool-cases (is_skipped d)) [
      | inl k ↦ rw k (elim (Bool-cases (text_eq d e)) [
        | inl q ↦ let p = text_eq→≡ d e q in let k' = rw p at k in rw (q, k') (h ∙ rw k' refl)
        | inr q ↦ rw (q, zero_plus (claims_in e f c)) h
      ])
      | inr k ↦ rw k (elim (Bool-cases (text_eq d e)) [
        | inl q ↦
            let p = text_eq→≡ d e q in
            let k' = rw p at k in let h' = rw k' at h in rw (q, k') (omega (arith, s, h'))
        | inr q ↦ rw (q, zero_plus (claims_in e f c), zero_plus (claims e f (entries c))) h
      ])
    ]

-- The map has every file of the contents under its element as often as the contents, and nothing of
-- an element that is a layer.
pub build_filemap-claims :
    (e f : Text) (c : Contents)
    → claims e f (build_filemap c) ≡ (if is_skipped e then 0 else claims_in e f c)
unfolding build_filemap
build_filemap-claims e f c =
    entries-claims e f (sort item_element c)
    ∙ ap (λ n. if is_skipped e then 0 else n) (sort-sum_of item_element (claim e f) c)

abbrev pub count_files : List Entry → ℕ
count_files ds = sum_of (λ (d : Entry). length d.files) ds

entries-total : (c : Contents) → total_of c ≡ count_files (entries c)
entries-total [] = refl
entries-total ((d, []) ∷ c) = entries-total c
entries-total ((d, g ∷ gs) ∷ c) = elim (Bool-cases (is_skipped d)) [
  | inl k ↦ rw k (entries-total c)
  | inr k ↦ rw k (omega (arith, entries-total c, sort-length same (g ∷ gs)))
]

-- An entry is of no layer, has files, in their order, and the interval of its element.
pub record IsEntry (d : Entry) : Type 0 where
  kept : is_skipped d.element ≡ false
  some_files : d.files ≢ []
  sorted : IsSorted same d.files
  cadence : d.interval ≡ guess_interval d.element

entry_for-IsEntry :
    (e f : Text) (fs : List Text) → is_skipped e ≡ false → IsEntry (entry_for e (f ∷ fs))
entry_for-IsEntry e f fs k = record {
  kept = k;
  some_files = λ h. let p = sym (sort-length same (f ∷ fs)) ∙ ap length h in absurd (ground arith);
  sorted = sort-IsSorted same (f ∷ fs);
  cadence = refl;
}

entries-IsEntry : (c : Contents) → All IsEntry (entries c)
entries-IsEntry [] = tt
entries-IsEntry ((e, []) ∷ c) = entries-IsEntry c
entries-IsEntry ((e, f ∷ fs) ∷ c) = elim (Bool-cases (is_skipped e)) [
  | inl k ↦ rw k (entries-IsEntry c)
  | inr k ↦ rw k (entry_for-IsEntry e f fs k, entries-IsEntry c)
]

-- An element that is at most those of the list is at most those of the entries.
abbrev Below : Text → List Entry → Type 0
Below e ds = All (λ (d : Entry). text_le e d.element ≡ true) ds

abbrev BelowItems : Text → Contents → Type 0
BelowItems e c = All (λ (i : Text × List Text). text_le e (item_element i) ≡ true) c

entries-Below : (e : Text) (c : Contents) → BelowItems e c → Below e (entries c)
entries-Below e [] h = tt
entries-Below e ((d, []) ∷ c) (h, hs) = entries-Below e c hs
entries-Below e ((d, f ∷ fs) ∷ c) (h, hs) = elim (Bool-cases (is_skipped d)) [
  | inl k ↦ rw k (entries-Below e c hs)
  | inr k ↦ rw k (h, entries-Below e c hs)
]

lower-BelowItems :
    (e d : Text) → text_le e d ≡ true → (c : Contents) → BelowItems d c → BelowItems e c
lower-BelowItems e d h [] k = tt
lower-BelowItems e d h (l ∷ c) (k, ks) =
    (text_le_trans e d (item_element l) h k, lower-BelowItems e d h c ks)

head-BelowItems :
    (i : Text × List Text) (c : Contents)
    → IsSorted item_element (i ∷ c)
    → BelowItems (item_element i) c
head-BelowItems i [] h = tt
head-BelowItems i (j ∷ c) (h, hs) =
    (h, lower-BelowItems (item_element i) (item_element j) h c (head-BelowItems j c hs))

cons-IsSorted :
    (d : Entry) (ds : List Entry)
    → Below d.element ds
    → IsSorted entry_element ds
    → IsSorted entry_element (d ∷ ds)
cons-IsSorted d [] h s = tt
cons-IsSorted d (x ∷ ds) (h, hs) s = (h, s)

entries-IsSorted : (c : Contents) → IsSorted item_element c → IsSorted entry_element (entries c)
entries-IsSorted [] h = tt
entries-IsSorted ((e, []) ∷ c) h = entries-IsSorted c (tail-IsSorted item_element (e, []) c h)
entries-IsSorted ((e, f ∷ fs) ∷ c) h =
    let hs = entries-IsSorted c (tail-IsSorted item_element (e, f ∷ fs) c h) in
    elim (Bool-cases (is_skipped e)) [
      | inl k ↦ rw k hs
      | inr k ↦ rw k (
          cons-IsSorted (entry_for e (f ∷ fs)) (entries c)
            (entries-Below e c (head-BelowItems (e, f ∷ fs) c h)) hs)
    ]

-- The map is sorted by the elements, each entry is well made, and `total_files` is the number of
-- the files in it.
pub build_filemap-IsSorted :
    (c : Contents)
    → IsSorted entry_element (build_filemap c)
      × All IsEntry (build_filemap c)
      × (total_files c ≡ count_files (build_filemap c))
unfolding build_filemap total_files
build_filemap-IsSorted c =
    let s = sort item_element c in
    (entries-IsSorted s (sort-IsSorted item_element c), entries-IsEntry s, entries-total s)

length-map : {A B : Type 0} (f : A → B) (xs : List A) → length (map f xs) ≡ length xs
length-map f [] = refl
length-map f (x ∷ xs) = ap suc (length-map f xs)

length-entry_lines : (ds : List Entry) → length (entry_lines ds) ≡ count_files ds
length-entry_lines [] = refl
length-entry_lines (d ∷ ds) = omega (
  arith,
  length-append (map (manifest_line d.element d.interval) d.files) (entry_lines ds),
  length-map (manifest_line d.element d.interval) d.files,
  length-entry_lines ds,
)

-- The manifest has a line for each file of the map, in the order of the lines.
pub manifest_lines-IsSorted :
    (c : Contents)
    → IsSorted same (manifest_lines (build_filemap c))
      × (length (manifest_lines (build_filemap c)) ≡ total_files c)
unfolding manifest_lines
manifest_lines-IsSorted c =
    let ds = sort entry_element (build_filemap c) in
    let (s, e, t) = build_filemap-IsSorted c in
    (
      sort-IsSorted same (entry_lines ds),
      omega (
        arith,
        sort-length same (entry_lines ds),
        length-entry_lines ds,
        t,
        sort-sum_of entry_element (λ (d : Entry). length d.files) (build_filemap c),
      ),
    )
