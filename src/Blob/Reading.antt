-- ===== src/Blob/Reading.antt =====
-- scripts/ghcr-blob-stream.py: what the reads of one response do to the progress.
use xfce_linux.Base.{
  ℕ, zero, suc, ◌+◌, ◌-◌, ◌≤◌, ◌<◌, min, ◌≡◌, refl, sym, ◌∙◌, ap, Bool, true, none, List, [], ◌∷◌,
  ◌++◌, append_assoc, length, length-append, length-take, length-drop, take, drop, take-append-drop,
  All, ltb, ltb→le, ltb→lt, arith, Bool-cases, Option-cases, inl, inr,
}
use xfce_linux.Blob.Download.{
  Bytes, Read, Progress, read_body, next_read, later_reads, read_size, put_bytes,
}

-- The offset counts the bytes that the hash has, and does not pass the size.
pub record IsAligned (size : ℕ) (s : Progress) : Type 0 where
  pub counted : s.offset ≡ length s.hashed
  pub bounded : s.offset ≤ size

abbrev pub WritesWell : List Read → Type 0
WritesWell = All (λ (r : Read). r.broken_write ≡ none)

next_read-WritesWell : (rs : List Read) → WritesWell rs → (next_read rs).broken_write ≡ none
next_read-WritesWell [] h = refl
next_read-WritesWell (r ∷ rs) h = h.0

later_reads-WritesWell : (rs : List Read) → WritesWell rs → WritesWell (later_reads rs)
later_reads-WritesWell [] h = tt
later_reads-WritesWell (r ∷ rs) h = h.1

length-read :
    (size n : ℕ) (xs : Bytes) (r : Read) → length (take (read_size size n r) xs) ≤ size - n
length-read size n xs r = omega (arith, length-take (read_size size n r) xs)

put_bytes-IsAligned :
    (size : ℕ) (s : Progress) (xs : Bytes) (r : Read)
    → IsAligned size s
    → IsAligned size (put_bytes s (take (read_size size s.offset r) xs))
put_bytes-IsAligned size s xs r h = record {
  counted = omega (arith, h.counted, length-append s.hashed (take (read_size size s.offset r) xs));
  bounded = omega (arith, h.bounded, length-read size s.offset xs r);
}

pub read_body-IsAligned :
    (f size : ℕ) (body : Bytes) (reads : List Read) (is_cut : Bool) (s : Progress)
    → IsAligned size s
    → IsAligned size (read_body f size body reads is_cut s).0
unfolding read_body
read_body-IsAligned zero size body reads is_cut s h = h
read_body-IsAligned (suc f) size [] reads is_cut s h = elim (Bool-cases (ltb s.offset size)) [
  | inl e ↦ rw e h
  | inr e ↦ rw e h
]
read_body-IsAligned (suc f) size (b ∷ body) reads is_cut s h =
    let r = next_read reads in
    elim (Bool-cases (ltb s.offset size)) [
      | inr e ↦ rw e h
      | inl e ↦ elim (Option-cases r.broken_write) [
        | inl w ↦
            rw (e, w)
              (read_body-IsAligned f size _ (later_reads reads) is_cut _
                (put_bytes-IsAligned size s (b ∷ body) r h))
        | inr (j, w) ↦ rw (e, w) (record { counted = h.counted; bounded = h.bounded })
      ]
    ]

split_front :
    {whole : Bytes} (n : ℕ) (a xs rest : Bytes)
    → whole ≡ a ++ (xs ++ rest)
    → whole ≡ (a ++ take n xs) ++ (drop n xs ++ rest)
split_front n a xs rest h =
    h ∙ ap (λ t. a ++ (t ++ rest)) (sym (take-append-drop n xs)) ∙ simp append_assoc

module _ (size : ℕ) (is_cut : Bool) where
  -- One round, where bytes are at hand and the write goes well.
  read_body-step :
      (f : ℕ) (b : ℕ) (body : Bytes) (reads : List Read) (s : Progress)
      → WritesWell reads
      → ltb s.offset size ≡ true
      → let n = read_size size s.offset (next_read reads) in
        read_body (suc f) size (b ∷ body) reads is_cut s
        ≡ read_body f size
            (drop n (b ∷ body))
            (later_reads reads)
            is_cut
            (put_bytes s (take n (b ∷ body)))
  unfolding read_body
  read_body-step f b body reads s w e = rw (e, next_read-WritesWell reads w) refl

  -- Standard output has what the hash has.
  pub read_body-same :
      (f : ℕ) (body : Bytes) (reads : List Read) (s : Progress)
      → WritesWell reads
      → s.out ≡ s.hashed
      → (read_body f size body reads is_cut s).0.out
        ≡ (read_body f size body reads is_cut s).0.hashed
  unfolding read_body
  read_body-same zero body reads s w h = h
  read_body-same (suc f) [] reads s w h = ground arith
  read_body-same (suc f) (b ∷ body) reads s w h = elim (Bool-cases (ltb s.offset size)) [
    | inr e ↦ rw e h
    | inl e ↦
        let n = read_size size s.offset (next_read reads) in
        rw (e, next_read-WritesWell reads w)
          (read_body-same f (drop n (b ∷ body)) (later_reads reads)
            (put_bytes s (take n (b ∷ body))) (later_reads-WritesWell reads w)
            (ap (λ t. t ++ take n (b ∷ body)) h))
  ]

  -- What is taken is a front of the body, behind what was there.
  pub read_body-front :
      (f : ℕ) (body rest : Bytes) (reads : List Read) (s : Progress) (whole : Bytes)
      → WritesWell reads
      → whole ≡ s.hashed ++ (body ++ rest)
      → (left : Bytes) × (whole ≡ (read_body f size body reads is_cut s).0.hashed ++ left)
  unfolding read_body
  read_body-front zero body rest reads s whole w h = (body ++ rest, h)
  read_body-front (suc f) [] rest reads s whole w h = (rest, ground arith)
  read_body-front (suc f) (b ∷ body) rest reads s whole w h =
      elim (Bool-cases (ltb s.offset size)) [
        | inr e ↦ rw e ((b ∷ body) ++ rest, h)
        | inl e ↦
            let n = read_size size s.offset (next_read reads) in
            rw (e, next_read-WritesWell reads w)
              (read_body-front f (drop n (b ∷ body)) rest (later_reads reads)
                (put_bytes s (take n (b ∷ body))) whole (later_reads-WritesWell reads w)
                (split_front n s.hashed (b ∷ body) rest h))
      ]

  -- With fuel for each byte, the offset goes on by the whole body, or up to the size.
  pub read_body-offset :
      (f : ℕ) (body : Bytes) (reads : List Read) (s : Progress)
      → WritesWell reads
      → length body < f
      → s.offset ≤ size
      → (read_body f size body reads is_cut s).0.offset ≡ min size (s.offset + length body)
  unfolding read_body
  read_body-offset zero body reads s w l h = absurd (omega arith)
  read_body-offset (suc f) [] reads s w l h = ground arith
  read_body-offset (suc f) (b ∷ body) reads s w l h = elim (Bool-cases (ltb s.offset size)) [
    | inr e ↦ rw e (omega (arith, ltb→le s.offset size e))
    | inl e ↦
        let n = read_size size s.offset (next_read reads) in
        rw (e, next_read-WritesWell reads w)
          (read_body-offset f (drop n (b ∷ body)) (later_reads reads)
              (put_bytes s (take n (b ∷ body))) (later_reads-WritesWell reads w)
              (omega (arith, length-drop n (b ∷ body), ltb→lt s.offset size e))
              (omega (arith, length-read size s.offset (b ∷ body) (next_read reads)))
            ∙ omega (arith, length-drop n (b ∷ body), length-take n (b ∷ body)))
  ]
