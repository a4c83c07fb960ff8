-- ===== src/Luks/Brightness.antt =====
-- xfce-linux/src/luks-unlock.py: `qemu_screendump` on the PPM files that QEMU writes.
use xfce_linux.Base.{
  ℕ, zero, suc, ◌+◌, ◌*◌, ◌≤◌, ◌≡◌, ◌≢◌, refl, ap, false, Text, [], ◌∷◌, ◌++◌, codes, length, drop,
  All, contains_text, starts_with, arith, some, ◌∙◌, subst,
}
use xfce_linux.Luks.Screen.{
  Bytes, frame, frame_of, ppm, qemu_screendump, index_of, every_100th, sum, header_at,
}

-- The last line of the header.
abbrev pub max_line : Text
max_line = codes "255\n"

starts_early :
    (c : ℕ) (hd pixels : Text)
    → starts_with (c ∷ hd ++ codes "255") max_line ≡ false
    → starts_with (c ∷ hd ++ max_line ++ pixels) max_line ≡ false
starts_early c [] pixels h = ground arith
starts_early c (d ∷ []) pixels h = ground arith
starts_early c (d ∷ e ∷ []) pixels h = ground arith
starts_early c (d ∷ e ∷ f ∷ hd) pixels h = ground arith

index_of-header :
    (hd pixels : Text)
    → contains_text (hd ++ codes "255") max_line ≡ false
    → index_of max_line (hd ++ max_line ++ pixels) ≡ some (length hd)
index_of-header [] pixels h = refl
index_of-header (c ∷ hd) pixels h =
    rw (starts_early c hd pixels (ground arith), index_of-header hd pixels (ground arith)) refl

drop-header : (hd pixels : Text) → drop (length hd + 4) (hd ++ max_line ++ pixels) ≡ pixels
drop-header [] pixels = refl
drop-header (c ∷ hd) pixels =
    let p : suc (length hd + 4) ≡ length (c ∷ hd) + 4 = omega arith in
    subst (λ n. drop n (c ∷ hd ++ max_line ++ pixels) ≡ pixels) p (drop-header hd pixels)

abbrev pub AreBytes : Bytes → Type 0
AreBytes bs = All (λ b. b ≤ 255) bs

sum-every_100th :
    (skip : ℕ) (bs : Bytes)
    → AreBytes bs
    → sum (every_100th skip bs) ≤ 255 * length (every_100th skip bs)
sum-every_100th skip [] h = omega arith
sum-every_100th zero (b ∷ bs) (h, hs) = omega (arith, sum-every_100th 99 bs hs)
sum-every_100th (suc skip) (b ∷ bs) (h, hs) = sum-every_100th skip bs hs

-- The byte at an index, 0 beyond the end, and the sum of the first values of a function.
abbrev pub byte_at : ℕ → Bytes → ℕ
byte_at n [] = 0
byte_at zero (b ∷ bs) = b
byte_at (suc n) (b ∷ bs) = byte_at n bs

abbrev pub sum_first : ℕ → (ℕ → ℕ) → ℕ
sum_first zero f = 0
sum_first (suc n) f = f 0 + sum_first n (λ j. f (suc j))

sum_first-ext : (n : ℕ) (f g : ℕ → ℕ) → ((j : ℕ) → f j ≡ g j) → sum_first n f ≡ sum_first n g
sum_first-ext zero f g h = refl
sum_first-ext (suc n) f g h =
    let e = sum_first-ext n (λ j. f (suc j)) (λ j. g (suc j)) (λ j. h (suc j)) in rw (h 0, e) refl

byte_at-step : (m n : ℕ) (b : ℕ) (bs : Bytes) → n ≡ suc m → byte_at m bs ≡ byte_at n (b ∷ bs)
byte_at-step m n b bs e = rw e refl

sum-samples :
    (skip : ℕ) (bs : Bytes)
    → sum (every_100th skip bs)
      ≡ sum_first (length (every_100th skip bs)) (λ j. byte_at (skip + 100 * j) bs)
sum-samples skip [] = refl
sum-samples zero (b ∷ bs) =
    ap (λ n. b + n)
      (sum-samples 99 bs
        ∙ sum_first-ext (length (every_100th 99 bs)) _ _
            (λ j. byte_at-step (99 + 100 * j) (0 + 100 * suc j) b bs (omega arith)))
sum-samples (suc skip) (b ∷ bs) =
    sum-samples skip bs
    ∙ sum_first-ext (length (every_100th skip bs)) _ _
        (λ j. byte_at-step (skip + 100 * j) (suc skip + 100 * j) b bs (omega arith))

-- The number of the samples: one in a hundred bytes, and one more for what is left.
length-every_100th :
    (skip : ℕ) (bs : Bytes)
    → skip ≤ 99
    → (length bs ≤ skip + 100 * length (every_100th skip bs))
      × (100 * length (every_100th skip bs) + skip ≤ length bs + 99)
length-every_100th skip [] h = omega arith
length-every_100th zero (b ∷ bs) h = omega (arith, length-every_100th 99 bs (omega arith))
length-every_100th (suc skip) (b ∷ bs) h = omega (arith, length-every_100th skip bs (omega arith))

-- The sum of the bytes at the multiples of 100 below 100 times this number.
abbrev pub sample_sum : ℕ → Bytes → ℕ
sample_sum count bs = sum_first count (λ j. byte_at (100 * j) bs)

sampled-sample_sum :
    (bs : Bytes) → sum (every_100th 0 bs) ≡ sample_sum (length (every_100th 0 bs)) bs
sampled-sample_sum bs =
    sum-samples 0 bs
    ∙ sum_first-ext (length (every_100th 0 bs)) _ _
        (λ j. ap (λ n. byte_at n bs) (let p : 0 + 100 * j ≡ 100 * j = omega arith in p))

frame_of-mean :
    (h : Text) (bs : Bytes)
    → bs ≢ []
    → AreBytes bs
    → (count : ℕ) × (frame_of h bs ≡ frame (sample_sum count bs) count h)
      × (sample_sum count bs ≤ 255 * count)
      × (length bs ≤ 100 * count)
      × (100 * count ≤ length bs + 99)
frame_of-mean h [] n b = absurd (n refl)
frame_of-mean h (c ∷ bs) n b =
    let count = length (every_100th 0 (c ∷ bs)) in
    let (l, u) = length-every_100th 0 (c ∷ bs) (omega arith) in
    let e = sampled-sample_sum (c ∷ bs) in
    let total : sample_sum count (c ∷ bs) ≤ 255 * count =
      subst (λ t. t ≤ 255 * count) e (sum-every_100th 0 (c ∷ bs) b) in
    (count, ap (λ t. frame t count h) e, total, omega (arith, l), omega (arith, u))

-- For a PPM file, whose header has no earlier line that ends in 255, the brightness is the mean of
-- the bytes at the multiples of 100 among those of the pixels, and so from 0 to 255.
pub qemu_screendump-mean :
    (md5 : Bytes → Text) (hd pixels : Bytes)
    → contains_text (hd ++ codes "255") max_line ≡ false
    → pixels ≢ []
    → AreBytes pixels
    → (count : ℕ) × (qemu_screendump md5 (ppm (hd ++ max_line ++ pixels))
        ≡ frame (sample_sum count pixels) count (md5 (hd ++ max_line ++ pixels)))
      × (sample_sum count pixels ≤ 255 * count)
      × (length pixels ≤ 100 * count)
      × (100 * count ≤ length pixels + 99)
unfolding qemu_screendump
qemu_screendump-mean md5 hd pixels e n b =
    let h = md5 (hd ++ max_line ++ pixels) in
    let (count, f, total, lower, upper) = frame_of-mean h pixels n b in
    (
      count,
      ap (header_at h (hd ++ max_line ++ pixels)) (index_of-header hd pixels e)
          ∙ ap (frame_of h) (drop-header hd pixels)
          ∙ f,
      total,
      lower,
      upper,
    )
