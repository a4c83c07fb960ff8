-- ===== src/Blob/BrokenWrite.antt =====
-- scripts/ghcr-blob-stream.py: `except (OSError, ...)` also catches a failed `out.write`.
use xfce_linux.Base.{
  ℕ, zero, suc, Bool, ◌+◌, ◌≤◌, ◌<◌, ◌≡◌, refl, ◌∙◌, ap, true, false, some, none, [], ◌∷◌, ◌++◌,
  Text, codes, length, take, drop, take-all, length-drop, lt→ltb, le→ltb, arith, if◌then◌else◌,
}
use xfce_linux.Blob.Download.{
  Bytes, Read, answer, Registry, Progress, ended, cut, again, attempt_once, returned, attempt_loop,
  stream_blob, finish, read_body, no_progress, chunk_size, read_size, put_bytes, stop, pause,
}
use xfce_linux.Blob.Verified.{finish-blob}

abbrev broken : ℕ → ℕ → Read
broken more j = record { more = more; broken_write = some j }

-- The first read of the whole blob, whose write breaks after `j` bytes.
read_broken :
    (blob : Bytes) (more j : ℕ)
    → 0 < length blob
    → length blob ≤ chunk_size
    → length blob ≤ suc more
    → read_body (suc (length blob)) (length blob) blob (broken more j ∷ []) false no_progress
      ≡ (record { offset = 0; out = take j blob; hashed = [] }, cut)
unfolding read_body
read_broken [] more j pos small enough = absurd (omega arith)
read_broken (b ∷ blob) more j pos small enough = rw (lt→ltb 0 (suc (length blob)) pos) (
    ap (λ t. (record { offset = 0; out = take j t; hashed = [] }, cut))
      (take-all (read_size (suc (length blob)) 0 (broken more j)) (b ∷ blob) (omega arith)))

drop-all : (n : ℕ) (xs : Bytes) → length xs ≤ n → drop n xs ≡ []
drop-all n xs h = length-nil (drop n xs) (omega (arith, length-drop n xs))
  where
    length-nil : (ys : Bytes) → length ys ≡ 0 → ys ≡ []
    length-nil [] e = refl
    length-nil (y ∷ ys) e = absurd (omega arith)

read_none :
    (f size : ℕ) (s : Progress)
    → size ≤ s.offset
    → read_body (suc f) size [] [] false s ≡ (s, ended)
unfolding read_body
read_none f size s h = rw (le→ltb s.offset size h) refl

-- A read of the whole blob that goes well.
read_whole :
    (blob start : Bytes)
    → 0 < length blob
    → length blob ≤ chunk_size
    → read_body
        (suc (length blob))
        (length blob)
        blob
        []
        false
        (record { offset = 0; out = start; hashed = [] })
      ≡ (record { offset = length blob; out = start ++ blob; hashed = blob }, ended)
unfolding read_body
read_whole [] start pos small = absurd (omega arith)
read_whole (b ∷ blob) start pos small =
    let xs = b ∷ blob in
    let s : Progress = record { offset = 0; out = start; hashed = [] } in
    let n = read_size (length xs) 0 (record { more = chunk_size; broken_write = none }) in
    rw (lt→ltb 0 (suc (length blob)) pos) (
      rw (take-all n xs (omega arith), drop-all n xs (omega arith))
        (read_none (length blob) (length xs) (put_bytes s xs) (omega arith)
          ∙ ap (λ (o : ℕ). (record { offset = o; out = start ++ xs; hashed = xs }, ended))
              (omega arith)))

module _ (sha256 : Bytes → Text) (g : Registry) (blob : Bytes) (token : Text) (more j : ℕ) where
  abbrev size : ℕ
  size = length blob

  abbrev digest : Text
  digest = codes "sha256:" ++ sha256 blob

  first_attempt :
      0 < length blob
      → length blob ≤ chunk_size
      → length blob ≤ suc more
      → g.reply 1 (record { offset = 0; token = token })
        ≡ answer 200 blob (broken more j ∷ []) false
      → attempt_once g size 1 token no_progress
        ≡ again true token (record { offset = 0; out = take j blob; hashed = [] })
  unfolding attempt_once
  first_attempt pos small enough first =
      rw (first, attempt_once) (rw (read_broken blob more j pos small enough) refl)

  second_attempt :
      0 < length blob
      → length blob ≤ chunk_size
      → g.reply 2 (record { offset = 0; token = token }) ≡ answer 200 blob [] false
      → attempt_once g size 2 token (record { offset = 0; out = take j blob; hashed = [] })
        ≡ again false token (record { offset = size; out = take j blob ++ blob; hashed = blob })
  unfolding attempt_once
  second_attempt pos small second =
      rw (second, attempt_once) (rw (read_whole blob (take j blob) pos small) refl)

  loop_again :
      (left n slept : ℕ) (paused : Bool) (t : Text) (s s' : Progress)
      → s.offset < size
      → attempt_once g size (suc n) t s ≡ again paused t s'
      → attempt_loop sha256 g size digest (suc left) n slept t s
        ≡ attempt_loop sha256 g size digest left
            (suc n)
            (if paused then slept + pause (suc n) else slept)
            t
            s'
  unfolding attempt_loop
  loop_again left n slept paused t s s' h e = rw (lt→ltb s.offset size h, e) refl

  loop_done :
      (left n slept : ℕ) (t : Text) (s : Progress)
      → size ≤ s.offset
      → attempt_loop sha256 g size digest left n slept t s
        ≡ stop (returned (finish sha256 size digest s)) n slept s
  unfolding attempt_loop
  loop_done zero n slept t s h = rw (le→ltb s.offset size h) refl
  loop_done (suc left) n slept t s h = rw (le→ltb s.offset size h) refl

  -- If the blob fits in one chunk, the first write fails with an `OSError` after `j` bytes, and the
  -- next attempt brings the whole blob, the run ends with status 0, while standard output has those `j` bytes twice.
  pub stream_blob-broken_write :
      0 < length blob
      → length blob ≤ chunk_size
      → length blob ≤ suc more
      → g.bearer 0 ≡ some token
      → g.reply 1 (record { offset = 0; token = token })
        ≡ answer 200 blob (broken more j ∷ []) false
      → g.reply 2 (record { offset = 0; token = token }) ≡ answer 200 blob [] false
      → ((stream_blob sha256 g size digest).exit ≡ returned 0)
        × ((stream_blob sha256 g size digest).progress.out ≡ take j blob ++ blob)
  unfolding stream_blob
  stream_blob-broken_write pos small enough t first second =
      let ends =
        loop_again 39 0 0 true token _ _ pos (first_attempt pos small enough first)
        ∙ loop_again 38 1 _ false token _ _ pos (second_attempt pos small second)
        ∙ loop_done 38 2 _ token _ (omega arith) in
      rw (t, stream_blob, ends) (ap returned (finish-blob sha256 size blob _ refl refl), refl)
