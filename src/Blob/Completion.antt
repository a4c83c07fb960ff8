-- ===== src/Blob/Completion.antt =====
-- scripts/ghcr-blob-stream.py: when the download ends well, and a write that does not.
use xfce_linux.Base.{
  ℕ, zero, suc, ◌+◌, ◌*◌, ◌≤◌, ◌<◌, min, ◌≡◌, refl, ◌∙◌, ap, Bool, true, false, some, List, ◌++◌,
  Text, codes, length, ltb, ltb→le, ltb→lt, le→ltb, ◌⊎◌, arith, Bool-cases, inl, inr,
}
use xfce_linux.Blob.Download.{
  Bytes, Read, answer, Request, Registry, Progress, Fate, ended, cut, again, attempt_once,
  after_body, returned, attempt_loop, stream_blob, finish, read_body, max_attempts, no_progress,
}
use xfce_linux.Blob.Reading.{read_body-offset}
use xfce_linux.Blob.Verified.{NoBrokenWrite, Serves, stream_blob-whole, finish-blob}

-- Every attempt from an offset within the blob is answered well, with at least `d` bytes of the
-- blob or with all that is left.
pub record Delivers (g : Registry) (size d : ℕ) : Type 0 where
  pub answers :
      (n : ℕ) (q : Request)
      → q.offset < size
      → (status : ℕ) × (body : Bytes) × (reads : List Read) × (is_cut : Bool) × (g.reply n q
          ≡ answer status body reads is_cut)
        × ((q.offset ≡ 0) ⊎ (status ≡ 206))
        × (min size (q.offset + d) ≤ q.offset + length body)

module _ (g : Registry) (size d : ℕ) (w : NoBrokenWrite g) (v : Delivers g size d) where
  -- An attempt brings the offset on, and the loop goes on.
  attempt_once-advances :
      (n : ℕ) (token : Text) (s : Progress)
      → s.offset < size
      → (paused : Bool) × (s' : Progress) × (attempt_once g size n token s ≡ again paused token s')
        × (min size (s.offset + d) ≤ s'.offset)
        × (s'.offset ≤ size)
  unfolding attempt_once
  attempt_once-advances n token s h =
      let (status, body, reads, is_cut, e, ok, long) =
        v.answers n (record { offset = s.offset; token = token }) h in
      let r = read_body (suc (length body)) size body reads is_cut s in
      let far =
        read_body-offset size is_cut (suc (length body)) body reads s
          (w.well n _ status body reads is_cut e) (omega arith) (omega arith) in
      let (paused, same) = after_body-again token r in
      (
        paused,
        r.0,
        rw (e, attempt_once) (ground (arith, same)),
        omega (arith, far),
        omega (arith, far),
      )
    where
      after_body-again :
          (t : Text) (r : Progress × Fate) → (paused : Bool) × (after_body t r ≡ again paused t r.0)
      after_body-again t (s, ended) = (false, refl)
      after_body-again t (s, cut) = (true, refl)

  -- With enough attempts left the loop ends by its test, at the size.
  attempt_loop-completes :
      (sha256 : Bytes → Text) (digest : Text) (left n slept : ℕ) (token : Text) (s : Progress)
      → s.offset ≤ size
      → size ≤ s.offset + left * d
      → let o = attempt_loop sha256 g size digest left n slept token s in
        (o.exit ≡ returned (finish sha256 size digest o.progress)) × (o.progress.offset ≡ size)
  unfolding attempt_loop
  attempt_loop-completes sha256 digest zero n slept token s h far =
      rw (le→ltb s.offset size (omega arith)) (refl, omega arith)
  attempt_loop-completes sha256 digest (suc left) n slept token s h far =
      elim (Bool-cases (ltb s.offset size)) [
        | inr e ↦ rw e (refl, omega (arith, ltb→le s.offset size e))
        | inl e ↦
            let (paused, s', q, on, within) =
              attempt_once-advances (suc n) token s (ltb→lt s.offset size e) in
            rw (e, q)
              (attempt_loop-completes sha256 digest left (suc n) _ token s' within (omega arith))
      ]

-- A registry that serves the blob, whose every answer brings it on by a fortieth at least, and writes
-- that go well: the run ends with status 0 and the blob on standard output.
pub stream_blob-completes :
    (sha256 : Bytes → Text) (g : Registry) (blob : Bytes) (token : Text) (d : ℕ)
    → NoBrokenWrite g
    → Serves g blob
    → g.bearer 0 ≡ some token
    → Delivers g (length blob) d
    → length blob ≤ 40 * d
    → let o = stream_blob sha256 g (length blob) (codes "sha256:" ++ sha256 blob) in
      (o.exit ≡ returned 0) × (o.progress.out ≡ blob)
unfolding stream_blob
stream_blob-completes sha256 g blob token d w v t many enough =
    let size = length blob in
    let digest = codes "sha256:" ++ sha256 blob in
    let ends =
      attempt_loop-completes g size d w many sha256 digest max_attempts 0 0 token no_progress
        (omega arith) (omega arith) in
    let full : (stream_blob sha256 g size digest).progress.offset ≡ size =
      rw (t, stream_blob) ends.1 in
    let got = stream_blob-whole sha256 g size digest blob w v refl full in
    let zero_exit : (stream_blob sha256 g size digest).exit
        ≡ returned (finish sha256 size digest (stream_blob sha256 g size digest).progress) =
      rw (t, stream_blob) ends.0 in
    (zero_exit ∙ ap returned (finish-blob sha256 size blob _ full got.0), got.1)
