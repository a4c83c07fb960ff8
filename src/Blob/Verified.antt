-- ===== src/Blob/Verified.antt =====
-- scripts/ghcr-blob-stream.py: what the status 0 says of the bytes on standard output.
use xfce_linux.Base.{
  ℕ, suc, ◌≡◌, refl, sym, ◌∙◌, ap, Bool, Option, none, some, List, [], ◌∷◌, ◌++◌, Text, codes,
  length, length-append, drop, text_eq→≡, text_eq_self, ==_self, not, ◌&&◌, ◌==◌, ◌⊎◌, arith,
  Bool-cases, Option-cases, inl, inr, append-nil,
}
use xfce_linux.Blob.Download.{
  Bytes, Read, Reply, http_error, refused, answer, Request, Registry, Progress, Fate, ended, cut,
  attempt_once, after_body, refreshed, returned, stream_blob, finish, read_body, max_attempts,
  no_progress,
}
use xfce_linux.Blob.Reading.{
  IsAligned, WritesWell, read_body-IsAligned, read_body-same, read_body-front,
}
use xfce_linux.Blob.Loop.{Holds, attempt_loop-keeps, attempt_loop-finish}

-- No write to standard output fails.
pub record NoBrokenWrite (g : Registry) : Type 0 where
  pub well :
      (n : ℕ) (q : Request) (status : ℕ) (body : Bytes) (reads : List Read) (is_cut : Bool)
      → g.reply n q ≡ answer status body reads is_cut
      → WritesWell reads

-- The registry answers with a front of the blob, from the offset that was asked for if it says 206.
pub record Serves (g : Registry) (blob : Bytes) : Type 0 where
  pub front :
      (n : ℕ) (q : Request) (status : ℕ) (body : Bytes) (reads : List Read) (is_cut : Bool)
      → g.reply n q ≡ answer status body reads is_cut
      → (q.offset ≡ 0) ⊎ (status ≡ 206)
      → (rest : Bytes) × (drop q.offset blob ≡ body ++ rest)

-- The progress of a run whose writes go well.
pub record IsExact (size : ℕ) (s : Progress) : Type 0 where
  pub aligned : IsAligned size s
  pub same : s.out ≡ s.hashed

-- The hash has a front of the blob.
abbrev IsFront : Bytes → Progress → Type 0
IsFront blob s = (rest : Bytes) × (blob ≡ s.hashed ++ rest)

after_body-Holds :
    (P : Progress → Type 0) (token : Text) (r : Progress × Fate)
    → P r.0
    → Holds P (after_body token r)
after_body-Holds P token (s, ended) h = h
after_body-Holds P token (s, cut) h = h

refreshed-Holds :
    (P : Progress → Type 0) (t : Option Text) (s : Progress) → P s → Holds P (refreshed t s)
refreshed-Holds P none s h = h
refreshed-Holds P (some token) s h = h

module _ (g : Registry) (size : ℕ) where
  -- An attempt keeps what its reads keep.
  attempt_once-Holds :
      (P : Progress → Type 0) (n : ℕ) (token : Text) (s : Progress)
      → P s
      → ((status : ℕ) (body : Bytes) (reads : List Read) (is_cut : Bool)
          → g.reply n (record { offset = s.offset; token = token })
            ≡ answer status body reads is_cut
          → (s.offset ≡ 0) ⊎ (status ≡ 206)
          → P (read_body (suc (length body)) size body reads is_cut s).0)
      → Holds P (attempt_once g size n token s)
  unfolding attempt_once
  attempt_once-Holds P n token s h keep =
      go (g.reply n (record { offset = s.offset; token = token })) refl
    where
      go :
          (r : Reply)
          → g.reply n (record { offset = s.offset; token = token }) ≡ r
          → Holds P (attempt_once g size n token s)
      go (http_error code) e =
          rw (e, attempt_once)
            (elim (Bool-cases (code == 401)) [
              | inl b ↦ rw b (refreshed-Holds P (g.bearer n) s h)
              | inr b ↦ rw b h
            ])
      go refused e = rw (e, attempt_once) h
      go (answer status body reads is_cut) e =
          rw (e, attempt_once)
            (elim (Bool-cases (not (s.offset == 0) && not (status == 206))) [
              | inl b ↦ rw b h
              | inr b ↦
                  rw b (after_body-Holds P token _ (keep status body reads is_cut e (ground arith)))
            ])

  module _ (w : NoBrokenWrite g) where
    attempt_once-IsExact :
        (n : ℕ) (token : Text) (s : Progress)
        → IsExact size s
        → Holds (IsExact size) (attempt_once g size n token s)
    attempt_once-IsExact n token s h =
        attempt_once-Holds (IsExact size) n token s h (λ status body reads is_cut e ok. record {
          aligned = read_body-IsAligned _ size body reads is_cut s h.aligned;
          same =
              read_body-same size is_cut _ body reads s (w.well n _ status body reads is_cut e)
                h.same;
        })

drop-append : (xs ys : Bytes) → drop (length xs) (xs ++ ys) ≡ ys
drop-append [] ys = refl
drop-append (x ∷ xs) ys = drop-append xs ys

-- Where the hash has a front of the blob, what is served from the offset comes next.
served_next :
    (blob body rest : Bytes) (s : Progress)
    → s.offset ≡ length s.hashed
    → IsFront blob s
    → drop s.offset blob ≡ body ++ rest
    → blob ≡ s.hashed ++ (body ++ rest)
served_next blob body rest s counted (left, front) served =
    let here : drop s.offset blob ≡ left = rw (counted, front) (drop-append s.hashed left) in
    front ∙ ap (λ t. s.hashed ++ t) (sym here ∙ served)

module _ (g : Registry) (size : ℕ) (w : NoBrokenWrite g) (blob : Bytes) (v : Serves g blob) where
  abbrev IsFaithful : Progress → Type 0
  IsFaithful s = IsExact size s × IsFront blob s

  attempt_once-IsFaithful :
      (n : ℕ) (token : Text) (s : Progress)
      → IsFaithful s
      → Holds IsFaithful (attempt_once g size n token s)
  attempt_once-IsFaithful n token s h =
      attempt_once-Holds g size IsFaithful n token s h (λ status body reads is_cut e ok.
        let writes = w.well n _ status body reads is_cut e in
        let (rest, served) = v.front n _ status body reads is_cut e ok in
        (
          record {
            aligned = read_body-IsAligned _ size body reads is_cut s h.0.aligned;
            same = read_body-same size is_cut _ body reads s writes h.0.same;
          },
          read_body-front size is_cut _ body rest reads s blob writes
              (served_next blob body rest s h.0.aligned.counted h.1 served),
        ))

-- A front as long as the whole is the whole.
front_whole : {blob : Bytes} (a rest : Bytes) → blob ≡ a ++ rest → length a ≡ length blob → a ≡ blob
front_whole a [] e l = sym (e ∙ append-nil a)
front_whole a (x ∷ rest) e l =
    absurd (omega (arith, ap (length {A = ℕ}) e, length-append a (x ∷ rest)))

no_progress-IsExact : (size : ℕ) → IsExact size no_progress
no_progress-IsExact size = record {
  aligned = record { counted = refl; bounded = omega arith };
  same = refl;
}

finish-zero :
    (sha256 : Bytes → Text) (size : ℕ) (digest : Text) (s : Progress)
    → finish sha256 size digest s ≡ 0
    → (s.offset ≡ size) × (codes "sha256:" ++ sha256 s.hashed ≡ digest)
unfolding finish
finish-zero sha256 size digest s h =
    ground (arith, text_eq→≡ (codes "sha256:" ++ sha256 s.hashed) digest)

module _ (sha256 : Bytes → Text) (g : Registry) (size : ℕ) (digest : Text) where
  -- What holds before the first attempt and is kept by each holds at the end.
  stream_blob-keeps :
      (P : Progress → Type 0)
      → P no_progress
      → ((n : ℕ) (token : Text) (s : Progress) → P s → Holds P (attempt_once g size n token s))
      → P (stream_blob sha256 g size digest).progress
  unfolding stream_blob
  stream_blob-keeps P start keep = elim (Option-cases (g.bearer 0)) [
    | inl e ↦ rw (e, stream_blob) start
    | inr (token, e) ↦
        rw (e, stream_blob)
          (attempt_loop-keeps sha256 g size digest P keep max_attempts 0 0 token no_progress start)
  ]

  stream_blob-finish :
      (stream_blob sha256 g size digest).exit ≡ returned 0
      → finish sha256 size digest (stream_blob sha256 g size digest).progress ≡ 0
  unfolding stream_blob
  stream_blob-finish = elim (Option-cases (g.bearer 0)) [
    | inl e ↦ rw (e, stream_blob) (λ h. absurd (cc))
    | inr (token, e) ↦
        rw (e, stream_blob)
          (attempt_loop-finish sha256 g size digest max_attempts 0 0 token no_progress)
  ]

  -- Status 0, with writes that go well: standard output has as many bytes as the size says, and
  -- they have the digest.
  pub stream_blob-verified :
      NoBrokenWrite g
      → (stream_blob sha256 g size digest).exit ≡ returned 0
      → (length (stream_blob sha256 g size digest).progress.out ≡ size)
        × (codes "sha256:" ++ sha256 (stream_blob sha256 g size digest).progress.out ≡ digest)
  stream_blob-verified w h =
      let exact =
        stream_blob-keeps (IsExact size) (no_progress-IsExact size)
          (attempt_once-IsExact g size w) in
      let tested = finish-zero sha256 size digest _ (stream_blob-finish h) in
      rw exact.same (omega (arith, exact.aligned.counted, tested.0), tested.1)

  -- From a registry that serves the blob, with writes that go well, standard output has a front of the blob however the run
  -- ends, resumed or not; with status 0 it has the whole blob, if the size is the blob's.
  pub stream_blob-faithful :
      (blob : Bytes)
      → NoBrokenWrite g
      → Serves g blob
      → length blob ≡ size
      → ((rest : Bytes) × (blob ≡ (stream_blob sha256 g size digest).progress.out ++ rest))
        × ((stream_blob sha256 g size digest).exit ≡ returned 0
            → (stream_blob sha256 g size digest).progress.out ≡ blob)
  stream_blob-faithful blob w v whole =
      let kept =
        stream_blob-keeps (IsFaithful g size w blob v) (no_progress-IsExact size, (blob, refl))
          (attempt_once-IsFaithful g size w blob v) in
      let (rest, front) = kept.1 in
      (
        rw kept.0.same (rest, front),
        λ h. front_whole _ rest (rw kept.0.same front) ((stream_blob-verified w h).0 ∙ sym whole),
      )

  -- Where the offset has reached the end of a blob that is served, hash and output have the blob.
  pub stream_blob-whole :
      (blob : Bytes)
      → NoBrokenWrite g
      → Serves g blob
      → length blob ≡ size
      → (stream_blob sha256 g size digest).progress.offset ≡ size
      → ((stream_blob sha256 g size digest).progress.hashed ≡ blob)
        × ((stream_blob sha256 g size digest).progress.out ≡ blob)
  stream_blob-whole blob w v whole full =
      let kept =
        stream_blob-keeps (IsFaithful g size w blob v) (no_progress-IsExact size, (blob, refl))
          (attempt_once-IsFaithful g size w blob v) in
      let all =
        front_whole _ kept.1.0 kept.1.1 (omega (arith, kept.0.aligned.counted, whole, full)) in
      (all, kept.0.same ∙ all)

pub finish-blob :
    (sha256 : Bytes → Text) (size : ℕ) (blob : Bytes) (s : Progress)
    → s.offset ≡ size
    → s.hashed ≡ blob
    → finish sha256 size (codes "sha256:" ++ sha256 blob) s ≡ 0
unfolding finish
finish-blob sha256 size blob s full e =
    rw (full, e) (rw (==_self size, text_eq_self (codes "sha256:" ++ sha256 blob)) refl)
