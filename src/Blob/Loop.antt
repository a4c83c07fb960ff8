-- ===== src/Blob/Loop.antt =====
-- scripts/ghcr-blob-stream.py: what the attempts keep, and how the loop over them ends.
use xfce_linux.Base.{
  ℕ, zero, suc, ◌+◌, ◌≤◌, ◌≡◌, true, false, Text, ltb, arith, Bool-cases, Option-cases, inl, inr,
}
use xfce_linux.Blob.Download.{
  Bytes, Registry, Progress, Attempt, again, cannot_resume, no_token, attempt_once, Outcome,
  returned, attempt_loop, stream_blob, finish, after_attempt, pause, max_attempts, no_progress,
}

abbrev pub Holds : (Progress → Type 0) → Attempt → Type 0
Holds P (again paused token s) = P s
Holds P (cannot_resume s) = P s
Holds P (no_token s) = P s

-- The longest pauses after `left` attempts that follow attempt `n`.
abbrev pauses : ℕ → ℕ → ℕ
pauses zero n = 0
pauses (suc left) n = pause (suc n) + pauses left (suc n)

module _ (sha256 : Bytes → Text) (g : Registry) (size : ℕ) (digest : Text) where
  abbrev pub run : ℕ → ℕ → ℕ → Text → Progress → Outcome
  run = attempt_loop sha256 g size digest

  after_attempt-keeps :
      (P : Progress → Type 0) (go : ℕ → Text → Progress → Outcome)
      → ((slept : ℕ) (token : Text) (s : Progress) → P s → P (go slept token s).progress)
      → (n slept : ℕ) (a : Attempt) → Holds P a
      → P (after_attempt go n slept a).progress
  after_attempt-keeps P go keep n slept (again paused token s) h = keep _ token s h
  after_attempt-keeps P go keep n slept (cannot_resume s) h = h
  after_attempt-keeps P go keep n slept (no_token s) h = h

  after_attempt-finish :
      (go : ℕ → Text → Progress → Outcome)
      → ((slept : ℕ) (token : Text) (s : Progress)
          → (go slept token s).exit ≡ returned 0
          → finish sha256 size digest (go slept token s).progress ≡ 0)
      → (n slept : ℕ) (a : Attempt) → (after_attempt go n slept a).exit ≡ returned 0
      → finish sha256 size digest (after_attempt go n slept a).progress ≡ 0
  after_attempt-finish go keep n slept (again paused token s) h = keep _ token s h
  after_attempt-finish go keep n slept (cannot_resume s) h = absurd (ground arith)
  after_attempt-finish go keep n slept (no_token s) h = absurd (cc)

  -- What every attempt keeps holds of the outcome.
  pub attempt_loop-keeps :
      (P : Progress → Type 0)
      → ((n : ℕ) (token : Text) (s : Progress) → P s → Holds P (attempt_once g size n token s))
      → (left n slept : ℕ) (token : Text) (s : Progress) → P s
      → P (run left n slept token s).progress
  unfolding attempt_loop
  attempt_loop-keeps P keep zero n slept token s h = elim (Bool-cases (ltb s.offset size)) [
    | inl e ↦ rw e h
    | inr e ↦ rw e h
  ]
  attempt_loop-keeps P keep (suc left) n slept token s h = elim (Bool-cases (ltb s.offset size)) [
    | inr e ↦ rw e h
    | inl e ↦ rw e (
        after_attempt-keeps P (run left (suc n))
          (λ slept' token' s' h'. attempt_loop-keeps P keep left (suc n) slept' token' s' h')
          (suc n) slept (attempt_once g size (suc n) token s) (keep (suc n) token s h))
  ]

  -- The status 0 comes from the tests after the loop.
  pub attempt_loop-finish :
      (left n slept : ℕ) (token : Text) (s : Progress)
      → (run left n slept token s).exit ≡ returned 0
      → finish sha256 size digest (run left n slept token s).progress ≡ 0
  unfolding attempt_loop
  attempt_loop-finish zero n slept token s h = elim (Bool-cases (ltb s.offset size)) [
    | inl e ↦ absurd (ground arith)
    | inr e ↦ rw e (ground arith)
  ]
  attempt_loop-finish (suc left) n slept token s h = elim (Bool-cases (ltb s.offset size)) [
    | inr e ↦ rw e (let h' = rw e at h in ground arith)
    | inl e ↦ rw e (
        after_attempt-finish (run left (suc n))
          (λ slept' token' s'. attempt_loop-finish left (suc n) slept' token' s') (suc n) slept
          (attempt_once g size (suc n) token s) (rw e at h))
  ]

  after_attempt-waits :
      (go : ℕ → Text → Progress → Outcome) (left n : ℕ)
      → ((slept : ℕ) (token : Text) (s : Progress)
          → ((go slept token s).attempts ≤ n + left)
            × ((go slept token s).slept ≤ slept + pauses left n))
      → (slept : ℕ) (a : Attempt)
      → ((after_attempt go n slept a).attempts ≤ n + left)
        × ((after_attempt go n slept a).slept ≤ slept + pause n + pauses left n)
  after_attempt-waits go left n keep slept (again true token s) = keep (slept + pause n) token s
  after_attempt-waits go left n keep slept (again false token s) = omega (arith, keep slept token s)
  after_attempt-waits go left n keep slept (cannot_resume s) = omega arith
  after_attempt-waits go left n keep slept (no_token s) = omega arith

  -- At most the attempts that are left are made, and the pauses after them slept.
  attempt_loop-waits :
      (left n slept : ℕ) (token : Text) (s : Progress)
      → ((run left n slept token s).attempts ≤ n + left)
        × ((run left n slept token s).slept ≤ slept + pauses left n)
  unfolding attempt_loop
  attempt_loop-waits zero n slept token s = elim (Bool-cases (ltb s.offset size)) [
    | inl e ↦ rw e (omega arith)
    | inr e ↦ rw e (omega arith)
  ]
  attempt_loop-waits (suc left) n slept token s = elim (Bool-cases (ltb s.offset size)) [
    | inr e ↦ rw e (omega arith)
    | inl e ↦ rw e (
        let w =
          after_attempt-waits (run left (suc n)) left (suc n)
            (λ slept' token' s'. attempt_loop-waits left (suc n) slept' token' s') slept
            (attempt_once g size (suc n) token s) in
        omega (arith, w))
  ]

  -- However the registry answers, at most 40 attempts are made, with 990 seconds of pauses.
  pub stream_blob-waits :
      ((stream_blob sha256 g size digest).attempts ≤ 40)
      × ((stream_blob sha256 g size digest).slept ≤ 990)
  unfolding stream_blob
  stream_blob-waits = elim (Option-cases (g.bearer 0)) [
    | inl e ↦ rw (e, stream_blob) (omega arith)
    | inr (token, e) ↦
        rw (e, stream_blob) (omega (arith, attempt_loop-waits max_attempts 0 0 token no_progress))
  ]
