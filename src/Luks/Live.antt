-- ===== src/Luks/Live.antt =====
-- xfce-linux/src/luks-unlock.py: how `run_wait_live` ends, and the screenshot that it leaves.
use xfce_linux.Base.{
  ℕ, zero, suc, ◌+◌, ◌*◌, ◌≤◌, ◌≡◌, ◌≢◌, refl, subst, true, Text, ltb, leb, text_eq, text_eq→≡,
  arith, Bool-cases, inl, inr,
}
use xfce_linux.Luks.Screen.{
  Bytes, Dump, dump_raised, no_frame, frame, qemu_screendump, as_bright, hash_of,
}
use xfce_linux.Luks.Exits.{returned, raised, prompt_rounds}
use xfce_linux.Luks.WaitLive.{
  Sight, Copy, writes, keeps, cuts, Saved, before_run, cut_copy, copied, save_copy, Live,
  no_warning, Ending, Glance, settled, looks_on, breaks, if_settled, glance_frame, glance_at,
  glance, after_glance, give_up, live_loop, run_wait_live,
}

module _ (md5 : Bytes → Text) (sights : ℕ → Sight) where
  abbrev pub sight_at : ℕ → Dump
  sight_at n = qemu_screendump md5 (sights n).shot

  -- The round shows a frame of this digest with a brightness of 1.5 at least.
  abbrev pub IsBright : Text → ℕ → Type 0
  IsBright h n = (hash_of (sight_at n) ≡ h) × (as_bright 3 2 (sight_at n) ≡ true)

  -- The screenshot is as it was before, a bright frame, or a part of one, whose copy raised when the
  -- target was truncated.
  pub data IsSaved : Saved → Type 0 where
    untouched : IsSaved before_run
    whole : (n : ℕ) → as_bright 3 2 (sight_at n) ≡ true → IsSaved (copied (sight_at n))
    part : (n : ℕ) → as_bright 3 2 (sight_at n) ≡ true → (sights n).copy ≡ cuts → IsSaved cut_copy

  -- Two rounds on end show the same bright frame.
  abbrev pub IsSettled : Type 0
  IsSettled = (k : ℕ) × (h : Text) × IsBright h k × IsBright h (suc k)

  record IsKept (n : ℕ) (v : Live) : Type 0 where
    saved : IsSaved v.saved
    last : 1 ≤ v.stable → (k : ℕ) × (n ≡ suc k) × IsBright v.prev_hash k
    two : 2 ≤ v.stable → IsSettled

  -- The ways to end.
  pub data LiveEnds (e : Ending) : Type 0 where
    shown : e.exit ≡ returned → e.warning ≡ no_warning → IsSettled → LiveEnds e
    given_up : e.exit ≡ returned → e.warning ≢ no_warning → LiveEnds e
    broken : e.exit ≡ raised → LiveEnds e

  abbrev GlanceKept : ℕ → Glance → Type 0
  GlanceKept n (settled v) = IsSaved v.saved × IsSettled
  GlanceKept n (looks_on v) = IsKept (suc n) v
  GlanceKept n (breaks v) = IsSaved v.saved

  if_settled-Kept : (n : ℕ) (v : Live) → IsKept (suc n) v → GlanceKept n (if_settled v)
  if_settled-Kept n v h = elim (Bool-cases (leb 2 v.stable)) [
    | inl e ↦ rw e (h.saved, h.two (ground arith))
    | inr e ↦ rw e h
  ]

  save :
      (n : ℕ) (c : Copy) (old : Saved)
      → (sights n).copy ≡ c
      → as_bright 3 2 (sight_at n) ≡ true
      → IsSaved old
      → IsSaved (save_copy c (sight_at n) old)
  save n writes old e b h = whole n b
  save n keeps old e b h = h
  save n cuts old e b h = part n b e

  glance_frame-Kept :
      (n : ℕ) (v : Live) → IsKept n v → GlanceKept n (glance_frame (sight_at n) (sights n).copy v)
  glance_frame-Kept n v h = elim (Bool-cases (as_bright 3 2 (sight_at n))) [
    | inr e ↦ rw e (record {
      saved = h.saved;
      last = λ s. absurd (omega arith);
      two = λ s. absurd (omega arith);
    })
    | inl e ↦ rw e (
        if_settled-Kept n _ (elim (Bool-cases (text_eq (hash_of (sight_at n)) v.prev_hash)) [
          | inr f ↦ rw f (record {
            saved = save n (sights n).copy v.saved refl e h.saved;
            last = λ s. absurd (omega arith);
            two = λ s. absurd (omega arith);
          })
          | inl f ↦ rw f (record {
            saved = save n (sights n).copy v.saved refl e h.saved;
            last = λ s. (n, refl, (refl, e));
            two = λ s.
                let (k, l, b) = h.last (omega arith) in
                let p = text_eq→≡ (hash_of (sight_at n)) v.prev_hash f in
                (k, v.prev_hash, b, subst (IsBright v.prev_hash) l (p, e));
          })
        ]))
  ]

  glance_at-Kept :
      (n : ℕ) (v : Live) (d : Dump)
      → sight_at n ≡ d
      → IsKept n v
      → GlanceKept n (glance_at d (sights n).copy v)
  glance_at-Kept n v dump_raised e h = h.saved
  glance_at-Kept n v no_frame e h = record {
    saved = h.saved;
    last = λ s. absurd (omega arith);
    two = λ s. absurd (omega arith);
  }
  glance_at-Kept n v (frame t c x) e h =
      subst (λ d. GlanceKept n (glance_frame d (sights n).copy v)) e (glance_frame-Kept n v h)

  abbrev Ends : Ending → Type 0
  Ends e = LiveEnds e × IsSaved e.live.saved

  after_glance-Ends :
      (go : ℕ → Live → Ending) (n now : ℕ) (p : Sight)
      → ((now' : ℕ) (v : Live) → now + 3000 ≤ now' → IsKept (suc n) v → Ends (go now' v))
      → (r : Glance) → GlanceKept n r
      → Ends (after_glance go now p r)
  after_glance-Ends go n now p keep (settled v) (h, two) = (shown refl refl two, h)
  after_glance-Ends go n now p keep (looks_on v) h = keep _ v (ground arith) h
  after_glance-Ends go n now p keep (breaks v) h = (broken refl, h)

  give_up-Ends : (n : ℕ) (v : Live) → IsKept n v → Ends (give_up v)
  give_up-Ends n v h = (given_up refl (λ x. ground arith), h.saved)

  live_loop-Ends :
      (fuel n now timeout : ℕ) (v : Live)
      → timeout ≤ now + 3000 * fuel
      → IsKept n v
      → Ends (live_loop md5 sights fuel n now timeout v)
  unfolding live_loop glance
  live_loop-Ends zero n now timeout v h k = elim (Bool-cases (ltb now timeout)) [
    | inl e ↦ absurd (ground arith)
    | inr e ↦ rw e (give_up-Ends n v k)
  ]
  live_loop-Ends (suc fuel) n now timeout v h k = elim (Bool-cases (ltb now timeout)) [
    | inr e ↦ rw e (give_up-Ends n v k)
    | inl e ↦ rw e (
        after_glance-Ends (λ now' v'. live_loop md5 sights fuel (suc n) now' timeout v') n now
          (sights n)
          (λ now' v' l h'. live_loop-Ends fuel (suc n) now' timeout v' (omega (arith, h, l)) h')
          (glance md5 (sights n) v) (glance_at-Kept n v _ refl k))
  ]

  -- The wait ends: without a warning only if two rounds on end showed the same frame of brightness
  -- 1.5 or more, else with a warning or by an exception. The screenshot is a frame as bright as that,
  -- or a part of one if a copy raised after it had begun, or as it was before.
  pub run_wait_live-LiveEnds :
      (start : ℕ)
      → LiveEnds (run_wait_live md5 sights start)
        × IsSaved (run_wait_live md5 sights start).live.saved
  unfolding run_wait_live
  run_wait_live-LiveEnds start = live_loop-Ends prompt_rounds 0 start _ _ (ground arith) (record {
    saved = untouched;
    last = λ s. absurd (omega arith);
    two = λ s. absurd (omega arith);
  })
