-- ===== src/Luks/Prompt.antt =====
-- xfce-linux/src/luks-unlock.py: what the first loop of `run_qemu` has seen when the keys are sent.
use xfce_linux.Base.{
  ℕ, zero, suc, ◌≤◌, ◌<◌, ◌≡◌, ◌≢◌, refl, true, false, Text, [], ltb, leb, text_eq, text_eq→≡, ◌||◌,
  ◌&&◌, arith, Bool-cases, inl, inr, some, none, Option, subst, ap, sym,
}
use xfce_linux.Luks.Screen.{Bytes, Dump, dump_raised, no_frame, frame, qemu_screendump, brighter}
use xfce_linux.Luks.Serial.{
  Marker, qemu_check_serial, emergency, initial_setup, gdm, plymouth, nothing,
}
use xfce_linux.Luks.Exits.{prompt_rounds}
use xfce_linux.Luks.Qemu.{
  Machine, Poll, Watch, Round, sends, waits, raises, prompt_round, Prompt, found, never,
  prompt_raised, by_frame, by_serial, by_marker, if_stable, watch_frame, prompt_fuel, after_round,
  prompt_loop, after_prompt, run_qemu, at_first,
}

-- A frame with this digest.
abbrev pub IsFrame : Text → Dump → Type 0
IsFrame h d = (t : ℕ) × (c : ℕ) × (d ≡ frame t c h)

module _ (md5 : Bytes → Text) (m : Machine) where
  -- What the screendump of a round before the passphrase returns.
  abbrev pub dump_at : ℕ → Dump
  dump_at n = qemu_screendump md5 (m.before n).shot

  abbrev pub BrightBy : ℕ → Type 0
  BrightBy n = (j : ℕ) × (j ≤ n) × (brighter 1 2 (dump_at j) ≡ true)

  -- The reasons to type in a round: the serial log has the prompt, or this frame is the one before,
  -- and a frame was bright.
  pub data IsDue (n : ℕ) : Type 0 where
    by_log : qemu_check_serial (m.before n).serial ≡ some plymouth → IsDue n
    by_screen :
        (k : ℕ) (h : Text)
        → n ≡ suc k
        → IsFrame h (dump_at n)
        → IsFrame h (dump_at k)
        → BrightBy n
        → IsDue n

  -- What the variables tell of the rounds so far.
  record IsSeen (n : ℕ) (w : Watch) : Type 0 where
    dark : w.had_content ≡ false → w.stable ≡ 0
    bright : w.had_content ≡ true → (j : ℕ) × (j < n) × (brighter 1 2 (dump_at j) ≡ true)
    last : 1 ≤ w.stable → (k : ℕ) × (n ≡ suc k) × IsFrame w.prev_hash (dump_at k)
    last_two :
        2 ≤ w.stable
        → (k : ℕ) × (n ≡ suc (suc k))
          × IsFrame w.prev_hash (dump_at (suc k))
          × IsFrame w.prev_hash (dump_at k)

  abbrev RoundSeen : ℕ → Round → Type 0
  RoundSeen n (sends w) = IsDue n
  RoundSeen n (waits w) = IsSeen (suc n) w
  RoundSeen n raises = Unit

  later_bright :
      (n : ℕ) (w : Watch)
      → IsSeen n w
      → w.had_content ≡ true
      → (j : ℕ) × (j < suc n) × (brighter 1 2 (dump_at j) ≡ true)
  later_bright n w h e = let (j, l, b) = h.bright e in (j, omega arith, b)

  had_bright :
      (n : ℕ) (w : Watch) (t c : ℕ) (x : Text)
      → dump_at n ≡ frame t c x
      → IsSeen n w
      → (w.had_content || brighter 1 2 (frame t c x)) ≡ true
      → (j : ℕ) × (j < suc n) × (brighter 1 2 (dump_at j) ≡ true)
  had_bright n w t c x e h b = elim (Bool-cases w.had_content) [
    | inl had ↦ later_bright n w h had
    | inr had ↦ (n, omega arith, rw e (rw had at b))
  ]

  watch_frame-IsSeen :
      (n : ℕ) (w : Watch) (t c : ℕ) (x : Text)
      → dump_at n ≡ frame t c x
      → IsSeen n w
      → IsSeen (suc n) (watch_frame (frame t c x) w)
  unfolding watch_frame
  watch_frame-IsSeen n w t c x e h =
      elim (Bool-cases (w.had_content || brighter 1 2 (frame t c x))) [
        | inr dark ↦ rw dark (record {
          dark = λ d. h.dark d;
          bright = λ d. later_bright n w h d;
          last = λ s. absurd (let z = h.dark (ground arith) in omega arith);
          last_two = λ s. absurd (let z = h.dark (ground arith) in omega arith);
        })
        | inl had ↦ rw had (elim (Bool-cases (text_eq x w.prev_hash)) [
          | inr new ↦ rw new (record {
            dark = λ d. refl;
            bright = λ d. had_bright n w t c x e h had;
            last = λ s. absurd (omega arith);
            last_two = λ s. absurd (omega arith);
          })
          | inl same ↦ rw same (record {
            dark = λ d. absurd (cc);
            bright = λ d. had_bright n w t c x e h had;
            last = λ s. (n, refl, (t, c, e));
            last_two = λ s.
                let (k, l, f) = h.last (omega arith) in
                let p = text_eq→≡ x w.prev_hash same in
                (
                  k,
                  ap suc l,
                  (t, c, subst (λ i. dump_at i ≡ frame t c x) l e),
                  subst (λ y. IsFrame y (dump_at k)) (sym p) f,
                );
          })
        ])
      ]

  if_stable-Seen : (n : ℕ) (w : Watch) → IsSeen (suc n) w → RoundSeen n (if_stable w)
  if_stable-Seen n w h = elim (Bool-cases (w.had_content && leb 2 w.stable)) [
    | inr e ↦ rw e h
    | inl e ↦ rw e (
        let (k, l, f, g) = h.last_two (ground arith) in
        let (j, b, c) = h.bright (ground arith) in
        let p : n ≡ suc k = omega arith in
        by_screen k w.prev_hash p (subst (λ i. IsFrame w.prev_hash (dump_at i)) (sym p) f) g
          (j, omega arith, c))
  ]

  by_frame-Seen :
      (n : ℕ) (w : Watch) (d : Dump) → dump_at n ≡ d → IsSeen n w → RoundSeen n (by_frame d w)
  by_frame-Seen n w dump_raised e h = tt
  by_frame-Seen n w no_frame e h = record {
    dark = λ d. refl;
    bright = λ d. later_bright n w h d;
    last = λ s. absurd (omega arith);
    last_two = λ s. absurd (omega arith);
  }
  by_frame-Seen n w (frame t c x) e h = if_stable-Seen n _ (watch_frame-IsSeen n w t c x e h)

  by_serial-Seen : (n : ℕ) (w : Watch) (d : Dump) → IsDue n → RoundSeen n (by_serial d w)
  by_serial-Seen n w dump_raised h = tt
  by_serial-Seen n w no_frame h = h
  by_serial-Seen n w (frame t c x) h = h

  by_marker-Seen :
      (n : ℕ) (w : Watch) (k : Option Marker)
      → qemu_check_serial (m.before n).serial ≡ k
      → IsSeen n w
      → RoundSeen n (by_marker (dump_at n) w k)
  by_marker-Seen n w none e h = tt
  by_marker-Seen n w (some plymouth) e h = by_serial-Seen n w (dump_at n) (by_log e)
  by_marker-Seen n w (some emergency) e h = by_frame-Seen n w (dump_at n) refl h
  by_marker-Seen n w (some initial_setup) e h = by_frame-Seen n w (dump_at n) refl h
  by_marker-Seen n w (some gdm) e h = by_frame-Seen n w (dump_at n) refl h
  by_marker-Seen n w (some nothing) e h = by_frame-Seen n w (dump_at n) refl h

  abbrev IsFound : Prompt → Type 0
  IsFound (found n now w) = IsDue n
  IsFound never = Unit
  IsFound prompt_raised = Unit
  IsFound prompt_fuel = Unit

  after_round-Found :
      (go : ℕ → Watch → Prompt) (n now : ℕ) (p : Poll)
      → ((now' : ℕ) (w : Watch) → IsSeen (suc n) w → IsFound (go now' w))
      → (r : Round) → RoundSeen n r
      → IsFound (after_round go n now p r)
  after_round-Found go n now p keep (sends w) h = h
  after_round-Found go n now p keep (waits w) h = keep _ w h
  after_round-Found go n now p keep raises h = tt

  prompt_loop-Found :
      (fuel n now deadline : ℕ) (w : Watch)
      → IsSeen n w
      → IsFound (prompt_loop md5 m fuel n now deadline w)
  unfolding prompt_loop prompt_round
  prompt_loop-Found zero n now deadline w h = elim (Bool-cases (ltb now deadline)) [
    | inl e ↦ rw e tt
    | inr e ↦ rw e tt
  ]
  prompt_loop-Found (suc fuel) n now deadline w h = elim (Bool-cases (ltb now deadline)) [
    | inr e ↦ rw e tt
    | inl e ↦ rw e (
        after_round-Found (λ now' w'. prompt_loop md5 m fuel (suc n) now' deadline w') n now
          (m.before n) (λ now' w' h'. prompt_loop-Found fuel (suc n) now' deadline w' h')
          (prompt_round md5 (m.before n) w) (by_marker-Seen n w _ refl h))
  ]

  after_prompt-Due :
      (s : Text) (r : Prompt) → IsFound r → (after_prompt md5 m s r).sent ≢ [] → (n : ℕ) × IsDue n
  after_prompt-Due s (found n now w) h k = (n, h)
  after_prompt-Due s never h k = absurd (k refl)
  after_prompt-Due s prompt_raised h k = absurd (k refl)
  after_prompt-Due s prompt_fuel h k = absurd (k refl)

  -- A key is only sent after a round in which the serial log had Plymouth's prompt, or in which the
  -- frame was that of the round before and some frame so far had a brightness above a half.
  pub run_qemu-IsDue :
      (s : Text) (start : ℕ) → (run_qemu md5 m s start).sent ≢ [] → (n : ℕ) × IsDue n
  unfolding run_qemu
  run_qemu-IsDue s start k =
      after_prompt-Due s _
        (prompt_loop-Found prompt_rounds 0 start _ at_first (record {
          dark = λ d. refl;
          bright = λ d. absurd (cc);
          last = λ z. absurd (omega arith);
          last_two = λ z. absurd (omega arith);
        }))
        k
