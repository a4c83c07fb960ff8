-- ===== src/Luks/Booted.antt =====
-- xfce-linux/src/luks-unlock.py: what the second loop of `run_qemu` has seen when it exits with 0.
use xfce_linux.Base.{
  ℕ, zero, suc, ◌+◌, ◌≤◌, ◌<◌, ◌≡◌, ◌≢◌, refl, sym, ◌∙◌, subst, true, Bool, Text, ltb, leb, text_eq,
  text_eq→≡, text_eq_self, ◌||◌, not, arith, Bool-cases, inl, inr, some, none, Option,
  if◌then◌else◌, length,
}
use xfce_linux.Luks.Keys.{qemu_send_passphrase}
use xfce_linux.Luks.Screen.{
  Bytes, Dump, dump_raised, no_frame, frame, qemu_screendump, brighter, hash_of,
}
use xfce_linux.Luks.Serial.{
  Marker, qemu_check_serial, emergency, initial_setup, gdm, plymouth, nothing,
}
use xfce_linux.Luks.Exits.{Exit, exited, boot_rounds, prompt_rounds, prompt_deadline}
use xfce_linux.Luks.Qemu.{
  Machine, Poll, found, Boot, BootRound, stops, goes_on, boot_round, boot_marker, boot_screen,
  boot_seen, if_raised, after_boot_round, boot_loop, watch_boot, send_and_watch, run_qemu, Watch,
  prompt_loop, at_first,
}

module _ (md5 : Bytes → Text) (m : Machine) where
  -- What the screendump of a round after the passphrase returns.
  abbrev pub screen_at : ℕ → Dump
  screen_at n = qemu_screendump md5 (m.after n).shot

  abbrev pub ChangedBy : Text → ℕ → Type 0
  ChangedBy h n = (j : ℕ) × (j ≤ n) × (hash_of (screen_at j) ≢ h)

  -- The reasons to exit with 0 after a round: the serial log names the display manager or the first
  -- setup, or the screen is brighter than 1.8, as in the round before, and changed since `h`.
  pub data IsBooted (h : Text) (n : ℕ) : Type 0 where
    by_setup : qemu_check_serial (m.after n).serial ≡ some initial_setup → IsBooted h n
    by_gdm : qemu_check_serial (m.after n).serial ≡ some gdm → IsBooted h n
    by_bright :
        (k : ℕ)
        → n ≡ suc k
        → brighter 18 10 (screen_at n) ≡ true
        → hash_of (screen_at n) ≡ hash_of (screen_at k)
        → ChangedBy h n
        → IsBooted h n

  -- The digest of the round before, and whether the screen changed.
  abbrev hash_before : Text → ℕ → Text
  hash_before h zero = h
  hash_before h (suc k) = hash_of (screen_at k)

  record IsTracked (h : Text) (n : ℕ) (b : Boot) : Type 0 where
    prev : b.prev_hash ≡ hash_before h n
    changed : b.screen_changed ≡ true → (j : ℕ) × (j < n) × (hash_of (screen_at j) ≢ h)

  abbrev RoundTracked : Text → ℕ → BootRound → Type 0
  RoundTracked h n (stops e) = e ≡ exited 0 → IsBooted h n
  RoundTracked h n (goes_on b) = IsTracked h (suc n) b

  changed_by :
      (h : Text) (n : ℕ) (b : Boot)
      → IsTracked h n b
      → (b.screen_changed || not (text_eq (hash_of (screen_at n)) h)) ≡ true
      → ChangedBy h n
  changed_by h n b t e = elim (Bool-cases b.screen_changed) [
    | inl c ↦ let (j, l, d) = t.changed c in (j, omega arith, d)
    | inr c ↦ (n, omega arith, λ p. let q = rw (c, p, text_eq_self h) at e in absurd (cc))
  ]

  bright_of : (t : Bool) → exited (if t then 0 else 2) ≡ exited 0 → t ≡ true
  bright_of t h = ground arith

  stop-IsBooted :
      (h : Text) (n : ℕ) (b : Boot)
      → IsTracked h n b
      → ChangedBy h n
      → text_eq (hash_of (screen_at n)) b.prev_hash ≡ true
      → brighter 18 10 (screen_at n) ≡ true
      → IsBooted h n
  stop-IsBooted h zero b t (j, l, d) same bright = absurd (
      d (
        let z : j ≡ 0 = omega arith in
        subst (λ i. hash_of (screen_at i) ≡ h) (sym z) (text_eq→≡ _ _ same ∙ t.prev)))
  stop-IsBooted h (suc k) b t c same bright =
      by_bright k refl bright (text_eq→≡ _ _ same ∙ t.prev) c

  one_stable : (n : ℕ) → leb 1 (n + 1) ≡ true
  one_stable n = ground arith

  boot_screen-Tracked :
      (h : Text) (n : ℕ) (b : Boot)
      → IsTracked h n b
      → RoundTracked h n (boot_screen h (screen_at n) b)
  boot_screen-Tracked h n b t =
      let changed = b.screen_changed || not (text_eq (hash_of (screen_at n)) h) in
      let same = text_eq (hash_of (screen_at n)) b.prev_hash in
      elim (Bool-cases changed) [
        | inr c ↦ rw c (record { prev = refl; changed = λ e. absurd (cc) })
        | inl c ↦ rw c (elim (Bool-cases same) [
          | inl e ↦
              rw (e, one_stable b.stable)
                (λ z. stop-IsBooted h n b t (changed_by h n b t c) e (bright_of _ z))
          | inr e ↦ rw e (record {
            prev = refl;
            changed = λ z. let (j, l, d) = changed_by h n b t c in (j, omega arith, d);
          })
        ])
      ]

  no_stop : (h : Text) (n : ℕ) (e : Exit) → e ≢ exited 0 → RoundTracked h n (stops e)
  no_stop h n e d z = absurd (d z)

  boot_seen-Tracked : (h : Text) (n : ℕ) (d : Dump) → IsBooted h n → RoundTracked h n (boot_seen d)
  boot_seen-Tracked h n dump_raised k = λ z. k
  boot_seen-Tracked h n no_frame k = λ z. k
  boot_seen-Tracked h n (frame t c x) k = λ z. k

  if_raised-Tracked :
      (h : Text) (n : ℕ) (d : Dump) (r : BootRound)
      → RoundTracked h n r
      → RoundTracked h n (if_raised d r)
  if_raised-Tracked h n dump_raised r k = λ z. absurd (cc)
  if_raised-Tracked h n no_frame r k = k
  if_raised-Tracked h n (frame t c x) r k = k

  boot_marker-Tracked :
      (h : Text) (n : ℕ) (e : Dump) (b : Boot) (k : Option Marker)
      → qemu_check_serial (m.after n).serial ≡ k
      → IsTracked h n b
      → RoundTracked h n (boot_marker h (screen_at n) e b k)
  boot_marker-Tracked h n e b none q t = λ z. absurd (cc)
  boot_marker-Tracked h n e b (some emergency) q t = λ z. absurd (ground arith)
  boot_marker-Tracked h n e b (some initial_setup) q t =
      if_raised-Tracked h n _ _ (boot_seen-Tracked h n e (by_setup q))
  boot_marker-Tracked h n e b (some gdm) q t =
      if_raised-Tracked h n _ _ (boot_seen-Tracked h n e (by_gdm q))
  boot_marker-Tracked h n e b (some plymouth) q t =
      if_raised-Tracked h n _ _ (boot_screen-Tracked h n b t)
  boot_marker-Tracked h n e b (some nothing) q t =
      if_raised-Tracked h n _ _ (boot_screen-Tracked h n b t)

  abbrev Booted : Text → Type 0
  Booted h = (n : ℕ) × IsBooted h n

  after_boot_round-Booted :
      (h : Text) (go : ℕ → Boot → Exit) (n now : ℕ) (p : Poll)
      → ((now' : ℕ) (b : Boot) → IsTracked h (suc n) b → go now' b ≡ exited 0 → Booted h)
      → (r : BootRound) → RoundTracked h n r
      → after_boot_round go now p r ≡ exited 0
      → Booted h
  after_boot_round-Booted h go n now p keep (stops e) t z = (n, t z)
  after_boot_round-Booted h go n now p keep (goes_on b) t z = keep _ b t z

  boot_loop-Booted :
      (h : Text) (fuel n now deadline : ℕ) (b : Boot)
      → IsTracked h n b
      → boot_loop md5 m h fuel n now deadline b ≡ exited 0
      → Booted h
  unfolding boot_loop boot_round
  boot_loop-Booted h zero n now deadline b t z = absurd (ground arith)
  boot_loop-Booted h (suc fuel) n now deadline b t z = elim (Bool-cases (ltb now deadline)) [
    | inr e ↦ absurd (ground arith)
    | inl e ↦
        after_boot_round-Booted h (λ now' b'. boot_loop md5 m h fuel (suc n) now' deadline b') n now
          (m.after n) (λ now' b' t' z'. boot_loop-Booted h fuel (suc n) now' deadline b' t' z')
          (boot_round md5 h (m.after n) b) (boot_marker-Tracked h n _ b _ refl t) (rw e at z)
  ]

  watch_boot-Booted : (h : Text) (now : ℕ) → watch_boot md5 m h now ≡ exited 0 → Booted h
  watch_boot-Booted h now z =
      boot_loop-Booted h boot_rounds 0 now _ _ (record { prev = refl; changed = λ e. absurd (cc) })
        z

  send_and_watch-Booted :
      (s : Text) (w : Watch) (now : ℕ) (k : Option ℕ)
      → (send_and_watch md5 m s w now k).exit ≡ exited 0
      → Booted w.prev_hash
  send_and_watch-Booted s w now none z = watch_boot-Booted w.prev_hash _ z
  send_and_watch-Booted s w now (some k) z =
      elim (Bool-cases (ltb k (length (qemu_send_passphrase s)))) [
        | inl e ↦ absurd (let y = rw e at z in cc)
        | inr e ↦ watch_boot-Booted w.prev_hash _ (rw e at z)
      ]

  -- Status 0 means that after the passphrase the serial log named the display manager or the first
  -- setup, or that two rounds on end showed the same screen, the second brighter than 1.8, after the
  -- digest had been another than the one that the first loop kept.
  pub run_qemu-Booted :
      (s : Text) (start n now : ℕ) (w : Watch)
      → prompt_loop md5 m prompt_rounds 0 start (start + prompt_deadline) at_first ≡ found n now w
      → (run_qemu md5 m s start).exit ≡ exited 0
      → (k : ℕ) × IsBooted w.prev_hash k
  unfolding run_qemu
  run_qemu-Booted s start n now w e z = send_and_watch-Booted s w now m.stuck_key (rw e at z)
