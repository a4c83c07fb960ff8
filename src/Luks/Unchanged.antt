-- ===== src/Luks/Unchanged.antt =====
-- xfce-linux/src/luks-unlock.py: a run of `run_qemu` whose screen never changes.
use xfce_linux.Base.{
  ℕ, ◌+◌, ◌<◌, ◌≡◌, refl, true, false, Text, [], text_eq, text_eq_self, arith, some, none,
  if◌then◌else◌, lt→ltb,
}
use xfce_linux.Luks.Keys.{qemu_send_passphrase}
use xfce_linux.Luks.Screen.{Bytes, frame, qemu_screendump, brighter}
use xfce_linux.Luks.Serial.{qemu_check_serial, plymouth}
use xfce_linux.Luks.Exits.{exited, prompt_rounds, prompt_deadline}
use xfce_linux.Luks.Qemu.{
  Machine, at_first, sends, prompt_round, found, prompt_loop, stops, goes_on, boot_round, boot_loop,
  watch_boot, run_qemu,
}

module _ (md5 : Bytes → Text) (m : Machine) (t c : ℕ) (x : Text) where
  prompt_round-by_log :
      qemu_check_serial (m.before 0).serial ≡ some plymouth
      → qemu_screendump md5 (m.before 0).shot ≡ frame t c x
      → prompt_round md5 (m.before 0) at_first ≡ sends at_first
  unfolding prompt_round
  prompt_round-by_log e f = rw (e, f) refl

  boot_round-first :
      (text_eq x [] ≡ false)
      → qemu_check_serial (m.after 0).serial ≡ some plymouth
      → qemu_screendump md5 (m.after 0).shot ≡ frame t c x
      → boot_round md5 []
          (m.after 0)
          (record { screen_changed = false; stable = 0; prev_hash = [] })
        ≡ goes_on (record { screen_changed = true; stable = 0; prev_hash = x })
  unfolding boot_round
  boot_round-first n e f = rw (e, f, n) refl

  boot_round-second :
      qemu_check_serial (m.after 1).serial ≡ some plymouth
      → qemu_screendump md5 (m.after 1).shot ≡ frame t c x
      → boot_round md5 [] (m.after 1) (record { screen_changed = true; stable = 0; prev_hash = x })
        ≡ stops (exited (if brighter 18 10 (frame t c x) then 0 else 2))
  unfolding boot_round
  boot_round-second e f = rw (e, f, text_eq_self x) refl

  prompt_loop-by_log :
      (start : ℕ)
      → prompt_round md5 (m.before 0) at_first ≡ sends at_first
      → prompt_loop md5 m prompt_rounds 0 start (start + prompt_deadline) at_first
        ≡ found 0 (start + (m.before 0).takes + 500 + 10000) at_first
  unfolding prompt_loop
  prompt_loop-by_log start e = rw (lt→ltb start (start + 300000) (omega arith), e) refl

  boot_loop-second :
      (now : ℕ)
      → (m.after 0).takes < 294500
      → boot_round md5 []
          (m.after 0)
          (record { screen_changed = false; stable = 0; prev_hash = [] })
        ≡ goes_on (record { screen_changed = true; stable = 0; prev_hash = x })
      → boot_round md5 [] (m.after 1) (record { screen_changed = true; stable = 0; prev_hash = x })
        ≡ stops (exited (if brighter 18 10 (frame t c x) then 0 else 2))
      → watch_boot md5 m [] now ≡ exited (if brighter 18 10 (frame t c x) then 0 else 2)
  unfolding boot_loop
  boot_loop-second now l e f =
      rw
        (
          lt→ltb now (now + 300000) (omega arith),
          e,
          lt→ltb (now + (m.after 0).takes + 500 + 5000) (now + 300000) (omega (arith, l)),
          f,
        )
        refl

  -- If no key gets stuck, the serial log has the prompt in the first round and tells of nothing later
  -- in any round, every screendump is one frame with a digest, and the first round after the keys
  -- takes less than 294.5 seconds, the run takes the screen for changed: it exits after the second
  -- round after the keys, by the brightness of the frame.
  pub run_qemu-unchanged :
      (s : Text) (start : ℕ)
      → m.stuck_key ≡ none
      → text_eq x [] ≡ false
      → (m.after 0).takes < 294500
      → qemu_check_serial (m.before 0).serial ≡ some plymouth
      → ((n : ℕ) → qemu_check_serial (m.after n).serial ≡ some plymouth)
      → qemu_screendump md5 (m.before 0).shot ≡ frame t c x
      → ((n : ℕ) → qemu_screendump md5 (m.after n).shot ≡ frame t c x)
      → run_qemu md5 m s start ≡ record {
        exit = exited (if brighter 18 10 (frame t c x) then 0 else 2);
        sent = qemu_send_passphrase s;
      }
  unfolding run_qemu boot_loop
  run_qemu-unchanged s start k n l e es f fs =
      rw
        (
          prompt_loop-by_log start (prompt_round-by_log e f),
          k,
          boot_loop-second (start + (m.before 0).takes + 500 + 10000 + m.typing) l
              (boot_round-first n (es 0) (fs 0)) (boot_round-second (es 1) (fs 1)),
        )
        refl
