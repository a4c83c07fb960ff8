-- ===== src/Luks/Boots.antt =====
-- xfce-linux/src/luks-unlock.py: `run_qemu` on a machine that asks for the passphrase and boots.
use xfce_linux.Base.{
  ℕ, zero, suc, ◌+◌, ◌*◌, ◌≤◌, ◌<◌, ◌≡◌, ◌≢◌, ◌⊎◌, refl, ap, ◌∙◌, true, Text, lt→ltb, leb, ◌||◌,
  ◌&&◌, not, arith, Bool-cases, inl, inr, some, none, Option, text_eq, if◌then◌else◌,
}
use xfce_linux.Luks.Screen.{
  Bytes, Dump, dump_raised, no_frame, frame, qemu_screendump, brighter, hash_of,
}
use xfce_linux.Luks.Serial.{
  Marker, qemu_check_serial, emergency, initial_setup, gdm, plymouth, nothing,
}
use xfce_linux.Luks.Keys.{qemu_send_passphrase}
use xfce_linux.Luks.Exits.{Exit, exited, prompt_rounds, boot_rounds}
use xfce_linux.Luks.Qemu.{
  Machine, Poll, Prompt, Boot, BootRound, stops, goes_on, boot_round, boot_marker, boot_screen,
  boot_seen, if_raised, after_boot_round, boot_loop, run_qemu, at_first, after_prompt,
  send_and_watch,
}
use xfce_linux.Luks.Liveness.{
  IsQuiet, IsBright, IsFound, prompt_loop-IsFound, next_round, plus_zero, suc_plus,
}

-- A round that goes on, or stops the run with status 0.
data IsWell : BootRound → Type 0 where
  well_ended : IsWell (stops (exited 0))
  well_on : (b : Boot) → IsWell (goes_on b)

boot_screen-IsWell :
    (h : Text) (d : Dump) (b : Boot) → brighter 18 10 d ≡ true → IsWell (boot_screen h d b)
boot_screen-IsWell h d b e =
    let changed = b.screen_changed || not (text_eq (hash_of d) h) in
    let stable = if text_eq (hash_of d) b.prev_hash then b.stable + 1 else 0 in
    elim (Bool-cases (changed && leb 1 stable)) [
      | inl k ↦ rw (k, e) well_ended
      | inr k ↦ rw k (well_on _)
    ]

boot_seen_well : (d : Dump) → d ≢ dump_raised → boot_seen d ≡ stops (exited 0)
boot_seen_well dump_raised h = absurd (h refl)
boot_seen_well no_frame h = refl
boot_seen_well (frame t c x) h = refl

boot_seen-IsWell : (d : Dump) → d ≢ dump_raised → IsWell (boot_seen d)
boot_seen-IsWell dump_raised h = absurd (h refl)
boot_seen-IsWell no_frame h = well_ended
boot_seen-IsWell (frame t c x) h = well_ended

if_raised_not : (d : Dump) (r : BootRound) → d ≢ dump_raised → if_raised d r ≡ r
if_raised_not dump_raised r h = absurd (h refl)
if_raised_not no_frame r h = refl
if_raised_not (frame t c x) r h = refl

if_raised-IsWell : (d : Dump) (r : BootRound) → d ≢ dump_raised → IsWell r → IsWell (if_raised d r)
if_raised-IsWell dump_raised r h k = absurd (h refl)
if_raised-IsWell no_frame r h k = k
if_raised-IsWell (frame t c x) r h k = k

zero_plus : (n : ℕ) → 0 + n ≡ n
zero_plus n = omega arith

module _ (h : Text) (d e : Dump) (b : Boot) (shown : d ≢ dump_raised)
    (later : e ≢ dump_raised) where
  boot_marker-IsWell :
      (k : Option Marker)
      → brighter 18 10 d ≡ true
      → k ≢ none
      → k ≢ some emergency
      → IsWell (boot_marker h d e b k)
  boot_marker-IsWell none l n o = absurd (n refl)
  boot_marker-IsWell (some emergency) l n o = absurd (o refl)
  boot_marker-IsWell (some initial_setup) l n o =
      if_raised-IsWell d _ shown (boot_seen-IsWell e later)
  boot_marker-IsWell (some gdm) l n o = if_raised-IsWell d _ shown (boot_seen-IsWell e later)
  boot_marker-IsWell (some plymouth) l n o = if_raised-IsWell d _ shown (boot_screen-IsWell h d b l)
  boot_marker-IsWell (some nothing) l n o = if_raised-IsWell d _ shown (boot_screen-IsWell h d b l)

  boot_marker_gdm : boot_marker h d e b (some gdm) ≡ stops (exited 0)
  boot_marker_gdm = if_raised_not d (boot_seen e) shown ∙ boot_seen_well e later

  boot_marker_setup : boot_marker h d e b (some initial_setup) ≡ stops (exited 0)
  boot_marker_setup = if_raised_not d (boot_seen e) shown ∙ boot_seen_well e later

-- The serial log names the display manager or the first setup.
abbrev pub IsUp : Poll → Type 0
IsUp p = (qemu_check_serial p.serial ≡ some gdm) ⊎ (qemu_check_serial p.serial ≡ some initial_setup)

module _ (md5 : Bytes → Text) (t : ℕ) where
  boot_round-IsWell :
      (h : Text) (p : Poll) (b : Boot) → IsBright md5 t p → IsWell (boot_round md5 h p b)
  unfolding boot_round
  boot_round-IsWell h p b k =
      boot_marker-IsWell h _ _ b k.quiet.shown k.later_shown (qemu_check_serial p.serial) k.bright
        k.quiet.no_error k.no_emergency

  boot_round_up :
      (h : Text) (p : Poll) (b : Boot)
      → IsBright md5 t p
      → IsUp p
      → boot_round md5 h p b ≡ stops (exited 0)
  unfolding boot_round
  boot_round_up h p b k (inl e) =
      ap (boot_marker h (qemu_screendump md5 p.shot) (qemu_screendump md5 p.later_shot) b) e
      ∙ boot_marker_gdm h _ _ b k.quiet.shown k.later_shown
  boot_round_up h p b k (inr e) =
      ap (boot_marker h (qemu_screendump md5 p.shot) (qemu_screendump md5 p.later_shot) b) e
      ∙ boot_marker_setup h _ _ b k.quiet.shown k.later_shown

  after_boot_round-well :
      (go : ℕ → Boot → Exit) (now : ℕ) (p : Poll)
      → p.takes ≤ t
      → ((now' : ℕ) (b : Boot) → now + 5000 ≤ now' → now' ≤ now + (5500 + t) → go now' b ≡ exited 0)
      → (r : BootRound) → IsWell r
      → after_boot_round go now p r ≡ exited 0
  after_boot_round-well go now p h keep _ well_ended = refl
  after_boot_round-well go now p h keep _ (well_on b) = keep _ b (omega arith) (omega arith)

  module _ (m : Machine) where
    boot_loop-well :
        (h : Text) (fuel d n now deadline : ℕ) (b : Boot)
        → deadline ≤ now + 5000 * fuel
        → now + d * (5500 + t) < deadline
        → ((j : ℕ) → j ≤ n + d → IsBright md5 t (m.after j))
        → IsUp (m.after (n + d))
        → boot_loop md5 m h fuel n now deadline b ≡ exited 0
    unfolding boot_loop
    boot_loop-well h zero d n now deadline b enough l good up = absurd (omega arith)
    boot_loop-well h (suc fuel) zero n now deadline b enough l good up =
        rw (lt→ltb now deadline (omega arith)) (
          ap
            (after_boot_round (λ now' b'. boot_loop md5 m h fuel (suc n) now' deadline b') now
              (m.after n))
            (boot_round_up h (m.after n) b (good n (omega arith)) (rw (plus_zero n) at up)))
    boot_loop-well h (suc fuel) (suc d) n now deadline b enough l good up =
        rw (lt→ltb now deadline (omega arith)) (
          after_boot_round-well (λ now' b'. boot_loop md5 m h fuel (suc n) now' deadline b') now
            (m.after n) (good n (omega arith)).quiet.soon
            (λ now' b' k i.
              boot_loop-well h fuel d (suc n) now' deadline b' (omega (arith, enough, k))
                (next_round d (5500 + t) now deadline now' l i) (λ j o. good j (omega (arith, o)))
                (rw (suc_plus n d) up))
            (boot_round md5 h (m.after n) b)
            (boot_round-IsWell h (m.after n) b (good n (omega arith))))

    after_prompt_well :
        (s : Text) (k : ℕ) (r : Prompt)
        → m.stuck_key ≡ none
        → ((j : ℕ) → j ≤ k → IsBright md5 t (m.after j))
        → IsUp (m.after k)
        → k * (5500 + t) < 300000
        → IsFound md5 t m r
        → after_prompt md5 m s r ≡ record { exit = exited 0; sent = qemu_send_passphrase s }
    after_prompt_well s k r e good up soon (n, now, w, f) =
        ap (after_prompt md5 m s) f
        ∙ ap (send_and_watch md5 m s w now) e
        ∙ ap (λ x. record { exit = x; sent = qemu_send_passphrase s })
            (boot_loop-well w.prev_hash boot_rounds k 0 _ _ _ (omega arith) (omega arith)
              (λ j i. good j (omega (arith, i))) (rw (zero_plus k) up))

    -- If the prompt stands in the serial log in time, no call of a round up to there raises, and
    -- after the keys the display manager or the first setup does in time, with bright screens, no
    -- emergency and no exception up to there, then the run sends the keys of the passphrase and
    -- exits with 0.
    pub run_qemu-well :
        (s : Text) (start n k : ℕ)
        → m.stuck_key ≡ none
        → ((j : ℕ) → j ≤ n → IsQuiet md5 t (m.before j))
        → qemu_check_serial (m.before n).serial ≡ some plymouth
        → n * (3500 + t) < 300000
        → ((j : ℕ) → j ≤ k → IsBright md5 t (m.after j))
        → IsUp (m.after k)
        → k * (5500 + t) < 300000
        → run_qemu md5 m s start ≡ record { exit = exited 0; sent = qemu_send_passphrase s }
    unfolding run_qemu
    run_qemu-well s start n k e quiet p soon good up soon' =
        after_prompt_well s k _ e good up soon' (
          prompt_loop-IsFound md5 t m prompt_rounds n 0 start _ at_first (omega arith) (omega arith)
            (λ j i. quiet j (omega (arith, i))) (rw (zero_plus n) p))
