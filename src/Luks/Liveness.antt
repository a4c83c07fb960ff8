-- ===== src/Luks/Liveness.antt =====
-- xfce-linux/src/luks-unlock.py: the first loop of `run_qemu`, on a machine that asks for the
-- passphrase.
use xfce_linux.Base.{
  ℕ, zero, suc, ◌+◌, ◌*◌, ◌≤◌, ◌<◌, ◌≡◌, ◌≢◌, refl, ap, ◌∙◌, true, Text, lt→ltb, leb, ◌&&◌, arith,
  Bool-cases, inl, inr, some, none, Option,
}
use xfce_linux.Luks.Screen.{Bytes, Dump, dump_raised, no_frame, frame, qemu_screendump, brighter}
use xfce_linux.Luks.Serial.{
  Marker, qemu_check_serial, emergency, initial_setup, gdm, plymouth, nothing,
}
use xfce_linux.Luks.Qemu.{
  Machine, Poll, Watch, Round, sends, waits, prompt_round, Prompt, found, after_round, prompt_loop,
  by_marker, by_frame, by_serial, if_stable, watch_frame,
}

data GoesOn : Round → Type 0 where
  by_sending : (w : Watch) → GoesOn (sends w)
  by_waiting : (w : Watch) → GoesOn (waits w)

if_stable-GoesOn : (w : Watch) → GoesOn (if_stable w)
if_stable-GoesOn w = elim (Bool-cases (w.had_content && leb 2 w.stable)) [
  | inl e ↦ rw e (by_sending w)
  | inr e ↦ rw e (by_waiting w)
]

by_frame-GoesOn : (d : Dump) (w : Watch) → d ≢ dump_raised → GoesOn (by_frame d w)
by_frame-GoesOn dump_raised w h = absurd (h refl)
by_frame-GoesOn no_frame w h = by_waiting _
by_frame-GoesOn (frame t c x) w h = if_stable-GoesOn (watch_frame (frame t c x) w)

by_serial_sends : (d : Dump) (w : Watch) → d ≢ dump_raised → by_serial d w ≡ sends w
by_serial_sends dump_raised w h = absurd (h refl)
by_serial_sends no_frame w h = refl
by_serial_sends (frame t c x) w h = refl

by_serial-GoesOn : (d : Dump) (w : Watch) → d ≢ dump_raised → GoesOn (by_serial d w)
by_serial-GoesOn dump_raised w h = absurd (h refl)
by_serial-GoesOn no_frame w h = by_sending w
by_serial-GoesOn (frame t c x) w h = by_sending w

by_marker-GoesOn :
    (d : Dump) (w : Watch) (k : Option Marker)
    → d ≢ dump_raised
    → k ≢ none
    → GoesOn (by_marker d w k)
by_marker-GoesOn d w none h e = absurd (e refl)
by_marker-GoesOn d w (some plymouth) h e = by_serial-GoesOn d w h
by_marker-GoesOn d w (some emergency) h e = by_frame-GoesOn d w h
by_marker-GoesOn d w (some initial_setup) h e = by_frame-GoesOn d w h
by_marker-GoesOn d w (some gdm) h e = by_frame-GoesOn d w h
by_marker-GoesOn d w (some nothing) h e = by_frame-GoesOn d w h

pub plus_zero : (n : ℕ) → n + 0 ≡ n
plus_zero n = omega arith

pub suc_plus : (n d : ℕ) → suc n + d ≡ n + suc d
suc_plus n d = omega arith

pub next_round :
    (d u now deadline later : ℕ)
    → now + suc d * u < deadline
    → later ≤ now + u
    → later + d * u < deadline
next_round d u now deadline later h k = grind arith

module _ (md5 : Bytes → Text) (t : ℕ) where
  -- A round before the passphrase that raises no exception, whose calls take `t` milliseconds at
  -- most.
  pub record IsQuiet (p : Poll) : Type 0 where
    pub no_error : qemu_check_serial p.serial ≢ none
    pub shown : qemu_screendump md5 p.shot ≢ dump_raised
    pub soon : p.takes ≤ t

  -- A round after the passphrase: also, no emergency in the serial log, and a bright frame.
  pub record IsBright (p : Poll) : Type 0 where
    pub quiet : IsQuiet p
    pub no_emergency : qemu_check_serial p.serial ≢ some emergency
    pub later_shown : qemu_screendump md5 p.later_shot ≢ dump_raised
    pub bright : brighter 18 10 (qemu_screendump md5 p.shot) ≡ true

  prompt_round-GoesOn : (p : Poll) (w : Watch) → IsQuiet p → GoesOn (prompt_round md5 p w)
  unfolding prompt_round
  prompt_round-GoesOn p w h =
      by_marker-GoesOn (qemu_screendump md5 p.shot) w (qemu_check_serial p.serial) h.shown
        h.no_error

  prompt_round_sends :
      (p : Poll) (w : Watch)
      → IsQuiet p
      → qemu_check_serial p.serial ≡ some plymouth
      → prompt_round md5 p w ≡ sends w
  unfolding prompt_round
  prompt_round_sends p w h e =
      ap (by_marker (qemu_screendump md5 p.shot) w) e
      ∙ by_serial_sends (qemu_screendump md5 p.shot) w h.shown

  module _ (m : Machine) where
    abbrev pub IsFound : Prompt → Type 0
    IsFound r = (n : ℕ) × (now : ℕ) × (w : Watch) × (r ≡ found n now w)

    after_round-IsFound :
        (go : ℕ → Watch → Prompt) (n now : ℕ) (p : Poll)
        → p.takes ≤ t
        → ((now' : ℕ) (w : Watch)
            → now + 3000 ≤ now'
            → now' ≤ now + (3500 + t)
            → IsFound (go now' w))
        → (r : Round) → GoesOn r
        → IsFound (after_round go n now p r)
    after_round-IsFound go n now p h keep _ (by_sending w) = (n, _, w, refl)
    after_round-IsFound go n now p h keep _ (by_waiting w) = keep _ w (omega arith) (omega arith)

    pub prompt_loop-IsFound :
        (fuel d n now deadline : ℕ) (w : Watch)
        → deadline ≤ now + 3000 * fuel
        → now + d * (3500 + t) < deadline
        → ((j : ℕ) → j ≤ n + d → IsQuiet (m.before j))
        → qemu_check_serial (m.before (n + d)).serial ≡ some plymouth
        → IsFound (prompt_loop md5 m fuel n now deadline w)
    unfolding prompt_loop
    prompt_loop-IsFound zero d n now deadline w enough h quiet e = absurd (omega arith)
    prompt_loop-IsFound (suc fuel) zero n now deadline w enough h quiet e =
        rw (lt→ltb now deadline (omega arith)) (
          rw (prompt_round_sends (m.before n) w (quiet n (omega arith)) (rw (plus_zero n) at e))
            (n, _, w, refl))
    prompt_loop-IsFound (suc fuel) (suc d) n now deadline w enough h quiet e =
        rw (lt→ltb now deadline (omega arith)) (
          after_round-IsFound (λ now' w'. prompt_loop md5 m fuel (suc n) now' deadline w') n now
            (m.before n) (quiet n (omega arith)).soon
            (λ now' w' k l.
              prompt_loop-IsFound fuel d (suc n) now' deadline w' (omega (arith, enough, k))
                (next_round d (3500 + t) now deadline now' h l) (λ j i. quiet j (omega (arith, i)))
                (ap (λ i. qemu_check_serial (m.before i).serial) (suc_plus n d) ∙ e))
            (prompt_round md5 (m.before n) w)
            (prompt_round-GoesOn (m.before n) w (quiet n (omega arith))))
