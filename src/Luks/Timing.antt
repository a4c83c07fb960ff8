-- ===== src/Luks/Timing.antt =====
-- xfce-linux/src/luks-unlock.py: the loops come to their deadlines, so that the fuel is enough.
use xfce_linux.Base.{
  ℕ, zero, suc, ◌+◌, ◌*◌, ◌≤◌, ◌≢◌, true, false, Bool, Text, ltb, leb, ◌||◌, ◌&&◌, not, arith,
  Bool-cases, inl, inr, some, none, Option, refl, subst, List, length, take-all, text_eq,
  if◌then◌else◌,
}
use xfce_linux.Luks.Screen.{Bytes, Dump, dump_raised, no_frame, frame, brighter, hash_of}
use xfce_linux.Luks.Serial.{
  Marker, qemu_check_serial, emergency, initial_setup, gdm, plymouth, nothing,
}
use xfce_linux.Luks.Keys.{qemu_send_passphrase}
use xfce_linux.Luks.Exits.{
  Tells, no_keys, booted, not_booted, exception, Exit, exited, raised, prompt_rounds, boot_rounds,
}
use xfce_linux.Luks.Qemu.{
  Machine, Poll, Watch, Round, sends, waits, raises, prompt_round, Prompt, found, never,
  prompt_raised, prompt_fuel, after_round, prompt_loop, Boot, BootRound, stops, goes_on, boot_round,
  boot_marker, boot_screen, boot_seen, if_raised, after_boot_round, boot_loop, send_and_watch,
  after_prompt, run_qemu, at_first,
}

after_round-ends :
    (go : ℕ → Watch → Prompt) (n now : ℕ) (p : Poll)
    → ((now' : ℕ) (w : Watch) → now + 3000 ≤ now' → go now' w ≢ prompt_fuel)
    → (r : Round) → after_round go n now p r ≢ prompt_fuel
after_round-ends go n now p ends (sends w) = cc
after_round-ends go n now p ends (waits w) = ends _ w (ground arith)
after_round-ends go n now p ends raises = cc

prompt_loop-ends :
    (md5 : Bytes → Text) (m : Machine) (fuel n now deadline : ℕ) (w : Watch)
    → deadline ≤ now + 3000 * fuel
    → prompt_loop md5 m fuel n now deadline w ≢ prompt_fuel
unfolding prompt_loop
prompt_loop-ends md5 m zero n now deadline w h = ground arith
prompt_loop-ends md5 m (suc fuel) n now deadline w h = elim (Bool-cases (ltb now deadline)) [
  | inr e ↦ rw e (λ x. cc)
  | inl e ↦ rw e (
      after_round-ends (λ now' w'. prompt_loop md5 m fuel (suc n) now' deadline w') n now
        (m.before n)
        (λ now' w' h'. prompt_loop-ends md5 m fuel (suc n) now' deadline w' (omega (arith, h, h')))
        (prompt_round md5 (m.before n) w))
]

-- The exits of the second loop.
pub data Ends : Exit → Type 0 where
  ended_well : Ends (exited 0)
  ended_badly : Ends (exited 2)
  by_exception : Ends raised

pub Ends→Tells :
    (keys : List Text) (e : Exit) → Ends e → Tells keys (record { exit = e; sent = keys })
Ends→Tells keys _ ended_well = booted
Ends→Tells keys _ ended_badly = not_booted
Ends→Tells keys _ by_exception =
    subst (λ ks. Tells keys (record { exit = raised; sent = ks }))
      (take-all (length keys) keys (omega arith)) (exception (length keys))

data RoundEnds : BootRound → Type 0 where
  stop_ends : {e : Exit} → Ends e → RoundEnds (stops e)
  more : (b : Boot) → RoundEnds (goes_on b)

by_brightness : (t : Bool) → Ends (exited (if t then 0 else 2))
by_brightness true = ended_well
by_brightness false = ended_badly

boot_screen-Ends : (h : Text) (d : Dump) (b : Boot) → RoundEnds (boot_screen h d b)
boot_screen-Ends h d b =
    let changed = b.screen_changed || not (text_eq (hash_of d) h) in
    let stable = if text_eq (hash_of d) b.prev_hash then b.stable + 1 else 0 in
    elim (Bool-cases (changed && leb 1 stable)) [
      | inl e ↦ rw e (stop_ends (by_brightness (brighter 18 10 d)))
      | inr e ↦ rw e (more _)
    ]

boot_seen-Ends : (d : Dump) → RoundEnds (boot_seen d)
boot_seen-Ends dump_raised = stop_ends by_exception
boot_seen-Ends no_frame = stop_ends ended_well
boot_seen-Ends (frame total count hash) = stop_ends ended_well

if_raised-Ends : (d : Dump) (r : BootRound) → RoundEnds r → RoundEnds (if_raised d r)
if_raised-Ends dump_raised r h = stop_ends by_exception
if_raised-Ends no_frame r h = h
if_raised-Ends (frame total count hash) r h = h

boot_marker-Ends :
    (h : Text) (d e : Dump) (b : Boot) (k : Option Marker) → RoundEnds (boot_marker h d e b k)
boot_marker-Ends h d e b none = stop_ends by_exception
boot_marker-Ends h d e b (some emergency) = stop_ends ended_badly
boot_marker-Ends h d e b (some initial_setup) = if_raised-Ends d _ (boot_seen-Ends e)
boot_marker-Ends h d e b (some gdm) = if_raised-Ends d _ (boot_seen-Ends e)
boot_marker-Ends h d e b (some plymouth) = if_raised-Ends d _ (boot_screen-Ends h d b)
boot_marker-Ends h d e b (some nothing) = if_raised-Ends d _ (boot_screen-Ends h d b)

after_boot_round-Ends :
    (go : ℕ → Boot → Exit) (now : ℕ) (p : Poll)
    → ((now' : ℕ) (b : Boot) → now + 5000 ≤ now' → Ends (go now' b))
    → (r : BootRound) → RoundEnds r
    → Ends (after_boot_round go now p r)
after_boot_round-Ends go now p ends (stops e) (stop_ends h) = h
after_boot_round-Ends go now p ends (goes_on b) h = ends _ b (ground arith)

module _ (md5 : Bytes → Text) (m : Machine) where
  boot_loop-Ends :
      (h : Text) (fuel n now deadline : ℕ) (b : Boot)
      → deadline ≤ now + 5000 * fuel
      → Ends (boot_loop md5 m h fuel n now deadline b)
  unfolding boot_loop boot_round
  boot_loop-Ends h zero n now deadline b k = elim (Bool-cases (ltb now deadline)) [
    | inr e ↦ rw e ended_badly
    | inl e ↦ absurd (ground arith)
  ]
  boot_loop-Ends h (suc fuel) n now deadline b k = elim (Bool-cases (ltb now deadline)) [
    | inr e ↦ rw e ended_badly
    | inl e ↦ rw e (
        after_boot_round-Ends (λ now' b'. boot_loop md5 m h fuel (suc n) now' deadline b') now
          (m.after n)
          (λ now' b' k'. boot_loop-Ends h fuel (suc n) now' deadline b' (omega (arith, k, k')))
          (boot_round md5 h (m.after n) b)
          (boot_marker-Ends h _ _ b (qemu_check_serial (m.after n).serial)))
  ]

  send_and_watch-Tells :
      (s : Text) (w : Watch) (now : ℕ) (k : Option ℕ)
      → Tells (qemu_send_passphrase s) (send_and_watch md5 m s w now k)
  send_and_watch-Tells s w now none =
      Ends→Tells _ _ (boot_loop-Ends w.prev_hash boot_rounds 0 _ _ _ (ground arith))
  send_and_watch-Tells s w now (some k) =
      elim (Bool-cases (ltb k (length (qemu_send_passphrase s)))) [
        | inl e ↦ rw e (exception (suc k))
        | inr e ↦
            rw e (Ends→Tells _ _ (boot_loop-Ends w.prev_hash boot_rounds 0 _ _ _ (ground arith)))
      ]

  after_prompt-Tells :
      (s : Text) (r : Prompt)
      → r ≢ prompt_fuel
      → Tells (qemu_send_passphrase s) (after_prompt md5 m s r)
  after_prompt-Tells s (found n now w) h = send_and_watch-Tells s w now m.stuck_key
  after_prompt-Tells s never h = no_keys
  after_prompt-Tells s prompt_raised h = exception 0
  after_prompt-Tells s prompt_fuel h = absurd (h refl)

  -- However the machine behaves, the run ends: with status 1 and no key sent, with status 0 or 2 and
  -- the keys of the passphrase sent once, or by an exception with a front of the keys sent.
  pub run_qemu-Tells :
      (s : Text) (start : ℕ) → Tells (qemu_send_passphrase s) (run_qemu md5 m s start)
  unfolding run_qemu
  run_qemu-Tells s start =
      after_prompt-Tells s _
        (prompt_loop-ends md5 m prompt_rounds 0 start _ at_first (ground arith))
