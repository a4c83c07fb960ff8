-- ===== src/Luks/Qemu.antt =====
-- xfce-linux/src/luks-unlock.py: `run_qemu`. What the machine shows in each round and the time that
-- the calls take are arguments.
use xfce_linux.Base.{
  ℕ, zero, suc, ◌+◌, Bool, true, false, ◌&&◌, ◌||◌, not, Option, none, some, [], Text, length, take,
  text_eq, ltb, leb, if◌then◌else◌,
}
use xfce_linux.Luks.Keys.{qemu_send_passphrase}
use xfce_linux.Luks.Screen.{
  Bytes, Shot, Dump, dump_raised, no_frame, frame, qemu_screendump, brighter, hash_of,
}
use xfce_linux.Luks.Serial.{
  Log, Marker, emergency, initial_setup, gdm, plymouth, nothing, qemu_check_serial,
}
use xfce_linux.Luks.Exits.{
  Exit, exited, raised, out_of_fuel, Outcome, seconds, poll_interval, plymouth_wait,
  prompt_deadline, boot_deadline, prompt_rounds, boot_rounds,
}

-- One round: the serial log, the screendump, that of a second call, and the milliseconds that the
-- calls take besides the sleeps.
pub record Poll : Type 0 where
  pub serial : Log
  pub shot : Shot
  pub later_shot : Shot
  pub takes : ℕ

-- The machine: the rounds before and after the passphrase, the milliseconds that the keys take, and
-- the key at which `socat` gets stuck.
pub record Machine : Type 0 where
  pub before : ℕ → Poll
  pub after : ℕ → Poll
  pub typing : ℕ
  pub stuck_key : Option ℕ

-- `had_content`, `stable_count` and `prev_hash`
pub record Watch : Type 0 where
  pub had_content : Bool
  pub stable : ℕ
  pub prev_hash : Text

abbrev pub at_first : Watch
at_first = record { had_content = false; stable = 0; prev_hash = [] }

-- The tracking of one frame; the content threshold is 1/2.
unfoldable pub watch_frame : Dump → Watch → Watch
watch_frame d w =
    let had = w.had_content || brighter 1 2 d in
    if had
    then record {
      had_content = true;
      stable = if text_eq (hash_of d) w.prev_hash then w.stable + 1 else 0;
      prev_hash = hash_of d;
    }
    else w

pub data Round : Type 0 where
  sends : Watch → Round
  waits : Watch → Round
  raises : Round

abbrev pub if_stable : Watch → Round
if_stable w = if w.had_content && leb 2 w.stable then sends w else waits w

abbrev pub by_frame : Dump → Watch → Round
by_frame dump_raised w = raises
by_frame no_frame w = waits (record w { stable = 0 })
by_frame (frame total count hash) w = if_stable (watch_frame (frame total count hash) w)

abbrev pub by_serial : Dump → Watch → Round
by_serial dump_raised w = raises
by_serial no_frame w = sends w
by_serial (frame total count hash) w = sends w

abbrev pub by_marker : Dump → Watch → Option Marker → Round
by_marker d w none = raises
by_marker d w (some plymouth) = by_serial d w
by_marker d w (some emergency) = by_frame d w
by_marker d w (some initial_setup) = by_frame d w
by_marker d w (some gdm) = by_frame d w
by_marker d w (some nothing) = by_frame d w

-- One round of the first loop.
unfoldable pub prompt_round : (Bytes → Text) → Poll → Watch → Round
prompt_round md5 p w = by_marker (qemu_screendump md5 p.shot) w (qemu_check_serial p.serial)

-- How the first loop ends: in this round and at this time the passphrase is due.
pub data Prompt : Type 0 where
  found : ℕ → ℕ → Watch → Prompt
  never prompt_raised prompt_fuel : Prompt

abbrev pub after_round : (ℕ → Watch → Prompt) → ℕ → ℕ → Poll → Round → Prompt
after_round go n now p (sends w) = found n (now + p.takes + 500 + plymouth_wait) w
after_round go n now p (waits w) = go (now + p.takes + 500 + poll_interval) w
after_round go n now p raises = prompt_raised

-- `screen_changed`, `gnome_stable_count` and `prev_hash`
pub record Boot : Type 0 where
  pub screen_changed : Bool
  pub stable : ℕ
  pub prev_hash : Text

pub data BootRound : Type 0 where
  stops : Exit → BootRound
  goes_on : Boot → BootRound

abbrev pub boot_screen : Text → Dump → Boot → BootRound
boot_screen passphrase_hash d b =
    let changed = b.screen_changed || not (text_eq (hash_of d) passphrase_hash) in
    let stable = if text_eq (hash_of d) b.prev_hash then b.stable + 1 else 0 in
    if changed && leb 1 stable
    then stops (exited (if brighter 18 10 d then 0 else 2))
    else goes_on (record { screen_changed = changed; stable = stable; prev_hash = hash_of d })

abbrev pub boot_seen : Dump → BootRound
boot_seen dump_raised = stops raised
boot_seen no_frame = stops (exited 0)
boot_seen (frame total count hash) = stops (exited 0)

abbrev pub if_raised : Dump → BootRound → BootRound
if_raised dump_raised r = stops raised
if_raised no_frame r = r
if_raised (frame total count hash) r = r

abbrev pub boot_marker : Text → Dump → Dump → Boot → Option Marker → BootRound
boot_marker h d e b none = stops raised
boot_marker h d e b (some emergency) = stops (exited 2)
boot_marker h d e b (some initial_setup) = if_raised d (boot_seen e)
boot_marker h d e b (some gdm) = if_raised d (boot_seen e)
boot_marker h d e b (some plymouth) = if_raised d (boot_screen h d b)
boot_marker h d e b (some nothing) = if_raised d (boot_screen h d b)

-- One round of the second loop.
unfoldable pub boot_round : (Bytes → Text) → Text → Poll → Boot → BootRound
boot_round md5 h p b =
    boot_marker h (qemu_screendump md5 p.shot) (qemu_screendump md5 p.later_shot) b
      (qemu_check_serial p.serial)

abbrev pub after_boot_round : (ℕ → Boot → Exit) → ℕ → Poll → BootRound → Exit
after_boot_round go now p (stops e) = e
after_boot_round go now p (goes_on b) = go (now + p.takes + 500 + seconds 5) b

module _ (md5 : Bytes → Text) (m : Machine) where
  -- The first loop, with fuel, the number of the round, the time and the deadline.
  unfoldable pub prompt_loop : ℕ → ℕ → ℕ → ℕ → Watch → Prompt
  prompt_loop zero n now deadline w = if ltb now deadline then prompt_fuel else never
  prompt_loop (suc fuel) n now deadline w =
      if ltb now deadline
      then after_round (λ now' w'. prompt_loop fuel (suc n) now' deadline w') n now (m.before n)
          (prompt_round md5 (m.before n) w)
      else never

  unfoldable pub boot_loop : Text → ℕ → ℕ → ℕ → ℕ → Boot → Exit
  boot_loop h zero n now deadline b = if ltb now deadline then out_of_fuel else exited 2
  boot_loop h (suc fuel) n now deadline b =
      if ltb now deadline
      then after_boot_round (λ now' b'. boot_loop h fuel (suc n) now' deadline b') now (m.after n)
          (boot_round md5 h (m.after n) b)
      else exited 2

  abbrev pub watch_boot : Text → ℕ → Exit
  watch_boot h now =
      boot_loop h boot_rounds 0 now (now + boot_deadline)
        (record { screen_changed = false; stable = 0; prev_hash = h })

  -- The keys are sent, up to one at which `socat` gets stuck, and the boot is watched.
  abbrev pub send_and_watch : Text → Watch → ℕ → Option ℕ → Outcome
  send_and_watch s w now none = record {
    exit = watch_boot w.prev_hash (now + m.typing);
    sent = qemu_send_passphrase s;
  }
  send_and_watch s w now (some k) =
      if ltb k (length (qemu_send_passphrase s))
      then record { exit = raised; sent = take (suc k) (qemu_send_passphrase s) }
      else record { exit = watch_boot w.prev_hash (now + m.typing); sent = qemu_send_passphrase s }

  abbrev pub after_prompt : Text → Prompt → Outcome
  after_prompt s (found n now w) = send_and_watch s w now m.stuck_key
  after_prompt s never = record { exit = exited 1; sent = [] }
  after_prompt s prompt_raised = record { exit = raised; sent = [] }
  after_prompt s prompt_fuel = record { exit = out_of_fuel; sent = [] }

  -- `run_qemu`, begun at this time.
  unfoldable pub run_qemu : Text → ℕ → Outcome
  run_qemu s start =
      after_prompt s (prompt_loop prompt_rounds 0 start (start + prompt_deadline) at_first)
