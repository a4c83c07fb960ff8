-- ===== src/Luks/WaitLive.antt =====
-- xfce-linux/src/luks-unlock.py: `run_wait_live`.
use xfce_linux.Base.{ℕ, zero, suc, ◌+◌, [], Text, is_empty, text_eq, ltb, leb, if◌then◌else◌}
use xfce_linux.Luks.Screen.{
  Bytes, Shot, Dump, dump_raised, no_frame, frame, qemu_screendump, as_bright, hash_of,
}
use xfce_linux.Luks.Exits.{
  Exit, returned, raised, out_of_fuel, seconds, poll_interval, prompt_rounds,
}

-- How `copy2` goes: the frame is written, or it raises before or after the target is truncated.
pub data Copy : Type 0 where
  writes keeps cuts : Copy

-- One round: the screendump, the copy of it, and the milliseconds of the calls.
pub record Sight : Type 0 where
  pub shot : Shot
  pub copy : Copy
  pub takes : ℕ

-- What the screenshot path has: what it had before the run, a frame, or a part of one.
pub data Saved : Type 0 where
  before_run cut_copy : Saved
  copied : Dump → Saved

-- `stable_count`, `prev_hash`, and the screenshot.
pub record Live : Type 0 where
  pub stable : ℕ
  pub prev_hash : Text
  pub saved : Saved

pub data Warning : Type 0 where
  no_warning never_stable never_bright : Warning

pub record Ending : Type 0 where
  pub exit : Exit
  pub warning : Warning
  pub live : Live

pub data Glance : Type 0 where
  settled : Live → Glance
  looks_on : Live → Glance
  breaks : Live → Glance

abbrev pub if_settled : Live → Glance
if_settled v = if leb 2 v.stable then settled v else looks_on v

abbrev pub save_copy : Copy → Dump → Saved → Saved
save_copy writes d old = copied d
save_copy keeps d old = old
save_copy cuts d old = cut_copy

-- The content threshold is 3/2.
abbrev pub glance_frame : Dump → Copy → Live → Glance
glance_frame d c v =
    if as_bright 3 2 d
    then if_settled (record {
      stable = if text_eq (hash_of d) v.prev_hash then v.stable + 1 else 0;
      prev_hash = hash_of d;
      saved = save_copy c d v.saved;
    })
    else looks_on (record v { stable = 0; prev_hash = [] })

abbrev pub glance_at : Dump → Copy → Live → Glance
glance_at dump_raised c v = breaks v
glance_at no_frame c v = looks_on (record v { stable = 0 })
glance_at (frame total count hash) c v = glance_frame (frame total count hash) c v

-- One round of the loop.
unfoldable pub glance : (Bytes → Text) → Sight → Live → Glance
glance md5 p v = glance_at (qemu_screendump md5 p.shot) p.copy v

abbrev pub after_glance : (ℕ → Live → Ending) → ℕ → Sight → Glance → Ending
after_glance go now p (settled v) = record { exit = returned; warning = no_warning; live = v }
after_glance go now p (looks_on v) = go (now + p.takes + 500 + poll_interval) v
after_glance go now p (breaks v) = record { exit = raised; warning = no_warning; live = v }

-- The warnings after the loop.
abbrev pub give_up : Live → Ending
give_up v = record {
  exit = returned;
  warning = if is_empty v.prev_hash then never_bright else never_stable;
  live = v;
}

module _ (md5 : Bytes → Text) (sights : ℕ → Sight) where
  unfoldable pub live_loop : ℕ → ℕ → ℕ → ℕ → Live → Ending
  live_loop zero n now timeout v =
      if ltb now timeout
      then record { exit = out_of_fuel; warning = no_warning; live = v }
      else give_up v
  live_loop (suc fuel) n now timeout v =
      if ltb now timeout
      then after_glance (λ now' v'. live_loop fuel (suc n) now' timeout v') now (sights n)
          (glance md5 (sights n) v)
      else give_up v

  -- `run_wait_live`, begun at this time.
  unfoldable pub run_wait_live : ℕ → Ending
  run_wait_live start =
      live_loop prompt_rounds 0 start (start + seconds 300)
        (record { stable = 0; prev_hash = []; saved = before_run })
