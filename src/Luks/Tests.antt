-- ===== src/Luks/Tests.antt =====
-- xfce-linux/src/luks-unlock.py: runs at concrete machines.
use xfce_linux.Base.{
  encode, encode_char, decode_strict, ℕ, ◌*◌, ◌≤◌, ◌≡◌, refl, true, Text, [], ◌∷◌, ◌++◌, codes,
  none, some, arith, if◌then◌else◌, ◌==◌, sym, ◌∙◌, ap,
}
use xfce_linux.Regex.{exec, sub_all}
use xfce_linux.Luks.Keys.{qemu_send_passphrase, virsh_send_passphrase}
use xfce_linux.Luks.Screen.{Bytes, ppm, unreadable, frame, qemu_screendump}
use xfce_linux.Luks.Serial.{
  log_bytes, no_log, qemu_check_serial, check_text, marker_of, without_codes, escape_re, plymouth,
}
use xfce_linux.Luks.Exits.{exited, Tells, prompt_rounds, prompt_deadline}
use xfce_linux.Luks.Qemu.{
  Machine, at_first, watch_frame, prompt_round, prompt_loop, found, boot_round, boot_loop, run_qemu,
}
use xfce_linux.Luks.Libvirt.{Guest, run_libvirt, takeover_loop, lease_loop, virsh_dhcp_ip}
use xfce_linux.Luks.WaitLive.{Sight, writes, run_wait_live}
use xfce_linux.Luks.Typing.{
  typed, qemu_types, virsh_types, qemu_send_passphrase-typed, virsh_send_passphrase-typed,
}
use xfce_linux.Luks.Timing.{run_qemu-Tells}
use xfce_linux.Luks.Prompt.{IsDue, run_qemu-IsDue}
use xfce_linux.Luks.Booted.{IsBooted, run_qemu-Booted}
use xfce_linux.Luks.Unchanged.{run_qemu-unchanged}
use xfce_linux.Luks.Lease.{IsTakeover, run_libvirt-IsTakeover}
use xfce_linux.Luks.Live.{LiveEnds, IsSaved, run_wait_live-LiveEnds}
use xfce_linux.Luks.Brightness.{max_line, sample_sum, qemu_screendump-mean}

abbrev pub phrase : Text
phrase = codes "Pass-word_1 x"

qemu_send_passphrase-typed_example :
    typed qemu_types (qemu_send_passphrase phrase) ≡ codes "ass-word_1 x\n"
qemu_send_passphrase-typed_example = qemu_send_passphrase-typed phrase

virsh_send_passphrase-typed_example :
    typed virsh_types (virsh_send_passphrase phrase) ≡ codes "ass-word-1 x\n"
virsh_send_passphrase-typed_example = virsh_send_passphrase-typed phrase

abbrev pub header : Bytes
header = codes "P6\n2 1\n"

abbrev pub pixels : Bytes
pixels = 2 ∷ 1 ∷ 1 ∷ 0 ∷ 0 ∷ 7 ∷ []

abbrev pub picture : Bytes
picture = header ++ max_line ++ pixels

abbrev pub digest : Bytes → Text
digest bs = codes "d41d"

qemu_screendump-mean_example :
    (count : ℕ) × (qemu_screendump digest (ppm picture)
      ≡ frame (sample_sum count pixels) count (codes "d41d"))
    × (sample_sum count pixels ≤ 255 * count)
    × (6 ≤ 100 * count)
    × (100 * count ≤ 105)
qemu_screendump-mean_example =
    qemu_screendump-mean digest header pixels refl (λ e. cc) (ground arith)

-- A machine with no serial log before the passphrase.
abbrev silent : Machine
silent = record {
  before = λ n. record { serial = no_log; shot = ppm picture; later_shot = unreadable; takes = 10 };
  after = λ n. record {
    serial = log_bytes (encode (codes "[  OK  ] Started \u{1b}[0;1mgdm.service"));
    shot = ppm picture;
    later_shot = unreadable;
    takes = 10;
  };
  typing = 30;
  stuck_key = none;
}

silent_runs :
    run_qemu digest silent phrase 0 ≡ record { exit = exited 0; sent = qemu_send_passphrase phrase }
unfolding run_qemu prompt_loop prompt_round watch_frame boot_loop boot_round qemu_screendump
    qemu_check_serial check_text decode_strict encode encode_char marker_of sub_all exec escape_re
    without_codes
silent_runs = refl

silent_sent : (run_qemu digest silent phrase 0).sent ≡ qemu_send_passphrase phrase
silent_sent = ap (λ o. o.sent) silent_runs

silent_exit : (run_qemu digest silent phrase 0).exit ≡ exited 0
silent_exit = ap (λ o. o.exit) silent_runs

silent_found :
    prompt_loop digest silent prompt_rounds 0 0 prompt_deadline at_first
    ≡ found 2 17530 (record { had_content = true; stable = 2; prev_hash = codes "d41d" })
unfolding prompt_loop prompt_round watch_frame qemu_screendump qemu_check_serial
silent_found = refl

run_qemu-Tells_example : Tells (qemu_send_passphrase phrase) (run_qemu digest silent phrase 0)
run_qemu-Tells_example = run_qemu-Tells digest silent phrase 0

run_qemu-IsDue_example : (n : ℕ) × IsDue digest silent n
run_qemu-IsDue_example =
    run_qemu-IsDue digest silent phrase 0 (λ e. let p = sym silent_sent ∙ e in cc)

run_qemu-Booted_example : (n : ℕ) × IsBooted digest silent (codes "d41d") n
run_qemu-Booted_example =
    run_qemu-Booted digest silent phrase 0 2 17530
      (record { had_content = true; stable = 2; prev_hash = codes "d41d" }) silent_found silent_exit

-- A machine that has the prompt in the serial log, and one picture.
abbrev still : Machine
still = record {
  before = λ n. record {
    serial = log_bytes (encode (codes "Please enter passphrase for disk root"));
    shot = ppm picture;
    later_shot = unreadable;
    takes = 10;
  };
  after = λ n. record {
    serial = log_bytes (encode (codes "Please enter passphrase for disk root"));
    shot = ppm picture;
    later_shot = unreadable;
    takes = 10;
  };
  typing = 30;
  stuck_key = none;
}

pub prompt_read :
    qemu_check_serial (log_bytes (encode (codes "Please enter passphrase for disk root")))
    ≡ some plymouth
unfolding qemu_check_serial check_text decode_strict encode encode_char marker_of sub_all exec
    escape_re without_codes
prompt_read = refl

pub picture_read : qemu_screendump digest (ppm picture) ≡ frame 2 1 (codes "d41d")
unfolding qemu_screendump
picture_read = refl

run_qemu-unchanged_example :
    run_qemu digest still phrase 0 ≡ record { exit = exited 0; sent = qemu_send_passphrase phrase }
run_qemu-unchanged_example =
    run_qemu-unchanged digest still 2 1 (codes "d41d") phrase 0 refl refl (omega arith) prompt_read
      (λ n. prompt_read) picture_read (λ n. picture_read)

-- A guest whose screen goes dark in the second round and that has a lease in the first after that.
abbrev guest : Guest
guest = record {
  before = λ n. record {
    code = some 0;
    size = some (if n == 0 then 9000 else 300);
    leases = none;
    takes = 5;
  };
  after = λ n. record {
    code = none;
    size = none;
    leases = some (encode (codes " 2026  52:54:00:AA:bb:cc  ipv4  192.168.122.7/24  vm\n"));
    takes = 5;
  };
  typing = 40;
  stuck_key = none;
}

guest_runs :
    run_libvirt guest (codes "52:54:00:aa:BB:cc") phrase 0
    ≡ record { exit = exited 0; sent = virsh_send_passphrase phrase }
unfolding run_libvirt takeover_loop lease_loop virsh_dhcp_ip decode_strict encode encode_char
guest_runs = refl

run_libvirt-IsTakeover_example : (n : ℕ) × IsTakeover guest (codes "52:54:00:aa:BB:cc") n
run_libvirt-IsTakeover_example =
    run_libvirt-IsTakeover guest (codes "52:54:00:aa:BB:cc") phrase 0
      (λ e. let p = sym (ap (λ o. o.sent) guest_runs) ∙ e in cc)

-- A live system that shows the picture in every round.
abbrev sights : ℕ → Sight
sights n = record { shot = ppm picture; copy = writes; takes = 20 }

run_wait_live-LiveEnds_example :
    LiveEnds digest sights (run_wait_live digest sights 0)
    × IsSaved digest sights (run_wait_live digest sights 0).live.saved
run_wait_live-LiveEnds_example = run_wait_live-LiveEnds digest sights 0
