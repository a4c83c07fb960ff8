-- ===== src/Luks/BootTests.antt =====
-- xfce-linux/src/luks-unlock.py: a machine that asks for the passphrase and boots.
use xfce_linux.Base.{
  low-IsScalar, encode, encode_char, decode_strict, ℕ, ◌≡◌, ◌≢◌, refl, true, List, [], ◌∷◌, Bool,
  Bool-cases, inl, inr, codes, none, some, arith, if◌then◌else◌, ◌==◌, sym, ◌∙◌,
}
use xfce_linux.Regex.{exec, sub_all}
use xfce_linux.Luks.Keys.{qemu_send_passphrase}
use xfce_linux.Luks.Screen.{ppm, unreadable, qemu_screendump, dump_raised, no_frame}
use xfce_linux.Luks.Serial.{
  Log, log_bytes, no_log, qemu_check_serial, check_text, marker_of, without_codes, escape_re, gdm,
  nothing,
}
use xfce_linux.Luks.Exits.{exited, raised}
use xfce_linux.Luks.Qemu.{Machine, run_qemu}
use xfce_linux.Luks.Liveness.{IsQuiet, IsBright}
use xfce_linux.Regex.Pieces.{Piece, chars, code, render, text_of}
use xfce_linux.Luks.Markers.{cut_log, check_text-render, run_qemu-cut_log}
use xfce_linux.Luks.Boots.{run_qemu-well}
use xfce_linux.Luks.Tests.{digest, picture, phrase, prompt_read, picture_read}

abbrev before_log : Bool → Log
before_log b =
    if b then log_bytes (encode (codes "Please enter passphrase for disk root")) else no_log

abbrev after_log : Bool → Log
after_log b =
    if b then log_bytes (encode (codes "[  OK  ] Started \u{1b}[0;1mgdm.service")) else no_log

-- It asks in the second round, and boots in the fourth round after the passphrase.
abbrev booting : Machine
booting = record {
  before = λ n. record {
    serial = before_log (n == 1);
    shot = ppm picture;
    later_shot = unreadable;
    takes = 10;
  };
  after = λ n. record {
    serial = after_log (n == 3);
    shot = ppm picture;
    later_shot = unreadable;
    takes = 10;
  };
  typing = 30;
  stuck_key = none;
}

gdm_read : qemu_check_serial (after_log true) ≡ some gdm
unfolding qemu_check_serial check_text decode_strict encode encode_char marker_of sub_all exec
    escape_re without_codes
gdm_read = refl

no_log_read : qemu_check_serial no_log ≡ some nothing
unfolding qemu_check_serial
no_log_read = refl

unreadable_read : qemu_screendump digest unreadable ≡ no_frame
unfolding qemu_screendump
unreadable_read = refl

picture_shown : qemu_screendump digest (ppm picture) ≢ dump_raised
picture_shown e = let p = sym picture_read ∙ e in cc

before-IsQuiet : (n : ℕ) → IsQuiet digest 10 (booting.before n)
before-IsQuiet n = record {
  no_error = λ e. elim (Bool-cases (n == 1)) [
    | inl k ↦ let p = sym prompt_read ∙ (rw k at e) in cc
    | inr k ↦ let p = sym no_log_read ∙ (rw k at e) in cc
  ];
  shown = picture_shown;
  soon = omega arith;
}

after-IsBright : (n : ℕ) → IsBright digest 10 (booting.after n)
after-IsBright n = record {
  quiet = record {
    no_error = λ e. elim (Bool-cases (n == 3)) [
      | inl k ↦ let p = sym gdm_read ∙ (rw k at e) in cc
      | inr k ↦ let p = sym no_log_read ∙ (rw k at e) in cc
    ];
    shown = picture_shown;
    soon = omega arith;
  };
  no_emergency = λ e. elim (Bool-cases (n == 3)) [
    | inl k ↦ let p = sym gdm_read ∙ (rw k at e) in cc
    | inr k ↦ let p = sym no_log_read ∙ (rw k at e) in cc
  ];
  later_shown = λ e. let p = sym unreadable_read ∙ e in cc;
  bright = rw picture_read refl;
}

run_qemu-well_example :
    run_qemu digest booting phrase 0
    ≡ record { exit = exited 0; sent = qemu_send_passphrase phrase }
run_qemu-well_example =
    run_qemu-well digest 10 booting phrase 0 1 3 refl (λ j i. before-IsQuiet j) prompt_read
      (omega arith) (λ j i. after-IsBright j) (inl gdm_read) (omega arith)

abbrev coloured : List Piece
coloured =
    code (codes "32") b'm'
    ∷ chars (codes "[  OK  ] Started ")
    ∷ code (codes "0;1") b'm'
    ∷ chars (codes "gdm.service")
    ∷ []

coloured_read : check_text (render coloured) ≡ gdm
unfolding check_text marker_of sub_all exec escape_re without_codes
coloured_read = refl

text_read : check_text (text_of coloured) ≡ gdm
unfolding check_text marker_of sub_all exec escape_re without_codes
text_read = refl

check_text-render_example : check_text (render coloured) ≡ check_text (text_of coloured)
check_text-render_example =
    check_text-render coloured ((refl, refl, refl), (refl, ((refl, refl, refl), (refl, tt))))
      (λ e. let p = sym coloured_read ∙ e in cc) (λ e. let p = sym text_read ∙ e in cc)

-- A machine that is about to write the ellipsis of its first line.
abbrev writing : Machine
writing = record booting {
  before = λ n. record {
    serial = cut_log (codes "Starting") 0x2026;
    shot = unreadable;
    later_shot = unreadable;
    takes = 10;
  };
}

run_qemu-cut_log_example : run_qemu digest writing phrase 0 ≡ record { exit = raised; sent = [] }
run_qemu-cut_log_example =
    run_qemu-cut_log digest writing phrase (codes "Starting") 0x2026 0
      (low-IsScalar (codes "Starting") refl) (omega arith) (inl (omega arith)) refl
