-- ===== src/Luks/Markers.antt =====
-- xfce-linux/src/luks-unlock.py: `qemu_check_serial` of a log with colour codes in it.
use xfce_linux.Base.{
  ◌++◌, Bytes, encode, encode_char, take, IsScalar, decode_strict-cut, lt→ltb, ◌+◌, ◌≤◌, none, ℕ,
  ◌≡◌, ◌≢◌, refl, ap, sym, ◌∙◌, true, false, List, [], ◌∷◌, append-nil, Text, any, All,
  any-append_false, arith,
}
use xfce_linux.Regex.Removal.{sub_all-scan}
use xfce_linux.Regex.Pieces.{Piece, chars, code, render, text_of, is_escape, IsPiece, scan-render}
use xfce_linux.Luks.Serial.{
  Log, log_bytes, plymouth, is_param, is_letter, escape_re, without_codes, flat, marker_of,
  check_text, check_read, qemu_check_serial,
}
use xfce_linux.Luks.Exits.{raised, prompt_deadline}
use xfce_linux.Luks.Qemu.{Machine, prompt_round, prompt_loop, run_qemu}

letter_no_param : (c : ℕ) → is_param c ≡ true → is_letter c ≡ false
letter_no_param c h = ground arith

abbrev pub IsColoured : Piece → Type 0
IsColoured = IsPiece is_param is_letter

without_codes-render :
    (ps : List Piece) → All IsColoured ps → without_codes (render ps) ≡ text_of ps
unfolding without_codes escape_re
without_codes-render ps h =
    sub_all-scan is_param is_letter refl letter_no_param (render ps)
    ∙ scan-render is_param is_letter ps h

text_of-escape : (ps : List Piece) → All IsColoured ps → any is_escape (text_of ps) ≡ false
text_of-escape [] h = refl
text_of-escape (chars s ∷ ps) (h, hs) =
    any-append_false is_escape s (text_of ps) h (text_of-escape ps hs)
text_of-escape (code qs x ∷ ps) (h, hs) = text_of-escape ps hs

without_codes_plain : (s : Text) → any is_escape s ≡ false → without_codes s ≡ s
without_codes_plain s h =
    ap without_codes (sym (append-nil s))
    ∙ without_codes-render (chars s ∷ []) (h, tt)
    ∙ append-nil s

-- Where the prompt is found in neither of two logs with one content, the marker is the same.
marker_of_same :
    (raw text content words : Text)
    → marker_of raw content words ≢ plymouth
    → marker_of text content words ≢ plymouth
    → marker_of raw content words ≡ marker_of text content words
unfolding marker_of
marker_of_same raw text content words n m = ground arith

-- The colour codes of the serial log change nothing of what `qemu_check_serial` makes of it, unless
-- the prompt of the passphrase is found, which is looked for in the log as it is.
pub check_text-render :
    (ps : List Piece)
    → All IsColoured ps
    → check_text (render ps) ≢ plymouth
    → check_text (text_of ps) ≢ plymouth
    → check_text (render ps) ≡ check_text (text_of ps)
unfolding check_text
check_text-render ps h n m =
    let content = text_of ps in
    let p = without_codes-render ps h in
    let q = without_codes_plain content (text_of-escape ps h) in
    let n' = rw p at n in
    let m' = rw q at m in
    rw (p, q) (marker_of_same (render ps) content content (flat content) n' m')

-- The serial log as it is when the machine is in the middle of a character of several bytes.
abbrev pub cut_log : Text → ℕ → Log
cut_log s c = log_bytes (encode s ++ take 1 (encode_char c))

qemu_check_serial-cut_log :
    (s : Text) (c : ℕ)
    → All IsScalar s
    → 0x80 ≤ c
    → IsScalar c
    → qemu_check_serial (cut_log s c) ≡ none
unfolding qemu_check_serial
qemu_check_serial-cut_log s c h l k = ap check_read (decode_strict-cut s c h l k)

module _ (md5 : Bytes → Text) (m : Machine) where
  -- A serial log that ends in the first byte of a character of several, in the first round, ends the
  -- run by an exception before any key is sent.
  pub run_qemu-cut_log :
      (passphrase s : Text) (c start : ℕ)
      → All IsScalar s
      → 0x80 ≤ c
      → IsScalar c
      → (m.before 0).serial ≡ cut_log s c
      → run_qemu md5 m passphrase start ≡ record { exit = raised; sent = [] }
  unfolding run_qemu prompt_loop prompt_round
  run_qemu-cut_log passphrase s c start h l k e =
      let f = ap qemu_check_serial e ∙ qemu_check_serial-cut_log s c h l k in
      rw (lt→ltb start (start + prompt_deadline) (omega arith)) (rw f refl)
