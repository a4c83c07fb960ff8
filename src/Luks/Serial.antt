-- ===== src/Luks/Serial.antt =====
-- xfce-linux/src/luks-unlock.py: `qemu_check_serial`.
use xfce_linux.Base.{
  Bytes, decode_strict, starts_with, ◌∷◌, ℕ, Bool, ◌||◌, Option, none, some, [], Text, codes,
  contains_text, join, ◌==◌, if◌then◌else◌, split_words,
}
use xfce_linux.Regex.{Regex, sat, star, chr, ◌▸◌, sub_all, is_digit, is_lower, is_upper}

-- The file: `open` or `read` raises an `OSError`, or it has these bytes.
pub data Log : Type 0 where
  no_log : Log
  log_bytes : Bytes → Log

-- The line ends of a file that is read as text.
abbrev pub universal_newlines : Text → Text
universal_newlines [] = []
universal_newlines (c ∷ s) =
    let rest = universal_newlines s in
    if c == 13 then (if starts_with s (10 ∷ []) then rest else 10 ∷ rest) else c ∷ rest

-- The strings that `qemu_check_serial` returns.
pub data Marker : Type 0 where
  emergency initial_setup gdm plymouth nothing : Marker

abbrev pub is_param : ℕ → Bool
is_param c = is_digit c || c == b';'

abbrev pub is_letter : ℕ → Bool
is_letter c = is_lower c || is_upper c

unfoldable pub escape_re : Regex
escape_re = chr 0x1b ▸ chr b'[' ▸ star (sat is_param) ▸ sat is_letter

unfoldable pub without_codes : Text → Text
unfolding sub_all escape_re
without_codes raw = sub_all escape_re [] raw

-- `' '.join(content.split())`
abbrev pub flat : Text → Text
flat s = join (codes " ") (split_words s)

unfoldable pub marker_of : Text → Text → Text → Marker
marker_of raw content content_flat =
    if contains_text content (codes "emergency mode")
      || contains_text content (codes "emergency shell")
    then emergency
    else if contains_text content_flat (codes "Started gnome-initial-setup")
    then initial_setup
    else if contains_text content_flat (codes "Started gdm.service")
        || contains_text content_flat (codes "Started GNOME Display Manager")
    then gdm
    else if contains_text raw (codes "Please enter passphrase for disk")
    then plymouth
    else nothing

-- `qemu_check_serial` of the text that is read.
unfoldable pub check_text : Text → Marker
unfolding marker_of without_codes
check_text raw = let content = without_codes raw in marker_of raw content (flat content)

abbrev pub check_read : Option Text → Option Marker
check_read none = none
check_read (some text) = some (check_text (universal_newlines text))

-- `qemu_check_serial`; `none` is the `UnicodeDecodeError`, which it does not catch.
unfoldable pub qemu_check_serial : Log → Option Marker
unfolding check_text decode_strict
qemu_check_serial no_log = some nothing
qemu_check_serial (log_bytes bytes) = check_read (decode_strict bytes)
