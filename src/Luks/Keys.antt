-- ===== src/Luks/Keys.antt =====
-- xfce-linux/src/luks-unlock.py: the key maps, and the keys that the two `*_send_passphrase` send.
use xfce_linux.Base.{
  ℕ, Bool, ◌&&◌, ◌||◌, Option, none, some, List, [], ◌∷◌, ◌++◌, Text, codes, leb, ◌==◌,
  if◌then◌else◌, upper,
}

abbrev pub is_small : ℕ → Bool
is_small c = leb b'a' c && leb c b'z'

abbrev pub is_number : ℕ → Bool
is_number c = leb b'0' c && leb c b'9'

-- `key_map.get(ch)` of `virsh_send_passphrase`
abbrev pub virsh_key : ℕ → Option Text
virsh_key c =
    if is_small c
    then some (codes "KEY_" ++ upper c ∷ [])
    else if is_number c
    then some (codes "KEY_" ++ c ∷ [])
    else if c == b'-' || c == b'_'
    then some (codes "KEY_MINUS")
    else if c == b' '
    then some (codes "KEY_SPACE")
    else none

-- `key_map.get(ch)` of `qemu_send_passphrase`
abbrev pub qemu_key : ℕ → Option Text
qemu_key c =
    if is_small c || is_number c
    then some (c ∷ [])
    else if c == b'-'
    then some (codes "minus")
    else if c == b'_'
    then some (codes "shift-minus")
    else if c == b' '
    then some (codes "spc")
    else none

abbrev pub cons_key : Option Text → List Text → List Text
cons_key none keys = keys
cons_key (some k) keys = k ∷ keys

-- The loop over the passphrase; a character with no key is left out.
abbrev pub send_keys : (ℕ → Option Text) → Text → List Text → List Text
send_keys key_of [] last = last
send_keys key_of (c ∷ s) last = cons_key (key_of c) (send_keys key_of s last)

-- The keys of `virsh_send_passphrase`, one `virsh send-key` for each.
abbrev pub virsh_send_passphrase : Text → List Text
virsh_send_passphrase s = send_keys virsh_key s (codes "KEY_ENTER" ∷ [])

-- The keys of `qemu_send_passphrase`, one `sendkey` for each.
abbrev pub qemu_send_passphrase : Text → List Text
qemu_send_passphrase s = send_keys qemu_key s (codes "ret" ∷ [])
