-- ===== src/Luks/Typing.antt =====
-- xfce-linux/src/luks-unlock.py: what the keys type on a US keyboard.
use xfce_linux.Base.{
  ℕ, ◌+◌, ◌≡◌, refl, ap, Bool, ◌&&◌, ◌||◌, Option, none, some, List, [], ◌∷◌, ◌++◌, Text, codes,
  keep, map, text_eq, leb, ◌==◌, ◌∙◌, if◌then◌else◌, arith, starts_with, drop, Bool-cases, inl, inr,
}
use xfce_linux.Luks.Keys.{
  is_small, is_number, virsh_key, qemu_key, send_keys, virsh_send_passphrase, qemu_send_passphrase,
}

-- The characters that have a key.
abbrev pub has_key : ℕ → Bool
has_key c = is_small c || is_number c || c == b'-' || c == b'_' || c == b' '

-- What a key of QEMU's `sendkey` types.
abbrev one_char : Text → Option ℕ
one_char [] = none
one_char (c ∷ []) = some c
one_char (c ∷ d ∷ s) = none

abbrev pub qemu_types : Text → Option ℕ
qemu_types k =
    if text_eq k (codes "minus")
    then some b'-'
    else if text_eq k (codes "shift-minus")
    then some b'_'
    else if text_eq k (codes "spc")
    then some b' '
    else if text_eq k (codes "ret")
    then some 10
    else one_char k

-- What a key of Linux types, by its name.
abbrev small_of : ℕ → ℕ
small_of c = if leb b'A' c && leb c b'Z' then c + 32 else c

abbrev named : Text → Option ℕ
named [] = none
named (c ∷ []) = some (small_of c)
named (c ∷ d ∷ s) = none

abbrev pub virsh_types : Text → Option ℕ
virsh_types k =
    if text_eq k (codes "KEY_MINUS")
    then some b'-'
    else if text_eq k (codes "KEY_SPACE")
    then some b' '
    else if text_eq k (codes "KEY_ENTER")
    then some 10
    else if starts_with k (codes "KEY_")
    then named (drop 4 k)
    else none

abbrev cons_typed : Option ℕ → Text → Text
cons_typed none s = s
cons_typed (some c) s = c ∷ s

-- What a sequence of keys types.
abbrev pub typed : (Text → Option ℕ) → List Text → Text
typed types [] = []
typed types (k ∷ ks) = cons_typed (types k) (typed types ks)

abbrev pub dash : ℕ → ℕ
dash c = if c == b'_' then b'-' else c

-- One character goes through the key map and the keyboard.
abbrev Types : (ℕ → Option Text) → (Text → Option ℕ) → (ℕ → ℕ) → ℕ → Type 0
Types key_of types f c =
    (ts : Text) (keys : List Text)
    → typed types keys ≡ ts
    → typed types (send_keys key_of (c ∷ []) keys) ≡ (if has_key c then f c ∷ ts else ts)

qemu_key-Types : (c : ℕ) → Types qemu_key qemu_types (λ x. x) c
qemu_key-Types c ts keys h = ground arith

virsh_key-Types : (c : ℕ) → Types virsh_key virsh_types dash c
virsh_key-Types c ts keys h = ground arith

send_keys-typed :
    (key_of : ℕ → Option Text) (types : Text → Option ℕ) (f : ℕ → ℕ)
    → ((c : ℕ) → Types key_of types f c)
    → (s : Text) (last : List Text)
    → typed types (send_keys key_of s last) ≡ map f (keep has_key s) ++ typed types last
send_keys-typed key_of types f step [] last = refl
send_keys-typed key_of types f step (c ∷ s) last = elim (Bool-cases (has_key c)) [
  | inl e ↦
      rw e (
        step c _ (send_keys key_of s last) (send_keys-typed key_of types f step s last) ∙ rw e refl)
  | inr e ↦
      rw e (
        step c _ (send_keys key_of s last) (send_keys-typed key_of types f step s last) ∙ rw e refl)
]

map_same : (s : Text) → map (λ (x : ℕ). x) s ≡ s
map_same [] = refl
map_same (c ∷ s) = ap (λ t. c ∷ t) (map_same s)

-- On QEMU's monitor the keys that are sent type the passphrase, without the characters that have no
-- key, and a newline.
pub qemu_send_passphrase-typed :
    (s : Text) → typed qemu_types (qemu_send_passphrase s) ≡ keep has_key s ++ 10 ∷ []
qemu_send_passphrase-typed s =
    send_keys-typed qemu_key qemu_types (λ x. x) qemu_key-Types s (codes "ret" ∷ [])
    ∙ ap (λ t. t ++ 10 ∷ []) (map_same (keep has_key s))

-- By `virsh send-key` they type the same with every underscore as a dash.
pub virsh_send_passphrase-typed :
    (s : Text) → typed virsh_types (virsh_send_passphrase s) ≡ map dash (keep has_key s) ++ 10 ∷ []
virsh_send_passphrase-typed s =
    send_keys-typed virsh_key virsh_types dash virsh_key-Types s (codes "KEY_ENTER" ∷ [])
