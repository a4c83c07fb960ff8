-- ===== src/Luks/Screen.antt =====
-- xfce-linux/src/luks-unlock.py: `qemu_screendump`. MD5 is an argument.
use xfce_linux.Base.{
  ℕ, zero, suc, ◌+◌, ◌*◌, Bool, false, Option, none, some, List, [], ◌∷◌, Text, codes, length, drop,
  starts_with, ltb, leb, if◌then◌else◌,
}

abbrev pub Bytes : Type 0
Bytes = List ℕ

-- What one call finds: `socat` does not return in 5 seconds, `open` or `read` raises an `OSError`,
-- or the file has these bytes.
pub data Shot : Type 0 where
  socat_stuck unreadable : Shot
  ppm : Bytes → Shot

-- What the call returns: it raises `TimeoutExpired`, it returns `-1, ""`, or the brightness, as the
-- sum and the number of the samples, and the digest.
pub data Dump : Type 0 where
  dump_raised no_frame : Dump
  frame : ℕ → ℕ → Text → Dump

-- `data.index(s)`
abbrev pub suc_index : Option ℕ → Option ℕ
suc_index none = none
suc_index (some n) = some (suc n)

abbrev pub index_of : Text → Bytes → Option ℕ
index_of s [] = none
index_of s (b ∷ bs) =
    let rest = index_of s bs in if starts_with (b ∷ bs) s then some 0 else suc_index rest

-- `pixel_data[::100]`; the number counts the bytes to skip.
abbrev pub every_100th : ℕ → Bytes → Bytes
every_100th skip [] = []
every_100th zero (b ∷ bs) = b ∷ every_100th 99 bs
every_100th (suc skip) (b ∷ bs) = every_100th skip bs

abbrev pub sum : Bytes → ℕ
sum [] = 0
sum (b ∷ bs) = b + sum bs

abbrev pub frame_of : Text → Bytes → Dump
frame_of hash [] = no_frame
frame_of hash (b ∷ bs) =
    let sampled = every_100th 0 (b ∷ bs) in frame (sum sampled) (length sampled) hash

abbrev pub header_at : Text → Bytes → Option ℕ → Dump
header_at hash bytes none = no_frame
header_at hash bytes (some i) = frame_of hash (drop (i + 4) bytes)

-- `qemu_screendump`
unfoldable pub qemu_screendump : (Bytes → Text) → Shot → Dump
qemu_screendump md5 socat_stuck = dump_raised
qemu_screendump md5 unreadable = no_frame
qemu_screendump md5 (ppm bytes) = header_at (md5 bytes) bytes (index_of (codes "255\n") bytes)

-- `brightness > a / b` and `brightness >= a / b`
abbrev pub brighter : ℕ → ℕ → Dump → Bool
brighter a b dump_raised = false
brighter a b no_frame = false
brighter a b (frame total count hash) = ltb (a * count) (total * b)

abbrev pub as_bright : ℕ → ℕ → Dump → Bool
as_bright a b dump_raised = false
as_bright a b no_frame = false
as_bright a b (frame total count hash) = leb (a * count) (total * b)

-- `md5`
abbrev pub hash_of : Dump → Text
hash_of dump_raised = []
hash_of no_frame = []
hash_of (frame total count hash) = hash
