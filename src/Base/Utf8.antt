-- ===== src/Base/Utf8.antt =====
-- Python's `bytes.decode("utf-8", errors="replace")` and `str.encode()`: each longest front of a
-- character that is not finished, and each other byte that begins none, becomes U+FFFD.
use Prim.Native.Nat.{ℕ, zero, suc, ◌+◌, ◌-◌, ◌*◌, ◌/◌, ◌%◌, ◌<◌}
use mathlib.Core.Logic.{◌⊎◌}
use mathlib.Core.Bool.{Bool, true, false, ◌&&◌, ◌||◌}
use mathlib.Core.Option.{Option, none, some}
use mathlib.Core.List.{List, [], ◌∷◌, ◌++◌}
use xfce_linux.Base.Tests.{if◌then◌else◌, ltb, leb, ◌==◌}
use xfce_linux.Base.Strings.{Text}

abbrev pub Bytes : Type 0
Bytes = List ℕ

-- Between two characters, or in one: the bytes that follow the next, its range, and the value so far.
pub data Pending : Type 0 where
  between : Pending
  inside : ℕ → ℕ → ℕ → ℕ → Pending

abbrev pub replacement : ℕ
replacement = 0xfffd

-- A byte that begins a character, or is one, or is none.
unfoldable pub lead : ℕ → Text × Pending
lead b =
    if ltb b 0x80
    then (b ∷ [], between)
    else if ltb b 0xc2
    then (replacement ∷ [], between)
    else if ltb b 0xe0
    then ([], inside 0 0x80 0xbf (b - 0xc0))
    else if b == 0xe0
    then ([], inside 1 0xa0 0xbf 0)
    else if b == 0xed
    then ([], inside 1 0x80 0x9f 0xd)
    else if ltb b 0xf0
    then ([], inside 1 0x80 0xbf (b - 0xe0))
    else if b == 0xf0
    then ([], inside 2 0x90 0xbf 0)
    else if ltb b 0xf4
    then ([], inside 2 0x80 0xbf (b - 0xf0))
    else if b == 0xf4
    then ([], inside 2 0x80 0x8f 4)
    else (replacement ∷ [], between)

abbrev pub after_failure : Text × Pending → Text × Pending
after_failure (out, p) = (replacement ∷ out, p)

abbrev pub next_value : ℕ → ℕ → ℕ
next_value acc b = acc * 64 + (b - 0x80)

unfoldable pub step : Pending → ℕ → Text × Pending
unfolding lead
step between b = lead b
step (inside zero lo hi acc) b =
    if leb lo b && leb b hi then (next_value acc b ∷ [], between) else after_failure (lead b)
step (inside (suc k) lo hi acc) b =
    if leb lo b && leb b hi
    then ([], inside k 0x80 0xbf (next_value acc b))
    else after_failure (lead b)

abbrev pub unfinished : Pending → Text
unfinished between = []
unfinished (inside k lo hi acc) = replacement ∷ []

abbrev pub put : (Pending → Text) → Text × Pending → Text
put go (out, p) = out ++ go p

unfoldable pub run : Pending → Bytes → Text
unfolding step
run p [] = unfinished p
run p (b ∷ bs) = put (λ q. run q bs) (step p b)

unfoldable pub decode : Bytes → Text
unfolding run
decode bs = run between bs

-- Whether a byte goes on with a text, or with the character that is open.
unfoldable pub accepts : Pending → ℕ → Bool
accepts between b = ltb b 0x80 || (leb 0xc2 b && ltb b 0xf5)
accepts (inside k lo hi acc) b = leb lo b && leb b hi

unfoldable pub valid : Pending → Bytes → Bool
unfolding accepts step
valid between [] = true
valid (inside k lo hi acc) [] = false
valid between (b ∷ bs) =
    let rest = valid (step between b).1 bs in if accepts between b then rest else false
valid (inside k lo hi acc) (b ∷ bs) =
    let rest = valid (step (inside k lo hi acc) b).1 bs in
    if accepts (inside k lo hi acc) b then rest else false

-- `bytes.decode("utf-8")`, which raises where a character is not whole.
unfoldable pub decode_strict : Bytes → Option Text
unfolding valid decode
decode_strict bs = if valid between bs then some (decode bs) else none

-- `encode` of one character.
unfoldable pub encode_char : ℕ → Bytes
encode_char c =
    if ltb c 0x80
    then c ∷ []
    else if ltb c 0x800
    then (0xc0 + c / 64) ∷ (0x80 + c % 64) ∷ []
    else if ltb c 0x10000
    then (0xe0 + c / 4096) ∷ (0x80 + c / 64 % 64) ∷ (0x80 + c % 64) ∷ []
    else (0xf0 + c / 262144) ∷ (0x80 + c / 4096 % 64) ∷ (0x80 + c / 64 % 64) ∷ (0x80 + c % 64) ∷ []

unfoldable pub encode : Text → Bytes
encode [] = []
encode (c ∷ s) = encode_char c ++ encode s

-- A character that UTF-8 can carry.
abbrev pub IsScalar : ℕ → Type 0
IsScalar c = (c < 0xd800) ⊎ ((0xdfff < c) × (c < 0x110000))
