-- ===== src/Base/Utf8Strict.antt =====
-- UTF-8: the strict decoder takes what is encoded, and refuses a character that is cut.
use Prim.Native.Nat.{ℕ, zero, suc, ◌+◌, ◌/◌, ◌%◌, ◌<◌, ◌≤◌}
use mathlib.Core.Path.{◌≡◌, refl, ap, sym, ◌∙◌}
use mathlib.Core.Logic.{inl, inr}
use mathlib.Core.Bool.{true, false, ◌&&◌}
use mathlib.Core.Option.{none, some}
use mathlib.Core.List.{[], ◌∷◌, ◌++◌, append_assoc, append-nil}
use native.Mathlib.Omega.{arith}
use xfce_linux.Base.Tests.{if◌then◌else◌, ltb, leb, ltb→lt, ltb→le, ◌==◌, Bool-cases}
use xfce_linux.Base.Lists.{All, take}
use xfce_linux.Base.Strings.{Text}
use xfce_linux.Base.Utf8.{
  Bytes, between, inside, lead, next_value, step, accepts, valid, decode_strict, encode_char,
  encode, IsScalar,
}
use xfce_linux.Base.Utf8Laws.{decode_whole, lead_four, below_top}

valid_one : (c : ℕ) (rest : Bytes) → c < 0x80 → valid between (c ∷ rest) ≡ valid between rest
unfolding valid accepts step lead
valid_one c rest h = ground arith

valid_two :
    (c : ℕ) (rest : Bytes)
    → 0x80 ≤ c
    → c < 0x800
    → valid between ((0xc0 + c / 64) ∷ (0x80 + c % 64) ∷ rest) ≡ valid between rest
unfolding valid accepts step lead
valid_two c rest l h = ground arith

valid_inside :
    (k lo hi acc b : ℕ) (bs : Bytes)
    → lo ≤ b
    → b ≤ hi
    → valid (inside (suc k) lo hi acc) (b ∷ bs) ≡ valid (inside k 0x80 0xbf (next_value acc b)) bs
unfolding valid accepts step
valid_inside k lo hi acc b bs l h =
    let e : (leb lo b && leb b hi) ≡ true = ground arith in rw e refl

valid_last :
    (lo hi acc b : ℕ) (bs : Bytes)
    → lo ≤ b
    → b ≤ hi
    → valid (inside zero lo hi acc) (b ∷ bs) ≡ valid between bs
unfolding valid accepts step
valid_last lo hi acc b bs l h = let e : (leb lo b && leb b hi) ≡ true = ground arith in rw e refl

lead_three :
    (q : ℕ)
    → q ≤ 15
    → lead (0xe0 + q)
      ≡ ([], inside 1 (if q == 0 then 0xa0 else 0x80) (if q == 13 then 0x9f else 0xbf) q)
unfolding lead
lead_three q h = ground arith

accepts_three : (q : ℕ) → q ≤ 15 → accepts between (0xe0 + q) ≡ true
unfolding accepts
accepts_three q h = ground arith

valid_two_more :
    (c lo hi acc : ℕ) (rest : Bytes)
    → lo ≤ 0x80 + c / 64 % 64
    → 0x80 + c / 64 % 64 ≤ hi
    → valid (inside 1 lo hi acc) ((0x80 + c / 64 % 64) ∷ (0x80 + c % 64) ∷ rest)
      ≡ valid between rest
valid_two_more c lo hi acc rest l h =
    valid_inside 0 lo hi acc (0x80 + c / 64 % 64) _ l h
    ∙ valid_last 0x80 0xbf (next_value acc (0x80 + c / 64 % 64)) (0x80 + c % 64) rest (omega arith)
        (omega arith)

-- The second byte of a character of three bytes is in the range that the first sets.
low_second :
    (c : ℕ) → 0x800 ≤ c → c < 0x10000 → (if c / 4096 == 0 then 0xa0 else 0x80) ≤ 0x80 + c / 64 % 64
low_second c l h = ground arith

high_second :
    (c : ℕ)
    → c < 0x10000
    → IsScalar c
    → 0x80 + c / 64 % 64 ≤ (if c / 4096 == 13 then 0x9f else 0xbf)
high_second c h (inl u) = ground arith
high_second c h (inr (u, v)) = ground arith

valid_three :
    (c : ℕ) (rest : Bytes)
    → 0x800 ≤ c
    → c < 0x10000
    → IsScalar c
    → valid between ((0xe0 + c / 4096) ∷ (0x80 + c / 64 % 64) ∷ (0x80 + c % 64) ∷ rest)
      ≡ valid between rest
unfolding valid step
valid_three c rest l h k =
    let q = c / 4096 in
    let p : q ≤ 15 = omega arith in
    rw (accepts_three q p, lead_three q p)
      (valid_two_more c (if q == 0 then 0xa0 else 0x80) (if q == 13 then 0x9f else 0xbf) q rest
        (low_second c l h) (high_second c h k))

valid_three_more :
    (c lo hi : ℕ) (rest : Bytes)
    → lo ≤ 0x80 + c / 4096 % 64
    → 0x80 + c / 4096 % 64 ≤ hi
    → valid
        (inside 2 lo hi (c / 262144))
        ((0x80 + c / 4096 % 64) ∷ (0x80 + c / 64 % 64) ∷ (0x80 + c % 64) ∷ rest)
      ≡ valid between rest
valid_three_more c lo hi rest l h =
    let q = c / 262144 in
    let r = next_value q (0x80 + c / 4096 % 64) in
    let s = next_value r (0x80 + c / 64 % 64) in
    valid_inside 1 lo hi q (0x80 + c / 4096 % 64) _ l h
    ∙ valid_inside 0 0x80 0xbf r (0x80 + c / 64 % 64) _ (omega arith) (omega arith)
    ∙ valid_last 0x80 0xbf s (0x80 + c % 64) rest (omega arith) (omega arith)

accepts_four : (q : ℕ) → q ≤ 4 → accepts between (0xf0 + q) ≡ true
unfolding accepts
accepts_four q h = ground arith

valid_four :
    (c : ℕ) (rest : Bytes)
    → 0x10000 ≤ c
    → c < 0x110000
    → valid between (
        (0xf0 + c / 262144)
        ∷ (0x80 + c / 4096 % 64)
        ∷ (0x80 + c / 64 % 64)
        ∷ (0x80 + c % 64)
        ∷ rest)
      ≡ valid between rest
unfolding valid step
valid_four c rest l h =
    let q = c / 262144 in
    let p : q ≤ 4 = omega arith in
    rw (accepts_four q p, lead_four q p)
      (valid_three_more c (if q == 0 then 0x90 else 0x80) (if q == 4 then 0x8f else 0xbf) rest
        (ground arith) (ground arith))

valid-encode_char :
    (c : ℕ) (rest : Bytes) → IsScalar c → valid between (encode_char c ++ rest) ≡ valid between rest
unfolding encode_char
valid-encode_char c rest h = elim (Bool-cases (ltb c 0x80)) [
  | inl e ↦ rw e (valid_one c rest (ltb→lt c 0x80 e))
  | inr e ↦ rw e (elim (Bool-cases (ltb c 0x800)) [
    | inl f ↦ rw f (valid_two c rest (ltb→le c 0x80 e) (ltb→lt c 0x800 f))
    | inr f ↦ rw f (elim (Bool-cases (ltb c 0x10000)) [
      | inl g ↦ rw g (valid_three c rest (ltb→le c 0x800 f) (ltb→lt c 0x10000 g) h)
      | inr g ↦ rw g (valid_four c rest (ltb→le c 0x10000 g) (below_top c h))
    ])
  ])
]

valid-encode :
    (s : Text) (rest : Bytes)
    → All IsScalar s
    → valid between (encode s ++ rest) ≡ valid between rest
unfolding encode
valid-encode [] rest h = refl
valid-encode (c ∷ s) rest (h, hs) =
    ap (valid between) (append_assoc (encode_char c) (encode s) rest)
    ∙ valid-encode_char c (encode s ++ rest) h
    ∙ valid-encode s rest hs

valid_nil : valid between [] ≡ true
unfolding valid
valid_nil = refl

pub decode_strict-encode : (s : Text) → All IsScalar s → decode_strict (encode s) ≡ some s
unfolding decode_strict
decode_strict-encode s h =
    let e = ap (valid between) (sym (append-nil (encode s))) ∙ valid-encode s [] h ∙ valid_nil in
    rw e (ap some (decode_whole s h))

-- The first byte of a character of several bytes.
cut_lead : (b : ℕ) → 0xc2 ≤ b → b < 0xf5 → valid between (b ∷ []) ≡ false
unfolding valid accepts step lead
cut_lead b l h = ground arith

cut_char : (c : ℕ) → 0x80 ≤ c → IsScalar c → valid between (take 1 (encode_char c)) ≡ false
unfolding encode_char
cut_char c l h =
    let top = below_top c h in
    let e : ltb c 0x80 ≡ false = ground arith in
    rw e (elim (Bool-cases (ltb c 0x800)) [
      | inl f ↦
          let u = ltb→lt c 0x800 f in rw f (cut_lead (0xc0 + c / 64) (omega arith) (omega arith))
      | inr f ↦
          let v = ltb→le c 0x800 f in
          rw f (elim (Bool-cases (ltb c 0x10000)) [
            | inl g ↦
                let u = ltb→lt c 0x10000 g in
                rw g (cut_lead (0xe0 + c / 4096) (omega arith) (omega arith))
            | inr g ↦ rw g (cut_lead (0xf0 + c / 262144) (omega arith) (omega arith))
          ])
    ])

-- Of a text and the front of a character of several bytes it makes nothing.
pub decode_strict-cut :
    (s : Text) (c : ℕ)
    → All IsScalar s
    → 0x80 ≤ c
    → IsScalar c
    → decode_strict (encode s ++ take 1 (encode_char c)) ≡ none
unfolding decode_strict
decode_strict-cut s c h l k = rw (valid-encode s (take 1 (encode_char c)) h ∙ cut_char c l k) refl
