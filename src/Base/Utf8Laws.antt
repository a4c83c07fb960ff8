-- ===== src/Base/Utf8Laws.antt =====
-- UTF-8: what is encoded is decoded, and what becomes of a character that is cut.
use Prim.Native.Nat.{ℕ, zero, suc, ◌+◌, ◌/◌, ◌%◌, ◌<◌, ◌≤◌}
use mathlib.Core.Path.{◌≡◌, refl, ap, sym, ◌∙◌}
use mathlib.Core.Logic.{◌≢◌, inl, inr}
use mathlib.Core.Bool.{true, false, ◌&&◌, not}
use mathlib.Core.List.{[], ◌∷◌, ◌++◌, append_assoc, append-nil, map}
use native.Mathlib.Omega.{arith}
use xfce_linux.Base.Tests.{if◌then◌else◌, ltb, leb, ltb→lt, ltb→le, ◌==◌, Bool-cases}
use xfce_linux.Base.Lists.{All, any}
use xfce_linux.Base.Strings.{Text}
use xfce_linux.Base.Utf8.{
  Bytes, between, inside, replacement, lead, next_value, step, run, decode, encode_char, encode,
  IsScalar,
}

pub below_top : (c : ℕ) → IsScalar c → c < 0x110000
below_top c (inl u) = omega arith
below_top c (inr (u, v)) = v

run_one : (c : ℕ) (rest : Bytes) → c < 0x80 → run between (c ∷ rest) ≡ c ∷ run between rest
unfolding run step lead
run_one c rest h = ground arith

run_two :
    (c : ℕ) (rest : Bytes)
    → 0x80 ≤ c
    → c < 0x800
    → run between ((0xc0 + c / 64) ∷ (0x80 + c % 64) ∷ rest) ≡ c ∷ run between rest
unfolding run step lead
run_two c rest l h = ground arith

run_three :
    (c : ℕ) (rest : Bytes)
    → 0x800 ≤ c
    → c < 0x10000
    → IsScalar c
    → run between ((0xe0 + c / 4096) ∷ (0x80 + c / 64 % 64) ∷ (0x80 + c % 64) ∷ rest)
      ≡ c ∷ run between rest
unfolding run step lead
run_three c rest l h (inl u) = ground arith
run_three c rest l h (inr (u, v)) = ground arith

run_inside :
    (k lo hi acc b : ℕ) (bs : Bytes)
    → lo ≤ b
    → b ≤ hi
    → run (inside (suc k) lo hi acc) (b ∷ bs) ≡ run (inside k 0x80 0xbf (next_value acc b)) bs
unfolding run step
run_inside k lo hi acc b bs l h = let e : (leb lo b && leb b hi) ≡ true = ground arith in rw e refl

run_last :
    (lo hi acc b : ℕ) (bs : Bytes)
    → lo ≤ b
    → b ≤ hi
    → run (inside zero lo hi acc) (b ∷ bs) ≡ next_value acc b ∷ run between bs
unfolding run step
run_last lo hi acc b bs l h = let e : (leb lo b && leb b hi) ≡ true = ground arith in rw e refl

-- The three bytes behind the first of four.
run_three_more :
    (c lo hi : ℕ) (rest : Bytes)
    → lo ≤ 0x80 + c / 4096 % 64
    → 0x80 + c / 4096 % 64 ≤ hi
    → run
        (inside 2 lo hi (c / 262144))
        ((0x80 + c / 4096 % 64) ∷ (0x80 + c / 64 % 64) ∷ (0x80 + c % 64) ∷ rest)
      ≡ c ∷ run between rest
run_three_more c lo hi rest l h =
    let q = c / 262144 in
    let r = next_value q (0x80 + c / 4096 % 64) in
    let s = next_value r (0x80 + c / 64 % 64) in
    let e : next_value s (0x80 + c % 64) ≡ c = omega arith in
    run_inside 1 lo hi q (0x80 + c / 4096 % 64) _ l h
    ∙ run_inside 0 0x80 0xbf r (0x80 + c / 64 % 64) _ (omega arith) (omega arith)
    ∙ run_last 0x80 0xbf s (0x80 + c % 64) rest (omega arith) (omega arith)
    ∙ ap (λ x. x ∷ run between rest) e

pub lead_four :
    (q : ℕ)
    → q ≤ 4
    → lead (0xf0 + q)
      ≡ ([], inside 2 (if q == 0 then 0x90 else 0x80) (if q == 4 then 0x8f else 0xbf) q)
unfolding lead
lead_four zero h = refl
lead_four (suc zero) h = refl
lead_four (suc (suc zero)) h = refl
lead_four (suc (suc (suc zero))) h = refl
lead_four (suc (suc (suc (suc zero)))) h = refl
lead_four (suc (suc (suc (suc (suc n))))) h = absurd (omega arith)

run_four :
    (c : ℕ) (rest : Bytes)
    → 0x10000 ≤ c
    → c < 0x110000
    → run between (
        (0xf0 + c / 262144)
        ∷ (0x80 + c / 4096 % 64)
        ∷ (0x80 + c / 64 % 64)
        ∷ (0x80 + c % 64)
        ∷ rest)
      ≡ c ∷ run between rest
unfolding run step
run_four c rest l h =
    let q = c / 262144 in
    let p : q ≤ 4 = omega arith in
    rw (lead_four q p) (
      run_three_more c (if q == 0 then 0x90 else 0x80) (if q == 4 then 0x8f else 0xbf) rest
        (ground arith) (ground arith))

run-encode_char :
    (c : ℕ) (rest : Bytes) → IsScalar c → run between (encode_char c ++ rest) ≡ c ∷ run between rest
unfolding encode_char
run-encode_char c rest h = elim (Bool-cases (ltb c 0x80)) [
  | inl e ↦ rw e (run_one c rest (ltb→lt c 0x80 e))
  | inr e ↦ rw e (elim (Bool-cases (ltb c 0x800)) [
    | inl f ↦ rw f (run_two c rest (ltb→le c 0x80 e) (ltb→lt c 0x800 f))
    | inr f ↦ rw f (elim (Bool-cases (ltb c 0x10000)) [
      | inl g ↦ rw g (run_three c rest (ltb→le c 0x800 f) (ltb→lt c 0x10000 g) h)
      | inr g ↦ rw g (run_four c rest (ltb→le c 0x10000 g) (below_top c h))
    ])
  ])
]

-- A text that is encoded is decoded to itself, whatever bytes follow it.
pub decode-encode :
    (s : Text) (rest : Bytes) → All IsScalar s → decode (encode s ++ rest) ≡ s ++ decode rest
unfolding decode encode
decode-encode [] rest h = refl
decode-encode (c ∷ s) rest (h, hs) =
    ap decode (append_assoc (encode_char c) (encode s) rest)
    ∙ run-encode_char c (encode s ++ rest) h
    ∙ ap (λ t. c ∷ t) (decode-encode s rest hs)

pub decode_whole : (s : Text) → All IsScalar s → decode (encode s) ≡ s
unfolding decode
decode_whole s h = ap decode (sym (append-nil (encode s))) ∙ decode-encode s [] h ∙ append-nil s

pub encode-append : (s t : Text) → encode (s ++ t) ≡ encode s ++ encode t
unfolding encode
encode-append [] t = refl
encode-append (c ∷ s) t =
    ap (λ b. encode_char c ++ b) (encode-append s t)
    ∙ sym (append_assoc (encode_char c) (encode s) (encode t))

-- A character has a byte, and then as many as it takes to carry it.
char_bytes : (c : ℕ) → (b : ℕ) × (bs : Bytes) × (encode_char c ≡ b ∷ bs)
unfolding encode_char
char_bytes c = elim (Bool-cases (ltb c 0x80)) [
  | inl e ↦ rw e (_, _, refl)
  | inr e ↦ rw e (elim (Bool-cases (ltb c 0x800)) [
    | inl f ↦ rw f (_, _, refl)
    | inr f ↦ rw f (elim (Bool-cases (ltb c 0x10000)) [
      | inl g ↦ rw g (_, _, refl)
      | inr g ↦ rw g (_, _, refl)
    ])
  ])
]

pub encode_some : (s : Text) → s ≢ [] → encode s ≢ []
unfolding encode
encode_some [] n = absurd (n refl)
encode_some (c ∷ s) n = let (b, bs, e) = char_bytes c in rw e (λ h. cc)

-- A byte that follows another in a character begins none.
abbrev pub IsTail : ℕ → Type 0
IsTail b = (0x80 ≤ b) × (b < 0xc0)

decode-IsTail : (bs : Bytes) → All IsTail bs → decode bs ≡ map (λ (b : ℕ). replacement) bs
unfolding decode run step lead
decode-IsTail [] h = refl
decode-IsTail (b ∷ bs) ((l, u), h) =
    let e : ltb b 0x80 ≡ false = ground arith in
    let f : ltb b 0xc2 ≡ true = ground arith in
    rw (e, f) (ap (λ t. replacement ∷ t) (decode-IsTail bs h))

-- Of a character of several bytes the first alone, and the others alone, are decoded to
-- replacement characters.
decode_long :
    (b : ℕ) (bs : Bytes)
    → 0xc2 ≤ b
    → b < 0xf5
    → All IsTail bs
    → (decode (b ∷ []) ≡ replacement ∷ []) × (decode bs ≡ map (λ (x : ℕ). replacement) bs)
unfolding decode run step lead
decode_long b bs l u h = (ground arith, decode-IsTail bs h)

pub decode-encode_char :
    (c : ℕ)
    → 0x80 ≤ c
    → IsScalar c
    → (b : ℕ) × (bs : Bytes) × (encode_char c ≡ b ∷ bs)
      × (bs ≢ [])
      × (decode (b ∷ []) ≡ replacement ∷ [])
      × (decode bs ≡ map (λ (x : ℕ). replacement) bs)
unfolding encode_char
decode-encode_char c l h =
    let top = below_top c h in
    let e : ltb c 0x80 ≡ false = ground arith in
    rw e (elim (Bool-cases (ltb c 0x800)) [
      | inl f ↦
          let u = ltb→lt c 0x800 f in
          let (p, q) =
            decode_long (0xc0 + c / 64) ((0x80 + c % 64) ∷ []) (omega arith) (omega arith)
              (omega arith) in
          rw f (_, _, refl, λ z. cc, p, q)
      | inr f ↦
          let v = ltb→le c 0x800 f in
          rw f (elim (Bool-cases (ltb c 0x10000)) [
            | inl g ↦
                let u = ltb→lt c 0x10000 g in
                let (p, q) =
                  decode_long (0xe0 + c / 4096) ((0x80 + c / 64 % 64) ∷ (0x80 + c % 64) ∷ [])
                    (omega arith) (omega arith) (omega arith) in
                rw g (_, _, refl, λ z. cc, p, q)
            | inr g ↦
                let (p, q) =
                  decode_long (0xf0 + c / 262144)
                    ((0x80 + c / 4096 % 64) ∷ (0x80 + c / 64 % 64) ∷ (0x80 + c % 64) ∷ [])
                    (omega arith) (omega arith) (omega arith) in
                rw g (_, _, refl, λ z. cc, p, q)
          ])
    ])

-- A text of characters below the surrogates.
pub low-IsScalar : (s : Text) → any (λ c. not (ltb c 0xd800)) s ≡ false → All IsScalar s
low-IsScalar [] h = tt
low-IsScalar (c ∷ s) h =
    let e : ltb c 0xd800 ≡ true = ground arith in
    let k : any (λ c. not (ltb c 0xd800)) s ≡ false = ground arith in
    (inl (ltb→lt c 0xd800 e), low-IsScalar s k)
