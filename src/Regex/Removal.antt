-- ===== src/Regex/Removal.antt =====
-- Python's `re`: `sub` of an escape sequence is the machine that removes it in one pass.
use xfce_linux.Base.{
  ℕ, zero, suc, ◌<◌, ◌≡◌, refl, ap, sym, ◌∙◌, Bool, true, false, Option, none, some, List, [], ◌∷◌,
  Text, length, ◌==◌, if◌then◌else◌, arith, Bool-cases, inl, inr, subst,
}
use xfce_linux.Regex.{exec, Cursor, Cont, consume, star_loop, sub_loop, sub_all}
use xfce_linux.Regex.Escapes.{
  escape_char, plain, step, scan, scan_nil, scan_char, scan_params, sequence, tail_of, resumed,
}

module _ (p q : ℕ → Bool) (bare : p escape_char ≡ false)
    (apart : (c : ℕ) → p c ≡ true → q c ≡ false) where
  -- What the pattern leaves behind the bracket.
  abbrev Leaves : Option Text → Option Cursor → Type 0
  Leaves none m = m ≡ none
  Leaves (some v) m = (d : Cursor) × (m ≡ some d) × (d.rest ≡ v)

  abbrev last_char : Cont
  last_char c = consume q c.rest some c

  abbrev first_of : Option Cursor → Option Cursor → Option Cursor
  first_of m l = elim m [ none ↦ l | some d ↦ some d ]

  or_last : (m l : Option Cursor) → l ≡ none → first_of m l ≡ m
  or_last none l h = h
  or_last (some d) l h = refl

  abbrev at : Bool → Text → List (ℕ × Text) → Cursor
  at b s caps = record { at_start = b; rest = s; caps = caps }

  abbrev loop : ℕ → Cont
  loop fuel = star_loop (λ k c. consume p c.rest k c) fuel last_char

  loop_step :
      (fuel : ℕ) (b t : Bool) (x : ℕ) (s : Text) (caps : List (ℕ × Text))
      → p x ≡ t
      → loop (suc fuel) (at b (x ∷ s) caps)
        ≡ first_of (if t then loop fuel (at false s caps) else none) (last_char (at b (x ∷ s) caps))
  unfolding star_loop
  loop_step fuel b t x s caps e =
      ap
        (λ (i : Bool).
          first_of (if i then loop fuel (at false s caps) else none)
            (last_char (at b (x ∷ s) caps)))
        e

  star-Leaves :
      (fuel : ℕ) (b : Bool) (s : Text) (caps : List (ℕ × Text))
      → length s < fuel
      → Leaves (tail_of p q s) (loop fuel (at b s caps))
  unfolding star_loop
  star-Leaves zero b s caps h = absurd (omega arith)
  star-Leaves (suc fuel) b [] caps h = refl
  star-Leaves (suc fuel) b (x ∷ s) caps h = elim (Bool-cases (p x)) [
    | inl e ↦
        let l = last_char (at b (x ∷ s) caps) in
        let n : l ≡ none = rw (apart x e) refl in
        let step = loop_step fuel b true x s caps e ∙ or_last (loop fuel (at false s caps)) l n in
        rw e (
          subst (Leaves (tail_of p q s)) (sym step)
            (star-Leaves fuel false s caps (omega (arith, h))))
    | inr e ↦
        let step = loop_step fuel b false x s caps e in
        rw e (elim (Bool-cases (q x)) [
          | inl f ↦ rw f (at false s caps, step ∙ rw f refl, refl)
          | inr f ↦ rw f (step ∙ rw f refl)
        ])
  ]

  -- What the pattern leaves of a text that begins with the escape character.
  abbrev left_of : Text → Option Text
  left_of [] = none
  left_of (c ∷ t) = if c == b'[' then tail_of p q t else none

  sequence-Leaves :
      (b : Bool) (s : Text)
      → Leaves (left_of s) (exec (sequence p q) some (at b (escape_char ∷ s) []))
  unfolding exec
  sequence-Leaves b [] = refl
  sequence-Leaves b (c ∷ t) = elim (Bool-cases (c == b'[')) [
    | inl e ↦ rw e (star-Leaves (suc (length t)) false t [] (omega arith))
    | inr e ↦ rw e refl
  ]

  abbrev passed : Text → Option Text → Text
  passed s none = escape_char ∷ scan p q plain s
  passed s (some v) = scan p q plain v

  resumed-passed :
      (c : ℕ) (t : Text) (o : Option Text)
      → (c == b'[') ≡ true
      → resumed p q [] t o ≡ passed (c ∷ t) o
  resumed-passed c t none e =
      let k : b'[' ≡ c = ground arith in
      ap (λ d. escape_char ∷ d ∷ scan p q plain t) k
      ∙ ap (λ l. escape_char ∷ l) (sym (scan_char p q c t (let z = k in ground arith)))
  resumed-passed c t (some v) e = refl

  scan_escape : (s : Text) → scan p q plain (escape_char ∷ s) ≡ passed s (left_of s)
  unfolding scan step
  scan_escape [] = refl
  scan_escape (c ∷ t) = elim (Bool-cases (c == b'[')) [
    | inl e ↦ rw e (scan_params p q bare t [] ∙ resumed-passed c t (tail_of p q t) e)
    | inr e ↦ rw e refl
  ]

  tail_of-shorter : (t : Text) (v : Text) → tail_of p q t ≡ some v → length v < length t
  tail_of-shorter [] v h = absurd (cc)
  tail_of-shorter (c ∷ t) v h = elim (Bool-cases (p c)) [
    | inl e ↦ let k = tail_of-shorter t v (rw e at h) in omega (arith, k)
    | inr e ↦ elim (Bool-cases (q c)) [
      | inl f ↦ let k = rw (e, f) at h in let l : length t ≡ length v = cc in omega (arith, l)
      | inr f ↦ absurd (let k = rw (e, f) at h in cc)
    ]
  ]

  left_of-shorter : (t : Text) (v : Text) → left_of t ≡ some v → length v < length t
  left_of-shorter [] v h = absurd (cc)
  left_of-shorter (c ∷ t) v h = elim (Bool-cases (c == b'[')) [
    | inl e ↦ let k = tail_of-shorter t v (rw e at h) in omega (arith, k)
    | inr e ↦ absurd (let k = rw e at h in cc)
  ]

  abbrev sub_next : ℕ → ℕ → Text → Option Cursor → Text
  sub_next f x s none = x ∷ sub_loop f (sequence p q) [] false s
  sub_next f x s (some d) = sub_loop f (sequence p q) [] false d.rest

  sub_next-scan :
      (f : ℕ) (s : Text) (o : Option Text) (m : Option Cursor)
      → left_of s ≡ o
      → Leaves o m
      → length s < f
      → ((b : Bool) (t : Text) → length t < f → sub_loop f (sequence p q) [] b t ≡ scan p q plain t)
      → sub_next f escape_char s m ≡ passed s o
  sub_next-scan f s none m l h k go =
      ap (sub_next f escape_char s) h ∙ ap (λ t. escape_char ∷ t) (go false s k)
  sub_next-scan f s (some v) m l (d, h, r) k go =
      ap (sub_next f escape_char s) h
      ∙ ap (λ t. sub_loop f (sequence p q) [] false t) r
      ∙ go false v (let z = left_of-shorter s v l in omega (arith, z, k))

  exec_other :
      (b : Bool) (x : ℕ) (s : Text)
      → (x == escape_char) ≡ false
      → exec (sequence p q) some (at b (x ∷ s) []) ≡ none
  unfolding exec
  exec_other b x s e = rw e refl

  sub_loop_step :
      (f : ℕ) (b : Bool) (x : ℕ) (s : Text)
      → sub_loop (suc f) (sequence p q) [] b (x ∷ s)
        ≡ sub_next f x s (exec (sequence p q) some (at b (x ∷ s) []))
  unfolding sub_loop exec
  sub_loop_step f b x s = refl

  sub_loop-scan :
      (f : ℕ) (b : Bool) (s : Text)
      → length s < f
      → sub_loop f (sequence p q) [] b s ≡ scan p q plain s
  unfolding sub_loop
  sub_loop-scan zero b s h = absurd (omega arith)
  sub_loop-scan (suc f) b [] h = scan_nil p q
  sub_loop-scan (suc f) b (x ∷ s) h = elim (Bool-cases (x == escape_char)) [
    | inr e ↦
        sub_loop_step f b x s
        ∙ ap (sub_next f x s) (exec_other b x s e)
        ∙ ap (λ t. x ∷ t) (sub_loop-scan f false s (omega (arith, h)))
        ∙ sym (scan_char p q x s e)
    | inl e ↦
        let k : escape_char ≡ x = ground arith in
        subst (λ y. sub_loop (suc f) (sequence p q) [] b (y ∷ s) ≡ scan p q plain (y ∷ s)) k
          (sub_loop_step f b escape_char s
            ∙ sub_next-scan f s (left_of s) _ refl (sequence-Leaves b s) (omega (arith, h))
                (λ b' t l. sub_loop-scan f b' t l)
            ∙ sym (scan_escape s))
  ]

  -- The substitution of the sequence by nothing is one pass of the machine.
  pub sub_all-scan : (s : Text) → sub_all (sequence p q) [] s ≡ scan p q plain s
  unfolding sub_all
  sub_all-scan s = sub_loop-scan (suc (length s)) true s (omega arith)
