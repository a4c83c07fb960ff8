-- ===== src/Regex/Escapes.antt =====
-- Python's `re`: `sub` of an escape sequence, and a machine that removes it in one pass.
use xfce_linux.Base.{
  ℕ, ◌≡◌, refl, ap, sym, ◌∙◌, Bool, true, false, Option, none, some, [], ◌∷◌, ◌++◌, append_assoc,
  append-nil, Text, ◌==◌, if◌then◌else◌, arith, Bool-cases, inl, inr,
}
use xfce_linux.Regex.{Regex, sat, star, chr, ◌▸◌}

abbrev pub escape_char : ℕ
escape_char = 0x1b

-- What was read: nothing, the escape character, or that with a bracket and these parameters.
pub data Mode : Type 0 where
  plain escaped : Mode
  params : Text → Mode

-- A character where none of a sequence is open.
abbrev pub restart : ℕ → Text × Mode
restart c = if c == escape_char then ([], escaped) else (c ∷ [], plain)

abbrev pub emit : Text → Text × Mode → Text × Mode
emit out (more, m) = (out ++ more, m)

module _ (p q : ℕ → Bool) where
  -- The escape character, a bracket, some characters by `p` and one by `q`.
  abbrev pub sequence : Regex
  sequence = chr escape_char ▸ chr b'[' ▸ star (sat p) ▸ sat q

  unfoldable pub step : Mode → ℕ → Text × Mode
  step plain c = restart c
  step escaped c = if c == b'[' then ([], params []) else emit (escape_char ∷ []) (restart c)
  step (params ps) c =
      if p c
      then ([], params (ps ++ c ∷ []))
      else if q c
      then ([], plain)
      else emit (escape_char ∷ b'[' ∷ ps) (restart c)

  abbrev pub held : Mode → Text
  held plain = []
  held escaped = escape_char ∷ []
  held (params ps) = escape_char ∷ b'[' ∷ ps

  abbrev pub put : (Mode → Text) → Text × Mode → Text
  put go (out, m) = out ++ go m

  -- The machine.
  unfoldable pub scan : Mode → Text → Text
  unfolding step
  scan m [] = held m
  scan m (c ∷ s) = put (λ n. scan n s) (step m c)

  -- The text behind the parameters and the last character.
  abbrev pub tail_of : Text → Option Text
  tail_of [] = none
  tail_of (c ∷ t) = let rest = tail_of t in if p c then rest else if q c then some t else none

  -- What the machine makes of the rest behind a bracket and parameters.
  abbrev pub resumed : Text → Text → Option Text → Text
  resumed ps t none = escape_char ∷ b'[' ∷ (ps ++ scan plain t)
  resumed ps t (some v) = scan plain v

  pub scan_nil : [] ≡ scan plain []
  unfolding scan
  scan_nil = refl

  pub scan_char :
      (c : ℕ) (t : Text) → (c == escape_char) ≡ false → scan plain (c ∷ t) ≡ c ∷ scan plain t
  unfolding scan step
  scan_char c t e = rw e refl

  module _ (bare : p escape_char ≡ false) where
    no_escape : (c : ℕ) → p c ≡ true → (c == escape_char) ≡ false
    no_escape c h = elim (Bool-cases (c == escape_char)) [
      | inr e ↦ e
      | inl e ↦ absurd (let k : c ≡ escape_char = ground arith in let g = rw k at h in cc (g, bare))
    ]

    resumed_char :
        (c : ℕ) (t ps : Text) (o : Option Text)
        → p c ≡ true
        → resumed (ps ++ c ∷ []) t o ≡ resumed ps (c ∷ t) o
    resumed_char c t ps none h =
        ap (λ l. escape_char ∷ b'[' ∷ l)
          (append_assoc ps (c ∷ []) (scan plain t)
            ∙ ap (λ l. ps ++ l) (sym (scan_char c t (no_escape c h))))
    resumed_char c t ps (some v) h = refl

    pub scan_params : (t ps : Text) → scan (params ps) t ≡ resumed ps t (tail_of t)
    unfolding scan step
    scan_params [] ps = ap (λ l. escape_char ∷ b'[' ∷ l) (sym (append-nil ps))
    scan_params (c ∷ t) ps = elim (Bool-cases (p c)) [
      | inl e ↦ rw e (scan_params t (ps ++ c ∷ []) ∙ resumed_char c t ps (tail_of t) e)
      | inr e ↦ elim (Bool-cases (q c)) [
        | inl f ↦ rw (e, f) refl
        | inr f ↦
            rw (e, f)
              (ap (λ l. escape_char ∷ b'[' ∷ l)
                (append_assoc ps (restart c).0 (scan (restart c).1 t)))
      ]
    ]
